-- ===== src/Cluster/Delete.antt =====
-- `reconcileDelete` of controllers/clouddirectortenantcluster_controller.go.
pub mod Granted
use cluster_api_provider_clo.Base.{String, false, Option, List, [], ◌∷◌, str_eq, if◌then◌else◌}
use cluster_api_provider_clo.Api.{Cluster, Machine}
use cluster_api_provider_clo.World.{World}
use cluster_api_provider_clo.World.Types.{VcdClient, Vdc, Named}
use cluster_api_provider_clo.World.Calls.{
  get_filtered_machines_for_cluster, get_org_by_name, get_vdc_by_name, get_virtual_service_by_id,
  delete_virtual_service, get_alb_pool_by_id, delete_alb_pool, get_firewall_group_by_id,
  delete_firewall_group, get_v_app_by_id, get_v_app_status, undeploy_v_app, delete_v_app,
  wait_task_completion,
}
use cluster_api_provider_clo.Flow.{
  Return, done, requeue, pure, return, gets, modify, ◌>>=◌, ◌>>◌, deref, perform, or_else,
  when_some, fail,
}
use cluster_api_provider_clo.Vcdutil.{find}
use cluster_api_provider_clo.ClientCache.{get_vcd_client}
use cluster_api_provider_clo.Cluster.Object.{without_finalizer}
use cluster_api_provider_clo.Cluster.Parts.{C}

abbrev pub no_machines : List Machine → C (Unit {0})
no_machines [] = pure tt
no_machines (m ∷ ms) = return (requeue 5)

-- `if len(IpAddresses) > 0 { return }`
abbrev pub no_addresses : List String → C (Unit {0})
no_addresses [] = pure tt
no_addresses (a ∷ rest) = return done

module _ (W : World) where
  unfoldable pub remove_virtual_service : VcdClient → C (Unit {0})
  remove_virtual_service client = do
    recorded ← gets (λ c. c.status.virtual_service)
    when_some recorded λ ref. do
      found ← find W (get_virtual_service_by_id client ref.id) fail
      when_some found λ service. do a ← perform W (delete_virtual_service service); or_else a fail

  unfoldable pub remove_alb_pool : VcdClient → C (Unit {0})
  remove_alb_pool client = do
    recorded ← gets (λ c. c.status.pool)
    when_some recorded λ ref. do
      found ← find W (get_alb_pool_by_id client ref.id) fail
      when_some found λ pool. do a ← perform W (delete_alb_pool pool); or_else a fail

  unfoldable pub remove_firewall_group : Vdc → C (Unit {0})
  remove_firewall_group vdc = do
    recorded ← gets (λ c. c.status.ip_set)
    when_some recorded λ ref. do
      found ← find W (get_firewall_group_by_id vdc ref.id) fail
      when_some found λ group. do
        no_addresses group.ip_addresses
        a ← perform W (delete_firewall_group group)
        or_else a fail

  undeploy : Named → String → C (Unit {0})
  undeploy v_app status = if str_eq status "POWERED_OFF" then pure tt else do
    a ← perform W (undeploy_v_app v_app)
    task ← or_else a fail
    b ← perform W (wait_task_completion task)
    or_else b fail

  unfoldable pub remove_v_app : Vdc → C (Unit {0})
  unfolding undeploy
  remove_v_app vdc = do
    recorded ← gets (λ c. c.status.v_app)
    when_some recorded λ ref. do
      found ← find W (get_v_app_by_id vdc ref.id false) fail
      when_some found λ v_app. do
        a ← perform W (get_v_app_status v_app)
        status ← or_else a fail
        undeploy v_app status
        b ← perform W (delete_v_app v_app)
        task ← or_else b fail
        c ← perform W (wait_task_completion task)
        or_else c fail

  -- The four removals in their order, and then the finalizer.
  unfoldable pub remove_parts : VcdClient → Vdc → C Return
  remove_parts client vdc = do
    remove_virtual_service client
    remove_alb_pool client
    remove_firewall_group vdc
    remove_v_app vdc
    modify (without_finalizer W)
    pure done

  -- Listing the machines reads the name of the owner, which crashes on a nil owner.
  unfoldable pub reconcile_delete : Option Cluster → C Return
  reconcile_delete owner = do
    present ← deref owner
    a ← perform W (get_filtered_machines_for_cluster present)
    machines ← or_else a fail
    no_machines machines
    cluster ← gets (λ c. c)
    b ← get_vcd_client W cluster
    maybe_client ← or_else b fail
    client ← deref maybe_client
    c ← perform W (get_org_by_name client cluster.spec.organization)
    org ← or_else c fail
    d ← perform W (get_vdc_by_name org cluster.spec.virtual_data_center false)
    vdc ← or_else d fail
    remove_parts client vdc
