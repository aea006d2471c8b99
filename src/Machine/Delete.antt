-- ===== src/Machine/Delete.antt =====
-- `reconcileDelete` of controllers/clouddirectortenantmachine_controller.go.
pub mod Granted
use cluster_api_provider_clo.Machine.LoadBalancer.{leave_load_balancer}
use cluster_api_provider_clo.World.Calls.{
  get_v_app_by_id, get_tenant_cluster, get_vm_by_name, get_org_by_name, delete_vm, get_vdc_by_name,
}
use cluster_api_provider_clo.Vcdutil.{find}
use cluster_api_provider_clo.ClientCache.{get_vcd_client}
use cluster_api_provider_clo.Api.{Machine, Cluster, CloudDirectorReference, TenantCluster}
use cluster_api_provider_clo.Base.{Option, String, some, none, true, if◌then◌else◌}
use cluster_api_provider_clo.World.Types.{Named, Vdc}
use cluster_api_provider_clo.Machine.Object.{T, without_finalizer}
use cluster_api_provider_clo.World.{World}
use cluster_api_provider_clo.Flow.{
  ◌>>=◌, ◌>>◌, Return, modify, gets, perform, or_else, pure, fail, done, retry, deref, when_some,
}

module _ (W : World) where
  abbrev pub drop_finalizer : T Return
  drop_finalizer = do modify (without_finalizer W); pure done

  unfoldable pub remove_vm : Named → T Return
  remove_vm v_app = do
    name ← gets (λ m. m.metadata.name)
    found ← find W (get_vm_by_name v_app name true) retry
    when_some found λ vm. do a ← perform W (delete_vm vm); or_else a retry
    drop_finalizer

  -- Without a vApp there is no virtual machine.
  unfoldable pub remove_from_v_app : Option CloudDirectorReference → Vdc → T Return
  remove_from_v_app none vdc = drop_finalizer
  remove_from_v_app (some ref) vdc = do
    a ← perform W (get_v_app_by_id vdc ref.id true)
    v_app ← or_else a retry
    remove_vm v_app

  unfoldable pub delete_from_cluster : Machine → TenantCluster → T Return
  delete_from_cluster owner cluster = do
    a ← get_vcd_client W cluster
    maybe_client ← or_else a fail
    client ← deref maybe_client
    b ← perform W (get_org_by_name client cluster.spec.organization)
    org ← or_else b retry
    c ← perform W (get_vdc_by_name org cluster.spec.virtual_data_center true)
    vdc ← or_else c retry
    if W.is_control_plane_machine owner then leave_load_balancer W cluster vdc else pure tt
    remove_from_v_app cluster.status.v_app vdc

  unfoldable pub fetch_cluster : Cluster → String → T TenantCluster
  fetch_cluster owner_cluster name = do
    a ← perform W (get_tenant_cluster (record { name = name; namespace = owner_cluster.namespace }))
    or_else a fail

  abbrev pub delete_with : Machine → Cluster → Option String → T Return
  delete_with owner owner_cluster none = drop_finalizer
  delete_with owner owner_cluster (some name) = do
    cluster ← fetch_cluster owner_cluster name
    delete_from_cluster owner cluster

  unfoldable pub reconcile_delete : Machine → Cluster → T Return
  reconcile_delete owner owner_cluster =
      delete_with owner owner_cluster owner_cluster.infrastructure_ref
