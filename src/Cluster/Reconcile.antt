-- ===== src/Cluster/Reconcile.antt =====
-- `Reconcile` and `patchTenantCluster` of controllers/clouddirectortenantcluster_controller.go.
use cluster_api_provider_clo.Base.{
  String, Bool, true, false, not, Option, some, List, [], ◌∷◌, str_eq, if◌then◌else◌,
}
use cluster_api_provider_clo.Api.{Cluster, TenantCluster, is_zero}
use cluster_api_provider_clo.Api.Conditions.{
  virtual_service_ready_condition, pool_ready_condition, ip_set_ready_condition,
  v_app_ready_condition, external_ip_address_ready, external_ip_address_get_unused_failed_reason,
  cloud_director_error_reason,
}
use cluster_api_provider_clo.World.{World}
use cluster_api_provider_clo.World.Types.{
  GoError, Answer, ObjectKey, VcdClient, Vdc, Named, FirewallGroup,
}
use cluster_api_provider_clo.World.Calls.{
  get_tenant_cluster, get_owner_cluster, new_cluster_patch_helper, patch_cluster, get_org_by_name,
  get_vdc_by_name, get_edge_gateway, get_unused_external_ip_addresses,
}
use cluster_api_provider_clo.Flow.{
  Return, done, failed, M, pure, return, panic, gets, modify, ◌>>=◌, ◌>>◌, deref, perform, defer,
  or_else, retry, or_done, fail,
}
use cluster_api_provider_clo.ClientCache.{get_vcd_client}
use cluster_api_provider_clo.Cluster.Object.{
  tenant_cluster_finalizer, with_status, with_true, with_error, with_finalizer, reference,
}
use cluster_api_provider_clo.Cluster.Parts.{
  C, ensure_firewall_group, ensure_alb_pool, ensure_virtual_service, ensure_v_app,
}
use cluster_api_provider_clo.Cluster.Delete.{reconcile_delete}

-- `addrs[0]`
abbrev pub first : List String → C String
first [] = panic
first (a ∷ rest) = pure a

module _ (W : World) where
  -- The final updates, in their order: a nil pool or firewall group crashes in between.
  unfoldable pub record_parts : Named → Named → Option Named → Option FirewallGroup → C Return
  record_parts v_app service pool group = do
    modify (with_status (λ s. record s { v_app = some (reference v_app) }))
    modify (with_true W v_app_ready_condition)
    modify (with_status (λ s. record s { virtual_service = some (reference service) }))
    modify (with_true W virtual_service_ready_condition)
    members ← deref pool
    modify (with_status (λ s. record s { pool = some (reference members) }))
    modify (with_true W pool_ready_condition)
    g ← deref group
    modify (with_status (λ s. record s { ip_set = some (record { id = g.id; name = g.name }) }))
    modify (with_true W ip_set_ready_condition)
    modify (with_status (λ s. record s { ready = true }))
    pure done

  unfoldable pub ensure_parts : VcdClient → Vdc → Named → C Return
  ensure_parts client vdc gateway = do
    group ← ensure_firewall_group W vdc gateway
    pool ← ensure_alb_pool W client gateway group
    service ← ensure_virtual_service W client gateway pool
    v_app ← ensure_v_app W vdc
    record_parts v_app service pool group

  unfoldable pub allocate_endpoint : Named → C Return
  allocate_endpoint gateway = do
    a ← perform W (get_unused_external_ip_addresses gateway 1)
    addresses ← or_else a λ e. do
      modify (
          with_error W external_ip_address_ready external_ip_address_get_unused_failed_reason
            e.message)
      retry e
    address ← first addresses
    modify (λ c. record c {
      spec = record c.spec { control_plane_endpoint = record { host = address; port = 6443 } };
    })
    pure done

  unfoldable pub with_endpoint : Option Cluster → VcdClient → Vdc → Named → C Return
  with_endpoint owner client vdc gateway = do
    modify (with_true W external_ip_address_ready)
    cluster ← or_done owner
    or_done cluster.control_plane_ref
    ensure_parts client vdc gateway

  -- From the finalizer on, for a cluster that is not being deleted.
  unfoldable pub reconcile_normal : Option Cluster → C Return
  reconcile_normal owner = do
    tenant_cluster ← gets (λ c. c)
    or_done tenant_cluster.spec.identity_ref
    a ← get_vcd_client W tenant_cluster
    maybe_client ← or_else a λ e. do
      modify (with_error W external_ip_address_ready cloud_director_error_reason e.message)
      retry e
    client ← deref maybe_client
    b ← perform W (get_org_by_name client tenant_cluster.spec.organization)
    org ← or_else b retry
    c ← perform W (get_vdc_by_name org tenant_cluster.spec.virtual_data_center false)
    vdc ← or_else c retry
    d ← perform W (get_edge_gateway org tenant_cluster.spec.edge_gateway vdc.id)
    gateway ← or_else d retry
    if str_eq tenant_cluster.spec.control_plane_endpoint.host ""
        then allocate_endpoint gateway
        else with_endpoint owner client vdc gateway

  -- `if controllerutil.AddFinalizer(...) { return }`
  unfoldable pub add_finalizer_or : Bool → C Return → C Return
  add_finalizer_or added rest =
      if added
      then (do modify (with_finalizer W); pure done)
      else (do modify (with_finalizer W); rest)

  -- `Reconcile` without its deferred patch.
  unfoldable pub reconcile_object : C Return
  reconcile_object = do
    cluster ← gets (λ c. c)
    a ← perform W (get_owner_cluster cluster.metadata)
    owner ← or_else a fail
    if not (is_zero cluster.metadata.deletion_timestamp)
        then reconcile_delete W owner
        else add_finalizer_or
            (W.add_finalizer tenant_cluster_finalizer cluster.metadata.finalizers).1
            (reconcile_normal owner)

  unfoldable pub patch_tenant_cluster : TenantCluster → C (Answer (Unit {0}))
  patch_tenant_cluster original = do
    modify (
        with_status (λ s. record s {
          conditions =
              W.set_summary
                (virtual_service_ready_condition ∷ pool_ready_condition ∷ ip_set_ready_condition
                  ∷ v_app_ready_condition ∷ external_ip_address_ready ∷ [])
                s.conditions;
        }))
    cluster ← gets (λ c. c)
    perform W (
        patch_cluster original cluster (
          W.ready_condition ∷ virtual_service_ready_condition ∷ pool_ready_condition
          ∷ ip_set_ready_condition ∷ v_app_ready_condition ∷ external_ip_address_ready ∷ []))

  -- The part of `Reconcile` that works on a fetched object.
  unfoldable pub reconcile_fetched : TenantCluster → C Return
  reconcile_fetched original = defer W (patch_tenant_cluster original) reconcile_object

  abbrev in_object : TenantCluster → M Unit Return
  in_object cluster s =
      let (r, t) = reconcile_fetched cluster (record { object = cluster; trace = s.trace }) in
      (r, record s { trace = t.trace })

  -- `client.IgnoreNotFound(err)`
  ignore_missing : {A : Type 0} → GoError → M Unit A
  ignore_missing e = if W.is_not_found e then return done else return (failed e)

  unfoldable pub reconcile : ObjectKey → M Unit Return
  unfolding ignore_missing
  reconcile key = do
    a ← perform W (get_tenant_cluster key)
    cluster ← or_else a ignore_missing
    b ← perform W (new_cluster_patch_helper cluster)
    or_else b (λ e. return (failed e))
    in_object cluster
