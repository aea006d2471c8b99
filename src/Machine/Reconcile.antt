-- ===== src/Machine/Reconcile.antt =====
-- `Reconcile` and `patchTenantMachine` of controllers/clouddirectortenantmachine_controller.go.
use cluster_api_provider_clo.Machine.LoadBalancer.{join_load_balancer}
use cluster_api_provider_clo.Machine.Provision.{provision}
use cluster_api_provider_clo.World.Calls.{
  get_tenant_machine, patch_machine, get_owner_machine, get_org_by_name, get_cluster_from_metadata,
  new_machine_patch_helper, get_vdc_by_name, get_v_app_by_id,
}
use cluster_api_provider_clo.Machine.Delete.{fetch_cluster, reconcile_delete}
use cluster_api_provider_clo.Api.Conditions.{
  waiting_for_cluster_infrastructure_reason, waiting_for_bootstrap_data_reason, ConditionType,
  virtual_machine_ready_condition, cloud_director_error_reason, load_balancer_member_condition,
}
use cluster_api_provider_clo.ClientCache.{get_vcd_client}
use cluster_api_provider_clo.Machine.Object.{
  T, waiting, with_finalizer, with_status, not_ready, tenant_machine_finalizer, with_true,
  not_ready_retry,
}
use cluster_api_provider_clo.World.Types.{GoError, ObjectKey, Org, Vdc, Answer, Named}
use cluster_api_provider_clo.Base.{
  String, Option, Bool, List, ◌||◌, if◌then◌else◌, not, str_eq, ◌∷◌, some, none, ◌<>◌, [], true,
}
use cluster_api_provider_clo.Api.{TenantCluster, Machine, TenantMachine, Cluster, is_zero}
use cluster_api_provider_clo.World.{World}
use cluster_api_provider_clo.Flow.{
  ◌>>=◌, ◌>>◌, Return, M, modify, deref, gets, defer, perform, or_else, done, requeue, pure, return,
  failed, fail, or_done,
}

module _ (W : World) where
  -- From the provider id on.
  unfoldable pub reconcile_vm : TenantCluster → Machine → Org → Vdc → Named → T Return
  reconcile_vm cluster owner org vdc v_app = do
    provider_id ← gets (λ m. m.spec.provider_id)
    if str_eq provider_id "" then provision W cluster owner org v_app else pure tt
    if W.is_control_plane_machine owner then join_load_balancer W cluster vdc else pure tt
    modify (with_true W virtual_machine_ready_condition)
    modify (with_status (λ s. record s { ready = true }))
    pure done

  unfoldable pub connect : Machine → TenantCluster → T Return
  connect owner cluster = do
    a ← get_vcd_client W cluster
    maybe_client ← or_else a λ e. do
      modify (not_ready W cloud_director_error_reason ("error getting client: " <> e.message))
      fail e
    client ← deref maybe_client
    b ← perform W (get_org_by_name client cluster.spec.organization)
    org ← or_else b (not_ready_retry W cloud_director_error_reason "error getting org: ")
    c ← perform W (get_vdc_by_name org cluster.spec.virtual_data_center true)
    vdc ← or_else c (not_ready_retry W cloud_director_error_reason "error getting vdc: ")
    ref ← deref cluster.status.v_app
    d ← perform W (get_v_app_by_id vdc ref.id true)
    v_app ← or_else d (not_ready_retry W cloud_director_error_reason "error getting vapp: ")
    reconcile_vm cluster owner org vdc v_app

  -- `return` with the reason on the condition.
  abbrev pub wait_for : {A : Type 0} → String → Return → T A
  wait_for reason r = do modify (waiting W reason); return r

  abbrev pub or_waiting : {A : Type 0} → Option A → T (Unit {0})
  or_waiting none = wait_for waiting_for_cluster_infrastructure_reason done
  or_waiting (some a) = pure tt

  unfoldable pub with_cluster : Machine → Cluster → T Return
  with_cluster owner owner_cluster = do
    name ← deref owner_cluster.infrastructure_ref
    cluster ← fetch_cluster W owner_cluster name
    or_waiting cluster.spec.identity_ref
    connect owner cluster

  -- The control plane has to be there before a worker is built.
  unfoldable pub may_join : Machine → Cluster → Bool
  may_join owner owner_cluster =
      W.is_control_plane_machine owner
      || W.is_true W.control_plane_initialized_condition owner_cluster.conditions

  abbrev pub has_bootstrap : Option String → T (Unit {0})
  has_bootstrap none = wait_for waiting_for_bootstrap_data_reason (requeue 60)
  has_bootstrap (some name) = pure tt

  -- From the finalizer on, for a machine that is not being deleted.
  unfoldable pub reconcile_normal : Machine → Cluster → T Return
  reconcile_normal owner owner_cluster = do
    if owner_cluster.infrastructure_ready
        then pure tt
        else wait_for waiting_for_cluster_infrastructure_reason (requeue 60)
    has_bootstrap owner.data_secret_name
    if may_join owner owner_cluster
        then pure tt
        else wait_for W.waiting_for_control_plane_available_reason done
    with_cluster owner owner_cluster

  -- `if controllerutil.AddFinalizer(...) { return }`
  unfoldable pub add_finalizer_or : Bool → T Return → T Return
  add_finalizer_or added rest =
      if added
      then (do modify (with_finalizer W); pure done)
      else (do modify (with_finalizer W); rest)

  -- `Reconcile` of a machine with its owners, without the deferred patch.
  unfoldable pub reconcile_object : Machine → Cluster → T Return
  reconcile_object owner owner_cluster = do
    machine ← gets (λ m. m)
    if not (is_zero machine.metadata.deletion_timestamp)
        then reconcile_delete W owner owner_cluster
        else add_finalizer_or
            (W.add_finalizer tenant_machine_finalizer machine.metadata.finalizers).1
            (reconcile_normal owner owner_cluster)

  abbrev pub summary_conditions : Machine → List ConditionType
  summary_conditions owner =
      virtual_machine_ready_condition
      ∷ (if W.is_control_plane_machine owner then load_balancer_member_condition ∷ [] else [])

  unfoldable pub patch_tenant_machine : TenantMachine → Machine → T (Answer (Unit {0}))
  patch_tenant_machine original owner = do
    modify (
        with_status
          (λ s. record s { conditions = W.set_summary (summary_conditions owner) s.conditions }))
    machine ← gets (λ m. m)
    perform W (
        patch_machine original machine (
          W.ready_condition ∷ virtual_machine_ready_condition ∷ load_balancer_member_condition
          ∷ []))

  -- The part of `Reconcile` that works on a fetched object.
  unfoldable pub reconcile_fetched : TenantMachine → Machine → Cluster → T Return
  reconcile_fetched original owner owner_cluster =
      defer W (patch_tenant_machine original owner) (reconcile_object owner owner_cluster)

  abbrev in_object : TenantMachine → Machine → Cluster → M Unit Return
  in_object machine owner owner_cluster s =
      let (r, t) =
        reconcile_fetched machine owner owner_cluster
          (record { object = machine; trace = s.trace }) in
      (r, record s { trace = t.trace })

  -- `client.IgnoreNotFound(err)`
  ignore_missing : {A : Type 0} → GoError → M Unit A
  ignore_missing e = if W.is_not_found e then return done else return (failed e)

  unfoldable pub reconcile : ObjectKey → M Unit Return
  unfolding ignore_missing
  reconcile key = do
    a ← perform W (get_tenant_machine key)
    machine ← or_else a ignore_missing
    b ← perform W (get_owner_machine machine.metadata)
    maybe_owner ← or_else b fail
    owner ← or_done maybe_owner
    c ← perform W (get_cluster_from_metadata owner)
    owner_cluster ← or_else c fail
    d ← perform W (new_machine_patch_helper machine)
    or_else d fail
    in_object machine owner owner_cluster
