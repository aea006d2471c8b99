-- ===== src/Machine/Calls.antt =====
-- Which calls the machine controller can make.
use cluster_api_provider_clo.Flow.{◌>>=◌, defer, Return, Session}
use cluster_api_provider_clo.Machine.Object.{T, tenant_machine_finalizer}
use cluster_api_provider_clo.World.Calls.{Call, patch_machine}
use cluster_api_provider_clo.ClientCache.Rules.{Preserves-get_vcd_client}
use cluster_api_provider_clo.Machine.Kinds.{machine_rules}
use cluster_api_provider_clo.Cluster.Kinds.{
  creates_nothing, removes_nothing, creates_nothing-KeptByClient, removes_nothing-KeptByClient,
}
use cluster_api_provider_clo.Flow.Rules.{
  Preserves, OnlyCalls, Preserves-bind, OnlyCalls-modify, Preserves-gets, OnlyCalls-perform,
}
use cluster_api_provider_clo.World.Types.{Named, Vm, Vdc, Org}
use cluster_api_provider_clo.Api.{
  TenantCluster, CloudDirectorReference, Machine, Cluster, TenantMachine, is_zero,
}
use cluster_api_provider_clo.Base.{
  Option, String, List, ℕ, some, none, Bool, All, if◌then◌else◌, ◌≡◌, not, true, false, refl,
}
use cluster_api_provider_clo.Machine.Reconcile.{
  reconcile_vm, connect, with_cluster, reconcile_normal, or_waiting, has_bootstrap,
  add_finalizer_or, patch_tenant_machine, reconcile_object, reconcile_fetched,
}
use cluster_api_provider_clo.Machine.Provision.{
  bootstrap_data, customize, update_properties, configure, provision,
}
use cluster_api_provider_clo.Machine.Vm.{
  update_spec_section, power_on, add_vm, add_named, ensure_vm,
}
use cluster_api_provider_clo.Machine.Delete.{
  remove_vm, remove_from_v_app, delete_from_cluster, fetch_cluster, reconcile_delete, delete_with,
}
use cluster_api_provider_clo.Machine.LoadBalancer.{
  leave_load_balancer, join_load_balancer, add_member,
}
use cluster_api_provider_clo.World.{World, Trace}

module _ (W : World) where
  leave_creates_nothing :
      (cluster : TenantCluster) (vdc : Vdc)
      → Preserves (OnlyCalls creates_nothing) (leave_load_balancer W cluster vdc)
  unfolding leave_load_balancer
  leave_creates_nothing cluster vdc = search machine_rules depth 30

  remove_vm-creates_nothing :
      (v_app : Named) → Preserves (OnlyCalls creates_nothing) (remove_vm W v_app)
  unfolding remove_vm
  remove_vm-creates_nothing v_app = search machine_rules depth 30

  remove_from_v_app-creates_nothing :
      (r : Option CloudDirectorReference) (vdc : Vdc)
      → Preserves (OnlyCalls creates_nothing) (remove_from_v_app W r vdc)
  unfolding remove_from_v_app
  remove_from_v_app-creates_nothing none vdc = search machine_rules depth 30
  remove_from_v_app-creates_nothing (some ref) vdc =
      search (machine_rules, remove_vm-creates_nothing) depth 30

  delete_creates_nothing :
      (owner : Machine) (cluster : TenantCluster)
      → Preserves (OnlyCalls creates_nothing) (delete_from_cluster W owner cluster)
  unfolding delete_from_cluster
  delete_creates_nothing owner cluster =
      search
        (
          machine_rules,
          leave_creates_nothing,
          remove_from_v_app-creates_nothing,
          Preserves-get_vcd_client W (creates_nothing-KeptByClient W),
        )
        depth 40

  fetch_creates_nothing :
      (owner_cluster : Cluster) (name : String)
      → Preserves (OnlyCalls creates_nothing) (fetch_cluster W owner_cluster name)
  unfolding fetch_cluster
  fetch_creates_nothing owner_cluster name = search machine_rules depth 30

  deletion_creates_nothing :
      (owner : Machine) (owner_cluster : Cluster)
      → Preserves (OnlyCalls creates_nothing) (reconcile_delete W owner owner_cluster)
  unfolding reconcile_delete
  deletion_creates_nothing owner owner_cluster = go owner_cluster.infrastructure_ref
    where
      go :
          (r : Option String)
          → Preserves (OnlyCalls creates_nothing) (delete_with W owner owner_cluster r)
      go none = search machine_rules depth 30
      go (some name) =
          search (machine_rules, fetch_creates_nothing, delete_creates_nothing) depth 30

module _ (W : World) where
  send_removes_nothing :
      (machine : TenantMachine) (vm : Vm)
      → Preserves (OnlyCalls removes_nothing) (update_spec_section W machine vm)
  unfolding update_spec_section
  send_removes_nothing machine vm = search machine_rules depth 30

  power_removes_nothing : (vm : Vm) → Preserves (OnlyCalls removes_nothing) (power_on W vm)
  unfolding power_on
  power_removes_nothing vm = search machine_rules depth 30

  add_vm-removes_nothing :
      (cluster : TenantCluster) (v_app catalog : Named)
      → Preserves (OnlyCalls removes_nothing) (add_vm W cluster v_app catalog)
  unfolding add_vm add_named
  add_vm-removes_nothing cluster v_app catalog = search machine_rules depth 40

  ensure_vm-removes_nothing :
      (cluster : TenantCluster) (v_app catalog : Named)
      → Preserves (OnlyCalls removes_nothing) (ensure_vm W cluster v_app catalog)
  unfolding ensure_vm
  ensure_vm-removes_nothing cluster v_app catalog =
      search (machine_rules, add_vm-removes_nothing) depth 40

  bootstrap_removes_nothing :
      (owner : Machine) → Preserves (OnlyCalls removes_nothing) (bootstrap_data W owner)
  unfolding bootstrap_data
  bootstrap_removes_nothing owner = search machine_rules depth 30

  customize-removes_nothing : (vm : Vm) → Preserves (OnlyCalls removes_nothing) (customize W vm)
  unfolding customize
  customize-removes_nothing vm = search machine_rules depth 30

  properties_removes_nothing :
      (vm : Vm) (value : List ℕ) (text : String)
      → Preserves (OnlyCalls removes_nothing) (update_properties W vm value text)
  unfolding update_properties
  properties_removes_nothing vm value text = search machine_rules depth 30

  configure-removes_nothing :
      (cluster : TenantCluster) (owner : Machine) (v_app : Named) (vm : Vm)
      → Preserves (OnlyCalls removes_nothing) (configure W cluster owner v_app vm)
  unfolding configure
  configure-removes_nothing cluster owner v_app vm =
      search
        (
          machine_rules, bootstrap_removes_nothing, customize-removes_nothing,
          properties_removes_nothing, send_removes_nothing, power_removes_nothing,
        )
        depth 40

  provision-removes_nothing :
      (cluster : TenantCluster) (owner : Machine) (org : Org) (v_app : Named)
      → Preserves (OnlyCalls removes_nothing) (provision W cluster owner org v_app)
  unfolding provision
  provision-removes_nothing cluster owner org v_app =
      search (machine_rules, ensure_vm-removes_nothing, configure-removes_nothing) depth 40

  join_removes_nothing :
      (cluster : TenantCluster) (vdc : Vdc)
      → Preserves (OnlyCalls removes_nothing) (join_load_balancer W cluster vdc)
  unfolding join_load_balancer add_member
  join_removes_nothing cluster vdc = search machine_rules depth 40

  vm_removes_nothing :
      (cluster : TenantCluster) (owner : Machine) (org : Org) (vdc : Vdc) (v_app : Named)
      → Preserves (OnlyCalls removes_nothing) (reconcile_vm W cluster owner org vdc v_app)
  unfolding reconcile_vm
  vm_removes_nothing cluster owner org vdc v_app =
      search (machine_rules, provision-removes_nothing, join_removes_nothing) depth 40

  connect-removes_nothing :
      (owner : Machine) (cluster : TenantCluster)
      → Preserves (OnlyCalls removes_nothing) (connect W owner cluster)
  unfolding connect
  connect-removes_nothing owner cluster =
      search
        (
          machine_rules,
          vm_removes_nothing,
          Preserves-get_vcd_client W (removes_nothing-KeptByClient W),
        )
        depth 40

  waiting_removes_nothing :
      {A : Type 0} (o : Option A) → Preserves (OnlyCalls removes_nothing) (or_waiting W o)
  waiting_removes_nothing none = search machine_rules depth 12
  waiting_removes_nothing (some a) = search machine_rules depth 12

  bootstrap_name_removes_nothing :
      (o : Option String) → Preserves (OnlyCalls removes_nothing) (has_bootstrap W o)
  bootstrap_name_removes_nothing none = search machine_rules depth 12
  bootstrap_name_removes_nothing (some a) = search machine_rules depth 12

  with_cluster-removes_nothing :
      (owner : Machine) (owner_cluster : Cluster)
      → Preserves (OnlyCalls removes_nothing) (with_cluster W owner owner_cluster)
  unfolding with_cluster fetch_cluster
  with_cluster-removes_nothing owner owner_cluster =
      search (machine_rules, connect-removes_nothing, waiting_removes_nothing) depth 40

  normal_removes_nothing :
      (owner : Machine) (owner_cluster : Cluster)
      → Preserves (OnlyCalls removes_nothing) (reconcile_normal W owner owner_cluster)
  unfolding reconcile_normal
  normal_removes_nothing owner owner_cluster =
      search (machine_rules, with_cluster-removes_nothing, bootstrap_name_removes_nothing) depth 40

  finalizer_removes_nothing :
      (added : Bool) (rest : T Return)
      → Preserves (OnlyCalls removes_nothing) rest
      → Preserves (OnlyCalls removes_nothing) (add_finalizer_or W added rest)
  unfolding add_finalizer_or
  finalizer_removes_nothing true rest h = search machine_rules
  finalizer_removes_nothing false rest h = Preserves-bind _ _ (search machine_rules) λ _. h

  pub patch_calls :
      (test : Call → Bool) (original : TenantMachine) (owner : Machine)
      → ((a b : TenantMachine) (owned : List String) → test (patch_machine a b owned) ≡ true)
      → Preserves (OnlyCalls test) (patch_tenant_machine W original owner)
  unfolding patch_tenant_machine
  patch_calls test original owner h = Preserves-bind _ _ (OnlyCalls-modify test _) λ _.
      Preserves-bind _ _ (Preserves-gets _)
        λ c. OnlyCalls-perform W test (patch_machine original c _) (h _ _ _)

-- What a reconciliation of this object may call.
abbrev pub allowed_calls : TenantMachine → Call → Bool
allowed_calls m =
    if not (is_zero m.metadata.deletion_timestamp) then creates_nothing else removes_nothing

deleting_calls :
    (W : World) (machine : TenantMachine) (deleting : Bool) (owner : Machine)
    (owner_cluster : Cluster)
    → Preserves (OnlyCalls (if deleting then creates_nothing else removes_nothing)) (
        if deleting
        then reconcile_delete W owner owner_cluster
        else add_finalizer_or W
            (W.add_finalizer tenant_machine_finalizer machine.metadata.finalizers).1
            (reconcile_normal W owner owner_cluster))
deleting_calls W machine true owner owner_cluster = deletion_creates_nothing W owner owner_cluster
deleting_calls W machine false owner owner_cluster =
    finalizer_removes_nothing W _ _ (normal_removes_nothing W owner owner_cluster)

allowed_calls-patch :
    (deleting : Bool) (a b : TenantMachine) (owned : List String)
    → (if deleting then creates_nothing else removes_nothing) (patch_machine a b owned) ≡ true
allowed_calls-patch true a b owned = refl
allowed_calls-patch false a b owned = refl

object_calls :
    (W : World) (owner : Machine) (owner_cluster : Cluster) (s : Session TenantMachine)
    → OnlyCalls (allowed_calls s.object) s
    → OnlyCalls (allowed_calls s.object) (reconcile_object W owner owner_cluster s).1
unfolding reconcile_object ◌>>=◌
object_calls W owner owner_cluster s h =
    (deleting_calls W s.object (not (is_zero s.object.metadata.deletion_timestamp)) owner
        owner_cluster).at
      s h

-- A reconciliation of a machine that is being deleted creates and starts nothing in Cloud
-- Director; of any other, it deletes and stops nothing. So all the calls are of the allowed
-- kind if those made before are; its patch and its client are included.
pub reconcile_machine_calls :
    (W : World) (machine : TenantMachine) (owner : Machine) (owner_cluster : Cluster) (t : Trace)
    → All (λ e. allowed_calls machine e.call ≡ true) t
    → All
        (λ e. allowed_calls machine e.call ≡ true)
        (reconcile_fetched W machine owner owner_cluster
          (record { object = machine; trace = t })).1.trace
unfolding reconcile_fetched defer
reconcile_machine_calls W machine owner owner_cluster t h =
    ((patch_calls W _ machine owner (allowed_calls-patch _)).at _ (
      object_calls W owner owner_cluster (record { object = machine; trace = t })
        (record { all = h }))).all
