-- ===== src/Machine/Made/Others.antt =====
-- The steps of the machine controller around the look-up and the addition of a virtual machine.
use cluster_api_provider_clo.Cluster.Made.{Once-KeptByClient}
use cluster_api_provider_clo.Machine.Object.{T}
use cluster_api_provider_clo.ClientCache.Rules.{Preserves-get_vcd_client}
use cluster_api_provider_clo.Machine.Reconcile.{
  add_finalizer_or, patch_tenant_machine, or_waiting, has_bootstrap,
}
use cluster_api_provider_clo.Machine.Provision.{
  bootstrap_data, customize, update_properties, configure,
}
use cluster_api_provider_clo.Machine.Delete.{
  remove_vm, remove_from_v_app, delete_from_cluster, fetch_cluster, reconcile_delete, delete_with,
}
use cluster_api_provider_clo.Machine.LoadBalancer.{
  leave_load_balancer, join_load_balancer, add_member,
}
use cluster_api_provider_clo.Base.{some, true, false, refl, Option, List, String, Bool, ℕ, none}
use cluster_api_provider_clo.World.Calls.{patch_machine}
use cluster_api_provider_clo.Flow.Rules.{Preserves, Preserves-bind, Preserves-gets}
use cluster_api_provider_clo.World.Types.{Named, Vm, Vdc}
use cluster_api_provider_clo.Api.{
  TenantCluster, TenantMachine, CloudDirectorReference, Machine, Cluster,
}
use cluster_api_provider_clo.Machine.Vm.{update_spec_section, power_on}
use cluster_api_provider_clo.World.{World}
use cluster_api_provider_clo.Machine.Kinds.{machine_rules}
use cluster_api_provider_clo.Flow.{Return}
use cluster_api_provider_clo.Inventory.Rules.{
  Once, Once-perform, Once-modify, Awaits-perform, Awaits-modify, Makes, Makes-bind, Makes-perform,
  Makes-then,
}

pub ruleset once_rules = (machine_rules, Once-perform, Once-modify)

module _ (W : World) where
  pub Once-leave_load_balancer :
      (cluster : TenantCluster) (vdc : Vdc) → Preserves Once (leave_load_balancer W cluster vdc)
  unfolding leave_load_balancer
  Once-leave_load_balancer cluster vdc = search once_rules depth 30

  pub Once-remove_vm : (v_app : Named) → Preserves Once (remove_vm W v_app)
  unfolding remove_vm
  Once-remove_vm v_app = search once_rules depth 30

  pub Once-remove_from_v_app :
      (r : Option CloudDirectorReference) (vdc : Vdc) → Preserves Once (remove_from_v_app W r vdc)
  unfolding remove_from_v_app
  Once-remove_from_v_app none vdc = search once_rules depth 30
  Once-remove_from_v_app (some ref) vdc = search (once_rules, Once-remove_vm) depth 30

  pub Once-delete_from_cluster :
      (owner : Machine) (cluster : TenantCluster)
      → Preserves Once (delete_from_cluster W owner cluster)
  unfolding delete_from_cluster
  Once-delete_from_cluster owner cluster =
      search
        (
          once_rules,
          Once-leave_load_balancer,
          Once-remove_from_v_app,
          Preserves-get_vcd_client W (Once-KeptByClient W),
        )
        depth 40

  pub Once-fetch_cluster :
      (owner_cluster : Cluster) (name : String)
      → Preserves Once (fetch_cluster W owner_cluster name)
  unfolding fetch_cluster
  Once-fetch_cluster owner_cluster name = search once_rules depth 30

  pub Once-reconcile_delete :
      (owner : Machine) (owner_cluster : Cluster)
      → Preserves Once (reconcile_delete W owner owner_cluster)
  unfolding reconcile_delete
  Once-reconcile_delete owner owner_cluster = go owner_cluster.infrastructure_ref
    where
      go : (r : Option String) → Preserves Once (delete_with W owner owner_cluster r)
      go none = search once_rules depth 30
      go (some name) = search (once_rules, Once-fetch_cluster, Once-delete_from_cluster) depth 30

module _ (W : World) where
  pub Once-update_spec_section :
      (machine : TenantMachine) (vm : Vm) → Preserves Once (update_spec_section W machine vm)
  unfolding update_spec_section
  Once-update_spec_section machine vm = search once_rules depth 30

  pub Once-power_on : (vm : Vm) → Preserves Once (power_on W vm)
  unfolding power_on
  Once-power_on vm = search once_rules depth 30

  pub Once-bootstrap_data : (owner : Machine) → Preserves Once (bootstrap_data W owner)
  unfolding bootstrap_data
  Once-bootstrap_data owner = search once_rules depth 30

  pub Once-customize : (vm : Vm) → Preserves Once (customize W vm)
  unfolding customize
  Once-customize vm = search once_rules depth 30

  pub Once-update_properties :
      (vm : Vm) (value : List ℕ) (text : String)
      → Preserves Once (update_properties W vm value text)
  unfolding update_properties
  Once-update_properties vm value text = search once_rules depth 30

  pub Once-configure :
      (cluster : TenantCluster) (owner : Machine) (v_app : Named) (vm : Vm)
      → Preserves Once (configure W cluster owner v_app vm)
  unfolding configure
  Once-configure cluster owner v_app vm =
      search
        (
          once_rules, Once-bootstrap_data, Once-customize, Once-update_properties,
          Once-update_spec_section, Once-power_on,
        )
        depth 40

  pub Once-join_load_balancer :
      (cluster : TenantCluster) (vdc : Vdc) → Preserves Once (join_load_balancer W cluster vdc)
  unfolding join_load_balancer add_member
  Once-join_load_balancer cluster vdc = search once_rules depth 40

  pub Once-or_waiting : {A : Type 0} (o : Option A) → Preserves Once (or_waiting W o)
  Once-or_waiting none = search once_rules depth 12
  Once-or_waiting (some a) = search once_rules depth 12

  pub Once-has_bootstrap : (o : Option String) → Preserves Once (has_bootstrap W o)
  Once-has_bootstrap none = search once_rules depth 12
  Once-has_bootstrap (some a) = search once_rules depth 12

  pub Once-add_finalizer_or :
      (added : Bool) (rest : T Return)
      → Preserves Once rest
      → Preserves Once (add_finalizer_or W added rest)
  unfolding add_finalizer_or
  Once-add_finalizer_or true rest h = search once_rules
  Once-add_finalizer_or false rest h = Preserves-bind _ _ (search once_rules) λ _. h

  pub Once-patch_tenant_machine :
      (original : TenantMachine) (owner : Machine)
      → Preserves Once (patch_tenant_machine W original owner)
  unfolding patch_tenant_machine
  Once-patch_tenant_machine original owner = Preserves-bind _ _ (Once-modify _) λ _.
      Preserves-bind _ _ (Preserves-gets _) λ c. Once-perform W (patch_machine original c _) refl
