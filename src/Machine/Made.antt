-- ===== src/Machine/Made.antt =====
-- What the machine controller makes.
mod Others
use cluster_api_provider_clo.Cluster.Made.{Once-KeptByClient}
use cluster_api_provider_clo.Machine.Object.{T}
use cluster_api_provider_clo.ClientCache.Rules.{Preserves-get_vcd_client}
use cluster_api_provider_clo.Machine.Reconcile.{
  add_finalizer_or, patch_tenant_machine, reconcile_vm, connect, with_cluster, reconcile_normal,
  reconcile_object, reconcile_fetched, reconcile, or_waiting, has_bootstrap,
}
use cluster_api_provider_clo.Machine.Provision.{
  bootstrap_data, customize, update_properties, configure, provision,
}
use cluster_api_provider_clo.Machine.Delete.{
  remove_vm, remove_from_v_app, delete_from_cluster, fetch_cluster, reconcile_delete, delete_with,
}
use cluster_api_provider_clo.Machine.LoadBalancer.{
  leave_load_balancer, join_load_balancer, add_member,
}
use cluster_api_provider_clo.Vcdutil.{found_or_create}
use cluster_api_provider_clo.Base.{some, true, false, refl, Option, List, String, Bool, ℕ, none}
use cluster_api_provider_clo.World.Calls.{
  get_vm_by_name, add_new_vm, get_tenant_machine, patch_machine, get_owner_machine,
  get_cluster_from_metadata, new_machine_patch_helper,
}
use cluster_api_provider_clo.Flow.Rules.{
  Preserves, Preserves-pure, Preserves-deref, Preserves-bind, Preserves-defer, Preserves-gets,
  Preserves-if, Preserves-or_else, Preserves-or_done,
}
use cluster_api_provider_clo.World.Types.{Named, Vm, Vdc, ObjectKey, Org}
use cluster_api_provider_clo.Api.{
  TenantCluster, TenantMachine, CloudDirectorReference, Machine, Cluster,
}
use cluster_api_provider_clo.Machine.Vm.{
  add_named, ensure_vm, add_vm, update_spec_section, power_on,
}
use cluster_api_provider_clo.Inventory.{Remembers}
use cluster_api_provider_clo.World.{World}
use cluster_api_provider_clo.Machine.Kinds.{machine_rules}
use cluster_api_provider_clo.Flow.{◌>>=◌, pure, deref, Return}
use cluster_api_provider_clo.Inventory
use cluster_api_provider_clo.Inventory.Rules.{
  Once, Once-perform, Once-modify, Awaits-perform, Awaits-modify, Makes, Makes-bind, Makes-perform,
  Makes-then,
}
use cluster_api_provider_clo.Inventory.Seek.{Once-seek_at}
use cluster_api_provider_clo.Machine.Made.Others.{
  once_rules, Once-leave_load_balancer, Once-remove_vm, Once-remove_from_v_app,
  Once-delete_from_cluster, Once-fetch_cluster, Once-reconcile_delete, Once-update_spec_section,
  Once-power_on, Once-bootstrap_data, Once-customize, Once-update_properties, Once-configure,
  Once-join_load_balancer, Once-or_waiting, Once-has_bootstrap, Once-add_finalizer_or,
  Once-patch_tenant_machine,
}

ruleset awaits_rules = (machine_rules, Awaits-perform, Awaits-modify)

module _ (W : World) (remembers : Remembers W) where
  Makes-add_named :
      (cluster : TenantCluster) (v_app catalog : Named) (machine : TenantMachine)
      → Makes (Inventory.vm v_app machine.metadata.name) (add_named W cluster v_app catalog machine)
  unfolding add_named
  Makes-add_named cluster v_app catalog machine = Makes-bind _ _ _ (search awaits_rules) λ found.
      Makes-bind _ _ _ (search awaits_rules) λ template.
        Makes-perform W _ (add_new_vm v_app machine.metadata.name template _ false) _ refl
          λ a. search once_rules depth 30

  Makes-added :
      (cluster : TenantCluster) (v_app catalog : Named) (machine : TenantMachine)
      → Makes (Inventory.vm v_app machine.metadata.name) (do
        found ← (do vm ← add_named W cluster v_app catalog machine; pure (some vm))
        deref found)
  Makes-added cluster v_app catalog machine =
      Makes-then _ _ _
        (Makes-then _ _ _ (Makes-add_named cluster v_app catalog machine)
          λ vm. Preserves-pure (some vm))
        λ found. Preserves-deref found

  Once-ensure_vm :
      (cluster : TenantCluster) (v_app catalog : Named)
      → Preserves Once (ensure_vm W cluster v_app catalog)
  unfolding ensure_vm ◌>>=◌ add_vm
  Once-ensure_vm cluster v_app catalog = record {
    at = λ s.
        Once-seek_at W (Inventory.vm v_app s.object.metadata.name)
          (get_vm_by_name v_app s.object.metadata.name true)
          (λ a. found_or_create W a (add_vm W cluster v_app catalog) >>= deref) s remembers refl
          refl (λ v o. o) (λ e h a. rw (h) ((Makes-added cluster v_app catalog s.object).at _ a))
          (λ e h o. rw (h) o);
  }

module _ (W : World) (remembers : Remembers W) where
  Once-provision :
      (cluster : TenantCluster) (owner : Machine) (org : Org) (v_app : Named)
      → Preserves Once (provision W cluster owner org v_app)
  unfolding provision
  Once-provision cluster owner org v_app =
      search (once_rules, Once-ensure_vm W remembers, Once-configure W) depth 40

  Once-reconcile_vm :
      (cluster : TenantCluster) (owner : Machine) (org : Org) (vdc : Vdc) (v_app : Named)
      → Preserves Once (reconcile_vm W cluster owner org vdc v_app)
  unfolding reconcile_vm
  Once-reconcile_vm cluster owner org vdc v_app =
      search (once_rules, Once-provision, Once-join_load_balancer W) depth 40

  Once-connect :
      (owner : Machine) (cluster : TenantCluster) → Preserves Once (connect W owner cluster)
  unfolding connect
  Once-connect owner cluster =
      search (once_rules, Once-reconcile_vm, Preserves-get_vcd_client W (Once-KeptByClient W)) depth
        40

  Once-with_cluster :
      (owner : Machine) (owner_cluster : Cluster)
      → Preserves Once (with_cluster W owner owner_cluster)
  unfolding with_cluster fetch_cluster
  Once-with_cluster owner owner_cluster =
      search (once_rules, Once-connect, Once-or_waiting W) depth 40

  Once-reconcile_normal :
      (owner : Machine) (owner_cluster : Cluster)
      → Preserves Once (reconcile_normal W owner owner_cluster)
  unfolding reconcile_normal
  Once-reconcile_normal owner owner_cluster =
      search (once_rules, Once-with_cluster, Once-has_bootstrap W) depth 40

  Once-reconcile_object :
      (owner : Machine) (owner_cluster : Cluster)
      → Preserves Once (reconcile_object W owner owner_cluster)
  unfolding reconcile_object
  Once-reconcile_object owner owner_cluster = Preserves-bind _ _ (Preserves-gets _) λ machine.
      Preserves-if _ _ _ (Once-reconcile_delete W owner owner_cluster)
        (Once-add_finalizer_or W _ _ (Once-reconcile_normal owner owner_cluster))

  Once-reconcile_fetched :
      (original : TenantMachine) (owner : Machine) (owner_cluster : Cluster)
      → Preserves Once (reconcile_fetched W original owner owner_cluster)
  unfolding reconcile_fetched
  Once-reconcile_fetched original owner owner_cluster =
      Preserves-defer W _ _ (Once-patch_tenant_machine W original owner)
        (Once-reconcile_object owner owner_cluster)

  -- The handler of a request.
  pub Once-reconcile : (key : ObjectKey) → Preserves Once (reconcile W key)
  unfolding reconcile
  Once-reconcile key = Preserves-bind _ _ (Once-perform W (get_tenant_machine key) refl) λ a.
      Preserves-bind _ _ (Preserves-or_else a _ λ e. search once_rules) λ machine.
        Preserves-bind _ _ (Once-perform W (get_owner_machine machine.metadata) refl) λ b.
          Preserves-bind _ _ (Preserves-or_else b _ λ e. search once_rules) λ maybe_owner.
            Preserves-bind _ _ (Preserves-or_done maybe_owner) λ owner.
              Preserves-bind _ _ (Once-perform W (get_cluster_from_metadata owner) refl) λ c.
                Preserves-bind _ _ (Preserves-or_else c _ λ e. search once_rules) λ owner_cluster.
                  Preserves-bind _ _ (Once-perform W (new_machine_patch_helper machine) refl) λ d.
                    Preserves-bind _ _ (Preserves-or_else d _ λ e. search once_rules) λ _. record {
                      at = λ s o. record {
                        once =
                            ((Once-reconcile_fetched machine owner owner_cluster).at
                              (record { object = machine; trace = s.trace })
                              (record { once = o.once })).once;
                      };
                    }
