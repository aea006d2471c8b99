-- ===== src/Machine/Delete/Granted.antt =====
-- `reconcileDelete` of the machine controller in a world that grants what it asks for.
use cluster_api_provider_clo.World.Calls.{
  get_tenant_cluster, get_v_app_by_id, get_org_by_name, get_vm_by_name, get_vdc_by_name,
  get_firewall_group_by_id, update_firewall_group, delete_vm,
}
use cluster_api_provider_clo.Flow.Steady.Calls.{
  Steady-ask, Steady-find, Steady-told, Steady-perform,
}
use cluster_api_provider_clo.ClientCache.Reachable.{Steady-connected, IsReachable}
use cluster_api_provider_clo.World.Types.{Vdc, Named, ok, VcdClient, Org, FirewallGroup, Vm}
use cluster_api_provider_clo.Flow.Steady.{
  Goes-modify, Goes, Steady, Steady-bind, Goes-pure, Steady-gets, Steady-bind_to, Steady-if,
  Steady-pure, Steady-deref, Steady-when_some, IsOk, Steady-or_else, IsFound, Goes-run,
}
use cluster_api_provider_clo.Machine.LoadBalancer.{leave_load_balancer}
use cluster_api_provider_clo.Machine.Object.{T, without_finalizer}
use cluster_api_provider_clo.Base.{String, ◌≡◌, some, Option, true, ap, Bool, none, refl, ◌∙◌}
use cluster_api_provider_clo.Api.{
  Cluster, Machine, TenantMachine, TenantCluster, CloudDirectorReference,
}
use cluster_api_provider_clo.Machine.Delete.{
  reconcile_delete, drop_finalizer, remove_vm, remove_from_v_app, delete_from_cluster,
  fetch_cluster, delete_with,
}
use cluster_api_provider_clo.World.{World, Trace}
use mathlib.Core.Option.{some-injective}
use cluster_api_provider_clo.Flow.{Session, Return, next, fail, done, retry}
use cluster_api_provider_clo.Machine.Provision.{retry_soon}

-- The cluster is there, with its firewall group, and requests are granted; the virtual machine is
-- found or is gone.
pub record Frees (W : World) (owner_cluster : Cluster) : Type 0 where
  pub name : String
  pub named : owner_cluster.infrastructure_ref ≡ some name
  pub cluster : TenantCluster
  pub fetched :
      (t : Trace)
      → W.answer t
          (get_tenant_cluster (record { name = name; namespace = owner_cluster.namespace }))
        ≡ ok cluster
  pub reachable : IsReachable W cluster
  pub org :
      (client : VcdClient) (name : String) (t : Trace)
      → IsOk (W.answer t (get_org_by_name client name))
  pub vdc :
      (org : Org) (name : String) (refresh : Bool) (t : Trace)
      → IsOk (W.answer t (get_vdc_by_name org name refresh))
  pub members : CloudDirectorReference
  pub recorded : cluster.status.ip_set ≡ some members
  pub group :
      (vdc : Vdc) (id : String) (t : Trace) → IsOk (W.answer t (get_firewall_group_by_id vdc id))
  pub updated :
      (group : FirewallGroup) (t : Trace) → IsOk (W.answer t (update_firewall_group group))
  pub v_app :
      (vdc : Vdc) (id : String) (refresh : Bool) (t : Trace)
      → IsOk (W.answer t (get_v_app_by_id vdc id refresh))
  pub vm :
      (v_app : Named) (name : String) (refresh : Bool) (t : Trace)
      → IsFound W (W.answer t (get_vm_by_name v_app name refresh))
  pub deleted : (vm : Vm) (t : Trace) → IsOk (W.answer t (delete_vm vm))

module _ (W : World) (owner_cluster : Cluster) (frees : Frees W owner_cluster)
    (c : TenantMachine) where
  Drops : T Return → Type 0
  Drops m = Goes c m (λ r d. (r ≡ done) × (d ≡ without_finalizer W c))

  Goes-drop_finalizer : Drops (drop_finalizer W)
  unfolding Drops
  Goes-drop_finalizer = Goes-modify (without_finalizer W) _ (Goes-pure _ done (refl, refl))

  Steady-leave_load_balancer :
      (vdc : Vdc) → Steady c (leave_load_balancer W frees.cluster vdc) (λ _. Unit)
  unfolding leave_load_balancer
  Steady-leave_load_balancer vdc = Steady-bind _ _ _ (Steady-gets _) λ address _.
      Steady-if _ _ _ (Steady-pure tt tt) (
        Steady-bind_to _ _ frees.members (Steady-deref _ _ frees.recorded) (
          Steady-ask W (get_firewall_group_by_id vdc frees.members.id) retry_soon _
            (frees.group vdc frees.members.id)
            λ group.
              Steady-bind _ _ _ (Steady-perform W (update_firewall_group _) IsOk (frees.updated _))
                λ a o. Steady-bind _ _ _ (Steady-or_else a retry_soon o) λ _ _. Steady-pure tt tt))

  Goes-remove_vm : (v_app : Named) → Drops (remove_vm W v_app)
  unfolding remove_vm Drops
  Goes-remove_vm v_app = Steady-bind _ _ _ (Steady-gets _) λ name _.
      Steady-bind _ _ _
        (Steady-find W (get_vm_by_name v_app name true) retry (frees.vm v_app name true))
        λ found _.
          Steady-bind _ _ _
            (Steady-when_some found _ λ vm.
              Steady-bind _ _ _ (Steady-perform W (delete_vm vm) IsOk (frees.deleted vm))
                λ a o. Steady-or_else a retry o)
            λ _ _. Goes-drop_finalizer

  Goes-remove_from_v_app :
      (ref : Option CloudDirectorReference) (vdc : Vdc) → Drops (remove_from_v_app W ref vdc)
  unfolding remove_from_v_app Drops
  Goes-remove_from_v_app none vdc = Goes-drop_finalizer
  Goes-remove_from_v_app (some ref) vdc =
      Steady-ask W (get_v_app_by_id vdc ref.id true) retry _ (frees.v_app vdc ref.id true)
        Goes-remove_vm

  Goes-delete_from_cluster : (owner : Machine) → Drops (delete_from_cluster W owner frees.cluster)
  unfolding delete_from_cluster Drops
  Goes-delete_from_cluster owner = Steady-connected W frees.cluster fail _ frees.reachable λ client.
      Steady-ask W (get_org_by_name client _) retry _ (frees.org client _) λ org.
        Steady-ask W (get_vdc_by_name org _ true) retry _ (frees.vdc org _ true) λ vdc.
          Steady-bind _ _ _ (Steady-if _ _ _ (Steady-leave_load_balancer vdc) (Steady-pure tt tt))
            λ _ _. Goes-remove_from_v_app frees.cluster.status.v_app vdc

  Goes-delete_with :
      (owner : Machine) (ref : Option String)
      → ref ≡ some frees.name
      → Drops (delete_with W owner owner_cluster ref)
  unfolding Drops fetch_cluster
  Goes-delete_with owner none e = Goes-drop_finalizer
  Goes-delete_with owner (some name) e =
      Steady-bind_to _ _ frees.cluster
        (Steady-told W
          (get_tenant_cluster (record { name = name; namespace = owner_cluster.namespace }))
          (ok frees.cluster) _ (λ t. rw (some-injective name frees.name e) (frees.fetched t))
          (Steady-pure _ refl))
        (Goes-delete_from_cluster owner)

-- When the cluster with its firewall group is there, the client can be had and every removal is
-- granted, one run of the deletion of a machine goes through and takes the finalizer off, and
-- changes nothing else of the object.
pub reconcile_delete_drops :
    (W : World) (owner : Machine) (owner_cluster : Cluster) (s : Session TenantMachine)
    → Frees W owner_cluster
    → ((reconcile_delete W owner owner_cluster s).0 ≡ next done)
      × ((reconcile_delete W owner owner_cluster s).1.object ≡ without_finalizer W s.object)
unfolding reconcile_delete Drops
reconcile_delete_drops W owner owner_cluster s frees =
    let (r, e, (h, q)) =
      Goes-run (reconcile_delete W owner owner_cluster) s
        (Goes-delete_with W owner_cluster frees s.object owner _ frees.named) in
    (e ∙ ap next h, q)
