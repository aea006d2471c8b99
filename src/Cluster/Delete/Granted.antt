-- ===== src/Cluster/Delete/Granted.antt =====
-- `reconcileDelete` of the cluster controller in a world that grants what it asks for.
use cluster_api_provider_clo.Cluster.Object.{without_finalizer}
use cluster_api_provider_clo.Flow.Triples.{Post}
use cluster_api_provider_clo.ClientCache.Reachable.{IsReachable, Steady-connected}
use cluster_api_provider_clo.Flow.Steady.{
  Steady, Steady-bind, Steady-if, IsOk, Steady-gets, Steady-pure, Steady-when_some, IsFound,
  Steady-or_else, Goes, Steady-when_some_in, Goes-modify, Goes-pure, Steady-bind_to,
}
use cluster_api_provider_clo.Flow.Steady.Calls.{
  Steady-ask, Steady-find, Steady-perform, Steady-find_in, Steady-told,
}
use cluster_api_provider_clo.World.Calls.{
  get_filtered_machines_for_cluster, get_org_by_name, undeploy_v_app, get_virtual_service_by_id,
  get_alb_pool_by_id, get_vdc_by_name, delete_virtual_service, delete_alb_pool,
  wait_task_completion, get_firewall_group_by_id, delete_firewall_group, get_v_app_by_id,
  get_v_app_status, delete_v_app,
}
use cluster_api_provider_clo.World.Types.{Named, VcdClient, ok, Org, Vdc, FirewallGroup, Task}
use cluster_api_provider_clo.Api.{TenantCluster, Cluster}
use cluster_api_provider_clo.Base.{List, String, ◌≡◌, [], ◌∷◌, arith, Bool, false, ap, refl, some}
use cluster_api_provider_clo.World.{World, Trace}
use cluster_api_provider_clo.Flow.{fail, Flow, Session, Return, done, next, ret, crash}
use cluster_api_provider_clo.Cluster.Delete.{
  undeploy, remove_virtual_service, remove_alb_pool, no_addresses, remove_firewall_group,
  remove_v_app, remove_parts, reconcile_delete,
}

-- Requests are granted, no machine is left, and the firewall group is empty where it is found.
pub record Releases (W : World) : Type 0 where
  pub machines :
      (owner : Cluster) (t : Trace) → W.answer t (get_filtered_machines_for_cluster owner) ≡ ok []
  pub org :
      (client : VcdClient) (name : String) (t : Trace)
      → IsOk (W.answer t (get_org_by_name client name))
  pub vdc :
      (org : Org) (name : String) (refresh : Bool) (t : Trace)
      → IsOk (W.answer t (get_vdc_by_name org name refresh))
  pub service :
      (client : VcdClient) (id : String) (t : Trace)
      → IsFound W (W.answer t (get_virtual_service_by_id client id))
  pub service_deleted :
      (service : Named) (t : Trace) → IsOk (W.answer t (delete_virtual_service service))
  pub pool :
      (client : VcdClient) (id : String) (t : Trace)
      → IsFound W (W.answer t (get_alb_pool_by_id client id))
  pub pool_deleted : (pool : Named) (t : Trace) → IsOk (W.answer t (delete_alb_pool pool))
  pub group :
      (vdc : Vdc) (id : String) (t : Trace)
      → IsFound W (W.answer t (get_firewall_group_by_id vdc id))
  pub group_empty :
      (vdc : Vdc) (id : String) (group : FirewallGroup) (t : Trace)
      → W.answer t (get_firewall_group_by_id vdc id) ≡ ok group
      → group.ip_addresses ≡ []
  pub group_deleted :
      (group : FirewallGroup) (t : Trace) → IsOk (W.answer t (delete_firewall_group group))
  pub v_app :
      (vdc : Vdc) (id : String) (refresh : Bool) (t : Trace)
      → IsFound W (W.answer t (get_v_app_by_id vdc id refresh))
  pub status : (v_app : Named) (t : Trace) → IsOk (W.answer t (get_v_app_status v_app))
  pub undeployed : (v_app : Named) (t : Trace) → IsOk (W.answer t (undeploy_v_app v_app))
  pub v_app_deleted : (v_app : Named) (t : Trace) → IsOk (W.answer t (delete_v_app v_app))
  pub waited : (task : Task) (t : Trace) → IsOk (W.answer t (wait_task_completion task))

module _ (W : World) (rel : Releases W) {c : TenantCluster} where
  Steady-remove_virtual_service :
      (client : VcdClient) → Steady c (remove_virtual_service W client) (λ _. Unit)
  unfolding remove_virtual_service
  Steady-remove_virtual_service client = Steady-bind _ _ _ (Steady-gets _) λ recorded _.
      Steady-when_some recorded _ λ ref.
        Steady-bind _ _ _
          (Steady-find W (get_virtual_service_by_id client ref.id) fail (rel.service client ref.id))
          λ found _. Steady-when_some found _ λ service.
            Steady-bind _ _ _
              (Steady-perform W (delete_virtual_service service) IsOk (rel.service_deleted service))
              λ a o. Steady-or_else a fail o

  Steady-remove_alb_pool : (client : VcdClient) → Steady c (remove_alb_pool W client) (λ _. Unit)
  unfolding remove_alb_pool
  Steady-remove_alb_pool client = Steady-bind _ _ _ (Steady-gets _) λ recorded _.
      Steady-when_some recorded _ λ ref.
        Steady-bind _ _ _
          (Steady-find W (get_alb_pool_by_id client ref.id) fail (rel.pool client ref.id))
          λ found _. Steady-when_some found _ λ pool.
            Steady-bind _ _ _ (Steady-perform W (delete_alb_pool pool) IsOk (rel.pool_deleted pool))
              λ a o. Steady-or_else a fail o

  Steady-no_addresses :
      (addresses : List String) → addresses ≡ [] → Steady c (no_addresses addresses) (λ _. Unit)
  Steady-no_addresses [] h = Steady-pure tt tt
  Steady-no_addresses (a ∷ rest) h = absurd (some_address h)
    where
      some_address : a ∷ rest ≡ [] → ⊥
      some_address e = ground arith

  Steady-undeploy :
      (v_app : Named) (status : String) → Steady c (undeploy W v_app status) (λ _. Unit)
  unfolding undeploy
  Steady-undeploy v_app status = Steady-if _ _ _ (Steady-pure tt tt) (
      Steady-ask W (undeploy_v_app v_app) fail _ (rel.undeployed v_app) λ task.
        Steady-bind _ _ _ (Steady-perform W (wait_task_completion task) IsOk (rel.waited task))
          λ a o. Steady-or_else a fail o)

  Steady-remove_firewall_group : (vdc : Vdc) → Steady c (remove_firewall_group W vdc) (λ _. Unit)
  unfolding remove_firewall_group
  Steady-remove_firewall_group vdc = Steady-bind _ _ _ (Steady-gets _) λ recorded _.
      Steady-when_some recorded _ λ ref.
        Steady-bind _ _ _
          (Steady-find_in W (get_firewall_group_by_id vdc ref.id) fail
            (λ group. group.ip_addresses ≡ []) (rel.group vdc ref.id)
            (λ t group. rel.group_empty vdc ref.id group t))
          λ found empty. Steady-when_some_in found _ λ group e.
            Steady-bind _ _ _ (Steady-no_addresses group.ip_addresses (empty group e)) λ _ _.
              Steady-bind _ _ _
                (Steady-perform W (delete_firewall_group group) IsOk (rel.group_deleted group))
                λ a o. Steady-or_else a fail o

  Steady-remove_v_app : (vdc : Vdc) → Steady c (remove_v_app W vdc) (λ _. Unit)
  unfolding remove_v_app
  Steady-remove_v_app vdc = Steady-bind _ _ _ (Steady-gets _) λ recorded _.
      Steady-when_some recorded _ λ ref.
        Steady-bind _ _ _
          (Steady-find W (get_v_app_by_id vdc ref.id false) fail (rel.v_app vdc ref.id false))
          λ found _. Steady-when_some found _ λ v_app.
            Steady-ask W (get_v_app_status v_app) fail _ (rel.status v_app) λ status.
              Steady-bind _ _ _ (Steady-undeploy v_app status) λ _ _.
                Steady-ask W (delete_v_app v_app) fail _ (rel.v_app_deleted v_app) λ task.
                  Steady-bind _ _ _
                    (Steady-perform W (wait_task_completion task) IsOk (rel.waited task))
                    λ a o. Steady-or_else a fail o

  removed :
      (client : VcdClient) (vdc : Vdc)
      → Goes c (remove_parts W client vdc) (λ r d. (r ≡ done) × (d ≡ without_finalizer W c))
  unfolding remove_parts
  removed client vdc = Steady-bind _ _ _ (Steady-remove_virtual_service client) λ _ _.
      Steady-bind _ _ _ (Steady-remove_alb_pool client) λ _ _.
        Steady-bind _ _ _ (Steady-remove_firewall_group vdc) λ _ _.
          Steady-bind _ _ _ (Steady-remove_v_app vdc)
            λ _ _. Goes-modify _ _ (Goes-pure _ _ (refl, refl))

  deleted :
      (owner : Cluster)
      → IsReachable W c
      → Goes c (reconcile_delete W (some owner)) (λ r d. (r ≡ done) × (d ≡ without_finalizer W c))
  unfolding reconcile_delete
  deleted owner r = Steady-bind_to _ _ owner (Steady-pure owner refl) (
      Steady-told W (get_filtered_machines_for_cluster owner) _ _ (rel.machines owner) (
        Steady-bind_to _ _ [] (Steady-pure _ refl) (
          Steady-bind (λ _. Unit {0}) _ _ (Steady-pure tt tt)
            λ _ _. Steady-bind_to _ _ c (Steady-gets _) (
              Steady-connected W c fail _ r λ client.
                Steady-ask W (get_org_by_name client _) fail _ (rel.org client _) λ org.
                  Steady-ask W (get_vdc_by_name org _ false) fail _ (rel.vdc org _ false)
                    λ vdc. removed client vdc))))

  Post-finalizer :
      (f : Flow Return) (s : Session TenantCluster)
      → Post (λ r t. (r ≡ done) × (t.object ≡ without_finalizer W c)) (λ _. ⊥) f s
      → (f ≡ next done) × (s.object ≡ without_finalizer W c)
  Post-finalizer (next r) s h = (ap next h.0, h.1)
  Post-finalizer (ret r) s h = absurd h
  Post-finalizer crash s h = absurd h

-- When the owner is known, no machine is left, the client can be had, the recorded firewall group is empty and every
-- removal is granted, one run of the deletion goes through and takes the finalizer off.
pub reconcile_delete_ends :
    (W : World) (owner : Cluster) (s : Session TenantCluster)
    → Releases W
    → IsReachable W s.object
    → ((reconcile_delete W (some owner) s).0 ≡ next done)
      × ((reconcile_delete W (some owner) s).1.object ≡ without_finalizer W s.object)
reconcile_delete_ends W owner s rel r =
    Post-finalizer W rel {c = s.object} _ _ ((deleted W rel owner r).at s refl)
