-- ===== src/Cluster/Progress/Normal.antt =====
-- What a run makes of a cluster that has its finalizer.
use cluster_api_provider_clo.Api.Conditions.{external_ip_address_ready}
use cluster_api_provider_clo.World.Calls.{
  get_unused_external_ip_addresses, get_org_by_name, get_vdc_by_name, get_edge_gateway,
}
use cluster_api_provider_clo.Cluster.Parts.Granted.{
  Steady-ensure_firewall_group, Steady-ensure_alb_pool, Steady-ensure_virtual_service,
  Steady-ensure_v_app,
}
use cluster_api_provider_clo.Flow.Steady.{
  Goes, Steady-bind, Goes-modify, Goes-weaken, Steady-bind_to, Steady-pure, Goes-pure,
  Steady-or_done, not_ok, Steady-gets, IsOk,
}
use cluster_api_provider_clo.Flow.Steady.Calls.{Steady-told, Steady-ask}
use cluster_api_provider_clo.Cluster.Object.{with_true}
use cluster_api_provider_clo.World.Types.{
  Named, VcdClient, Vdc, FirewallGroup, Answer, ok, err, error_of,
}
use cluster_api_provider_clo.ClientCache.Reachable.{IsReachable, Steady-connected}
use cluster_api_provider_clo.Cluster.Reconcile.{
  record_parts, ensure_parts, allocate_endpoint, with_endpoint, reconcile_normal,
}
use cluster_api_provider_clo.Cluster.Cooperation.{Cooperates}
use cluster_api_provider_clo.Base.{
  if◌then◌else◌, ◌≡◌, true, ◌∙◌, Option, false, ◌≢◌, str_eq, none, some, ap, refl, Bool, arith, sym,
  ◌∷◌,
}
use cluster_api_provider_clo.Api.{TenantCluster, TenantClusterSpec}
use cluster_api_provider_clo.World.{World}
use cluster_api_provider_clo.Flow.{◌>>=◌, Return, retry}

pub error_of-IsOk : {A : Type 0} (a : Answer A) → IsOk a → error_of a ≡ none
error_of-IsOk (ok x) h = refl
error_of-IsOk (err e) h = absurd (not_ok e h)

module _ (W : World) (coop : Cooperates W) where
  -- Status and finalizers may differ.
  pub same_identity :
      (c d : TenantCluster)
      → d.spec.identity_ref ≡ c.spec.identity_ref
      → d.metadata.namespace ≡ c.metadata.namespace
      → IsReachable W c
      → IsReachable W d
  same_identity c d e f r = record {
    identity = r.identity;
    identity_ref = e ∙ r.identity_ref;
    secret = r.secret;
    read = λ t. rw f (r.read t);
    credentials = r.credentials;
    complete = r.complete;
    token = r.token;
    login = r.login;
    expiration = r.expiration;
    dated = r.dated;
  }

  recorded_ready :
      (c : TenantCluster) (v_app service : Named) (pool : Option Named)
      (group : Option FirewallGroup)
      → pool ≢ none
      → group ≢ none
      → Goes c
          (record_parts W v_app service pool group)
          (λ r d. (d.metadata ≡ c.metadata) × (d.spec ≡ c.spec) × (d.status.ready ≡ true))
  unfolding record_parts ◌>>=◌
  recorded_ready c v_app service none group h k = absurd (h refl)
  recorded_ready c v_app service (some pool) none h k = absurd (k refl)
  recorded_ready c v_app service (some pool) (some group) h k = record {
    at = λ s e.
        (ap (λ (o : TenantCluster). o.metadata) e, ap (λ (o : TenantCluster). o.spec) e, refl);
  }

  ensured :
      (c : TenantCluster) (client : VcdClient) (vdc : Vdc) (gateway : Named)
      → Goes c
          (ensure_parts W client vdc gateway)
          (λ r d. (d.metadata ≡ c.metadata) × (d.spec ≡ c.spec) × (d.status.ready ≡ true))
  unfolding ensure_parts
  ensured c client vdc gateway =
      Steady-bind _ _ _ (Steady-ensure_firewall_group W coop vdc gateway) λ group g.
        Steady-bind _ _ _ (Steady-ensure_alb_pool W coop client gateway group g) λ pool p.
          Steady-bind _ _ _ (Steady-ensure_virtual_service W coop client gateway pool p)
            λ service _.
              Steady-bind _ _ _ (Steady-ensure_v_app W coop vdc)
                λ v_app _. recorded_ready c v_app service pool group p g

  allocated :
      (c : TenantCluster) (gateway : Named)
      → Goes c (allocate_endpoint W gateway) (λ r d.
        (d.metadata ≡ c.metadata)
        × (d.spec.identity_ref ≡ c.spec.identity_ref)
        × (str_eq d.spec.control_plane_endpoint.host "" ≡ false))
  unfolding allocate_endpoint
  allocated c gateway =
      Steady-told W (get_unused_external_ip_addresses gateway 1) _ _ (coop.addresses gateway) (
        Steady-bind_to _ _ (coop.address ∷ coop.other_addresses) (Steady-pure _ refl) (
          Steady-bind_to _ _ coop.address (Steady-pure _ refl)
            (Goes-modify _ _ (Goes-pure _ _ (refl, refl, coop.present)))))

  -- What a run makes of a cluster that has its finalizer.
  abbrev pub Advanced : TenantCluster → Return → TenantCluster → Type 0
  Advanced c r d =
      (d.metadata ≡ c.metadata)
      × (d.spec.identity_ref ≡ c.spec.identity_ref)
      × (str_eq d.spec.control_plane_endpoint.host "" ≡ false)
      × (str_eq c.spec.control_plane_endpoint.host "" ≡ false → d.status.ready ≡ true)

  hosted_on :
      (c : TenantCluster) (client : VcdClient) (vdc : Vdc) (gateway : Named)
      → str_eq c.spec.control_plane_endpoint.host "" ≡ false
      → Goes c (with_endpoint W (some coop.owner) client vdc gateway) (Advanced c)
  unfolding with_endpoint
  hosted_on c client vdc gateway h = Goes-modify _ _ (
      Steady-bind_to _ _ coop.owner (Steady-pure _ refl) (
        Steady-bind _ _ _ (Steady-or_done _ _ coop.control_plane_ref) λ _ _.
          Goes-weaken _ _ (ensured (with_true W external_ip_address_ready c) client vdc gateway)
            λ r d q. (
              q.0,
              ap (λ (x : TenantClusterSpec). x.identity_ref) q.1,
              host_kept d.spec q.1,
              λ _. q.2,
            )))
    where
      host_kept :
          (x : TenantClusterSpec) → x ≡ c.spec → str_eq x.control_plane_endpoint.host "" ≡ false
      host_kept x e = rw e h

  endpoint_on :
      (c : TenantCluster) (client : VcdClient) (vdc : Vdc) (gateway : Named) (b : Bool)
      → str_eq c.spec.control_plane_endpoint.host "" ≡ b
      → Goes c
          (if b
            then allocate_endpoint W gateway
            else with_endpoint W (some coop.owner) client vdc gateway)
          (Advanced c)
  endpoint_on c client vdc gateway true h =
      Goes-weaken _ _ (allocated c gateway)
        λ r d q. (q.0, q.1, q.2, λ k. absurd (conflict (sym h ∙ k)))
    where
      conflict : true ≡ false → ⊥
      conflict e = ground arith
  endpoint_on c client vdc gateway false h = hosted_on c client vdc gateway h

  pub normal_on :
      (c : TenantCluster)
      → IsReachable W c
      → Goes c (reconcile_normal W (some coop.owner)) (Advanced c)
  unfolding reconcile_normal
  normal_on c r = Steady-bind_to _ _ c (Steady-gets _) (
      Steady-bind _ _ _ (Steady-or_done _ _ r.identity_ref) λ _ _.
        Steady-connected W c _ _ r λ client.
          Steady-ask W (get_org_by_name client _) retry _ (coop.org client _) λ org.
            Steady-ask W (get_vdc_by_name org _ false) retry _ (coop.vdc org _ false) λ vdc.
              Steady-ask W (get_edge_gateway org _ vdc.id) retry _ (coop.gateway org _ vdc.id)
                λ gateway.
                  endpoint_on c client vdc gateway (str_eq c.spec.control_plane_endpoint.host "")
                    refl)
