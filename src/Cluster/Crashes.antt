-- ===== src/Cluster/Crashes.antt =====
-- Errors that the cluster controller passes over, and the nil pointers that follow.
use cluster_api_provider_clo.Names.{resource_name_with_use, use_control_plane}
use cluster_api_provider_clo.World.Calls.{
  get_firewall_group_by_name, get_filtered_machines_for_cluster,
}
use cluster_api_provider_clo.Flow.Triples.{Triple, Triple-after, Post}
use cluster_api_provider_clo.ClientCache.{get_vcd_client}
use cluster_api_provider_clo.World.Types.{VcdClient, Vdc, Named, FirewallGroup, GoError, err, ok}
use cluster_api_provider_clo.Flow.Rules.{Preserves, bind_next}
use cluster_api_provider_clo.Api.{TenantCluster, Cluster}
use cluster_api_provider_clo.Cluster.Delete.{reconcile_delete}
use cluster_api_provider_clo.Cluster.Reconcile.{ensure_parts, record_parts}
use cluster_api_provider_clo.World.{World}
use cluster_api_provider_clo.Cluster.Parts.{
  C, ensure_firewall_group, ensure_alb_pool, ensure_virtual_service, ensure_v_app,
}
use cluster_api_provider_clo.Flow.{◌>>=◌, Session, Return, perform, crash, next, Flow, ret}
use cluster_api_provider_clo.Base.{
  [], ◌∷◌, Option, ◌≡◌, none, some, false, ◌≢◌, arith, sym, ap, ◌∙◌, refl,
}

-- No more is asked of a session.
record Whatever (s : Session TenantCluster) : Type 0 where
  intro : Unit {0}

Preserves-Whatever : {A : Type 0} (m : C A) → Preserves Whatever m
Preserves-Whatever m = record { at = λ s h. record { intro = tt } }

abbrev Never : Return → Session TenantCluster → Type 0
Never a s = ⊥

module _ (W : World) (client : VcdClient) (vdc : Vdc) (gateway : Named) where
  record_parts-crash :
      (v_app service : Named) (pool : Option Named)
      → Triple Whatever (record_parts W v_app service pool none) Never Whatever
  unfolding record_parts ◌>>=◌
  record_parts-crash v_app service none = record { at = λ s h. record { intro = tt } }
  record_parts-crash v_app service (some p) = record { at = λ s h. record { intro = tt } }

  after_group-crash :
      (group : Option FirewallGroup)
      → group ≡ none
      → Triple Whatever
          (do
            pool ← ensure_alb_pool W client gateway group
            service ← ensure_virtual_service W client gateway pool
            v_app ← ensure_v_app W vdc
            record_parts W v_app service pool group)
          Never
          Whatever
  after_group-crash none e = search (Triple-after, Preserves-Whatever, record_parts-crash) depth 12
  after_group-crash (some g) e = ground arith

  group_unknown :
      (s : Session TenantCluster) (e : GoError)
      → W.answer s.trace (
          get_firewall_group_by_name vdc
            (resource_name_with_use s.object use_control_plane)
            W.firewall_group_type_ip_set)
        ≡ err e
      → W.contains_not_found e ≡ false
      → (t : Session TenantCluster) × (ensure_firewall_group W vdc gateway s ≡ (next none, t))
  unfolding ensure_firewall_group ◌>>=◌ perform
  group_unknown s e h k = (
    record s {
      trace =
          (record {
            call =
                get_firewall_group_by_name vdc (resource_name_with_use s.object use_control_plane)
                  W.firewall_group_type_ip_set;
            error = some e;
          })
          ∷ s.trace;
    },
    ground arith,
  )

-- If the look-up of the firewall group fails with an error other than "not found", the error
-- is passed over, and the reconciliation of the parts never goes through, whatever later calls
-- answer.
pub ensure_parts_unknown :
    (W : World) (client : VcdClient) (vdc : Vdc) (gateway : Named) (s : Session TenantCluster)
    (e : GoError) (r : Return)
    → W.answer s.trace (
        get_firewall_group_by_name vdc
          (resource_name_with_use s.object use_control_plane)
          W.firewall_group_type_ip_set)
      ≡ err e
    → W.contains_not_found e ≡ false
    → (ensure_parts W client vdc gateway s).0 ≢ next r
unfolding ensure_parts
ensure_parts_unknown W client vdc gateway s e r h k n =
    let (t, g) = group_unknown W client vdc gateway s e h k in
    let all = bind_next _ _ g in
    never _ _ r ((after_group-crash W client vdc gateway none refl).at t (record { intro = tt }))
      (sym (ap (λ p. p.0) all) ∙ n)
  where
    never :
        (f : Flow Return) (t : Session TenantCluster) (r : Return)
        → Post Never Whatever f t
        → f ≡ next r
        → ⊥
    never (next a) t r h e = h
    never (ret a) t r h e = ground arith
    never crash t r h e = ground arith

-- The deletion of a cluster that has no identity reference and no machines left crashes on the
-- missing reference: one call is made, and the object stays as it was. Without an owner it crashes
-- before that call.
pub reconcile_delete_without_identity :
    (W : World) (owner : Cluster) (s : Session TenantCluster)
    → s.object.spec.identity_ref ≡ none
    → W.answer s.trace (get_filtered_machines_for_cluster owner) ≡ ok []
    → (reconcile_delete W (some owner) s ≡ (
      crash,
      record s {
        trace = (record { call = get_filtered_machines_for_cluster owner; error = none }) ∷ s.trace;
      },
    ))
      × (reconcile_delete W none s ≡ (crash, s))
unfolding reconcile_delete get_vcd_client ◌>>=◌ perform
reconcile_delete_without_identity W owner s h k = (ground arith, refl)
