-- ===== src/Cluster/Finalizer.antt =====
-- The finalizer of a cluster and its parts, in `reconcileDelete` of the cluster controller.
use cluster_api_provider_clo.Base.{
  Option, none, some, ◌∷◌, false, ◌≡◌, ◌⊎◌, inl, inr, refl, ap, arith,
}
use cluster_api_provider_clo.Api.{TenantCluster, CloudDirectorReference, Cluster}
use cluster_api_provider_clo.World.{World, Event, Trace}
use cluster_api_provider_clo.World.Types.{VcdClient, Vdc}
use cluster_api_provider_clo.World.Calls.{Call}
use cluster_api_provider_clo.Flow.{
  Flow, next, ret, crash, Session, done, modify, pure, ◌>>=◌, ◌>>◌, perform,
}
use cluster_api_provider_clo.Flow.Rules.{Preserves}
use cluster_api_provider_clo.Flow.Triples.{Triple, Triple-bind, Triple-keep, Triple-after, Post}
use cluster_api_provider_clo.Vcdutil.{find}
use cluster_api_provider_clo.ClientCache.Rules.{KeptByClient, Preserves-get_vcd_client}
use cluster_api_provider_clo.Cluster.Object.{without_finalizer}
use cluster_api_provider_clo.Cluster.Delete.{
  remove_virtual_service, remove_alb_pool, remove_firewall_group, remove_v_app, remove_parts,
  reconcile_delete,
}
use cluster_api_provider_clo.Cluster.Kinds.{cluster_rules}
use cluster_api_provider_clo.Cluster.Gone.{
  Part, virtual_service_part, pool_part, ip_set_part, v_app_part, Gone, FindsById,
}

-- Nothing was recorded, or what was recorded is gone.
abbrev pub GoneIfSome : World → Part → Option CloudDirectorReference → Trace → Type 0
GoneIfSome W p none t = Unit
GoneIfSome W p (some ref) t = Gone W p ref.id t

-- The object in memory is still the one given.
pub record Unchanged (c : TenantCluster) (s : Session TenantCluster) : Type 0 where
  pub object : s.object ≡ c

pub record IsGone (W : World) (p : Part) (r : Option CloudDirectorReference)
    (s : Session TenantCluster) : Type 0 where
  pub shown : GoneIfSome W p r s.trace

module _ (W : World) (p : Part) where
  GoneIfSome-cons :
      (r : Option CloudDirectorReference) (e : Event) (t : Trace)
      → GoneIfSome W p r t
      → GoneIfSome W p r (e ∷ t)
  GoneIfSome-cons none e t h = tt
  GoneIfSome-cons (some ref) e t h = inr (inr h)

  IsGone-perform :
      (r : Option CloudDirectorReference) (c : Call) → Preserves (IsGone W p r) (perform W c)
  unfolding perform
  IsGone-perform r c = record { at = λ s h. record { shown = GoneIfSome-cons r _ _ h.shown } }

  IsGone-modify :
      (r : Option CloudDirectorReference) (f : TenantCluster → TenantCluster)
      → Preserves (IsGone W p r) (modify f)
  unfolding ◌>>=◌
  IsGone-modify r f = record { at = λ s h. record { shown = h.shown } }

module _ (W : World) (p : Part) (r : Option CloudDirectorReference) where
  remove_alb_pool-IsGone :
      (client : VcdClient) → Preserves (IsGone W p r) (remove_alb_pool W client)
  unfolding remove_alb_pool
  remove_alb_pool-IsGone client = search (cluster_rules, IsGone-perform) depth 12

  remove_firewall_group-IsGone :
      (vdc : Vdc) → Preserves (IsGone W p r) (remove_firewall_group W vdc)
  unfolding remove_firewall_group
  remove_firewall_group-IsGone vdc = search (cluster_rules, IsGone-perform) depth 12

  remove_v_app-IsGone : (vdc : Vdc) → Preserves (IsGone W p r) (remove_v_app W vdc)
  unfolding remove_v_app
  remove_v_app-IsGone vdc = search (cluster_rules, IsGone-perform) depth 30

Unchanged-perform :
    (W : World) (c : TenantCluster) (call : Call) → Preserves (Unchanged c) (perform W call)
unfolding perform
Unchanged-perform W c call = record { at = λ s h. record { object = h.object } }

-- All the parts that the status records are gone.
pub record AllGone (W : World) (c : TenantCluster) (t : Trace) : Type 0 where
  pub service : GoneIfSome W virtual_service_part c.status.virtual_service t
  pub pool : GoneIfSome W pool_part c.status.pool t
  pub ip_set : GoneIfSome W ip_set_part c.status.ip_set t
  pub v_app : GoneIfSome W v_app_part c.status.v_app t

Unchanged-KeptByClient : (W : World) (c : TenantCluster) → KeptByClient W (Unchanged c)
Unchanged-KeptByClient W c = record {
  secret = λ k. search Unchanged-perform;
  hit = λ k. search Unchanged-perform;
  add = λ k d t. search Unchanged-perform;
  token = λ d o t. search Unchanged-perform;
}

ruleset unchanged_rules = (cluster_rules, Unchanged-perform)

module _ (W : World) (by_id : FindsById W) (c : TenantCluster) where
  abbrev GoneAfter :
      Part → Option CloudDirectorReference → Unit {0} → Session TenantCluster → Type 0
  GoneAfter p r _ t = Unchanged c t × IsGone W p r t

  remove_virtual_service-Gone :
      (client : VcdClient)
      → Triple
          (Unchanged c)
          (remove_virtual_service W client)
          (GoneAfter virtual_service_part c.status.virtual_service)
          (Unchanged c)
  unfolding remove_virtual_service ◌>>=◌ find perform
  remove_virtual_service-Gone client = record {
    at = λ s h. go s h s.object.status.virtual_service refl;
  }
    where
      go :
          (s : Session TenantCluster)
          → Unchanged c s
          → (r : Option CloudDirectorReference) → s.object.status.virtual_service ≡ r
          → Post
              (GoneAfter virtual_service_part c.status.virtual_service)
              (Unchanged c)
              (remove_virtual_service W client s).0
              (remove_virtual_service W client s).1
      go s h none e = ground arith
      go s h (some ref) e = ground (arith, by_id.service s.trace client ref.id)

  remove_alb_pool-Gone :
      (client : VcdClient)
      → Triple
          (Unchanged c)
          (remove_alb_pool W client)
          (GoneAfter pool_part c.status.pool)
          (Unchanged c)
  unfolding remove_alb_pool ◌>>=◌ find perform
  remove_alb_pool-Gone client = record { at = λ s h. go s h s.object.status.pool refl }
    where
      go :
          (s : Session TenantCluster)
          → Unchanged c s
          → (r : Option CloudDirectorReference) → s.object.status.pool ≡ r
          → Post
              (GoneAfter pool_part c.status.pool)
              (Unchanged c)
              (remove_alb_pool W client s).0
              (remove_alb_pool W client s).1
      go s h none e = ground arith
      go s h (some ref) e = ground (arith, by_id.pool s.trace client ref.id)

  remove_firewall_group-Gone :
      (vdc : Vdc)
      → Triple
          (Unchanged c)
          (remove_firewall_group W vdc)
          (GoneAfter ip_set_part c.status.ip_set)
          (Unchanged c)
  unfolding remove_firewall_group ◌>>=◌ find perform
  remove_firewall_group-Gone vdc = record { at = λ s h. go s h s.object.status.ip_set refl }
    where
      go :
          (s : Session TenantCluster)
          → Unchanged c s
          → (r : Option CloudDirectorReference) → s.object.status.ip_set ≡ r
          → Post
              (GoneAfter ip_set_part c.status.ip_set)
              (Unchanged c)
              (remove_firewall_group W vdc s).0
              (remove_firewall_group W vdc s).1
      go s h none e = ground arith
      go s h (some ref) e = ground (arith, by_id.group s.trace vdc ref.id)

  remove_v_app-Gone :
      (vdc : Vdc)
      → Triple
          (Unchanged c)
          (remove_v_app W vdc)
          (GoneAfter v_app_part c.status.v_app)
          (Unchanged c)
  unfolding remove_v_app ◌>>=◌ find perform
  remove_v_app-Gone vdc = record { at = λ s h. go s h s.object.status.v_app refl }
    where
      go :
          (s : Session TenantCluster)
          → Unchanged c s
          → (r : Option CloudDirectorReference) → s.object.status.v_app ≡ r
          → Post
              (GoneAfter v_app_part c.status.v_app)
              (Unchanged c)
              (remove_v_app W vdc s).0
              (remove_v_app W vdc s).1
      go s h none e = ground arith
      go s h (some ref) e = ground (arith, by_id.v_app s.trace vdc ref.id false)

  drop_finalizer-AllGone :
      Triple
        (λ t.
          ((GoneAfter v_app_part c.status.v_app tt t × IsGone W ip_set_part c.status.ip_set t)
            × IsGone W pool_part c.status.pool t)
          × IsGone W virtual_service_part c.status.virtual_service t)
        (modify (without_finalizer W) >> pure done)
        (λ _ t. (t.object ≡ without_finalizer W c) × AllGone W c t.trace)
        (Unchanged c)
  unfolding ◌>>=◌
  drop_finalizer-AllGone = record {
    at = λ s h.
        let (((u, v), g), p) = h.0 in
        (
          ap (without_finalizer W) u.object,
          record { service = h.1.shown; pool = p.shown; ip_set = g.shown; v_app = v.shown },
        );
  }

  remove_parts-AllGone :
      (client : VcdClient) (vdc : Vdc)
      → Triple
          (Unchanged c)
          (remove_parts W client vdc)
          (λ _ t. (t.object ≡ without_finalizer W c) × AllGone W c t.trace)
          (Unchanged c)
  unfolding remove_parts
  remove_parts-AllGone client vdc = Triple-bind _ _ (remove_virtual_service-Gone client) λ _.
      Triple-bind _ _
        (Triple-keep _ _ (remove_alb_pool-Gone client) (remove_alb_pool-IsGone W _ _ client))
        λ _.
          Triple-bind _ _
            (Triple-keep _ _
              (Triple-keep _ _ (remove_firewall_group-Gone vdc)
                (remove_firewall_group-IsGone W _ _ vdc))
              (remove_firewall_group-IsGone W _ _ vdc))
            λ _.
              Triple-bind _ _
                (Triple-keep _ _
                  (Triple-keep _ _
                    (Triple-keep _ _ (remove_v_app-Gone vdc) (remove_v_app-IsGone W _ _ vdc))
                    (remove_v_app-IsGone W _ _ vdc))
                  (remove_v_app-IsGone W _ _ vdc))
                λ _. drop_finalizer-AllGone

  reconcile_delete-AllGone :
      (owner : Option Cluster)
      → Triple
          (Unchanged c)
          (reconcile_delete W owner)
          (λ _ t. (t.object ≡ without_finalizer W c) × AllGone W c t.trace)
          (Unchanged c)
  unfolding reconcile_delete
  reconcile_delete-AllGone owner =
      search
        (
          Triple-after,
          unchanged_rules,
          Preserves-get_vcd_client W (Unchanged-KeptByClient W c),
          remove_parts-AllGone,
        )
        depth 30

module _ {A : Type 0} (W : World) (c : TenantCluster) where
  Post-AllGone :
      (r : Flow A) (t : Session TenantCluster)
      → Post (λ _ t. (t.object ≡ without_finalizer W c) × AllGone W c t.trace) (Unchanged c) r t
      → (t.object ≡ c) ⊎ ((t.object ≡ without_finalizer W c) × AllGone W c t.trace)
  Post-AllGone (next a) t h = inr h
  Post-AllGone (ret r) t h = inl h.object
  Post-AllGone crash t h = inl h.object

-- If a look-up by id never finds an object with another id, then deletion leaves the object as
-- it was, or it has taken the finalizer off and every part that the status recorded is gone.
pub reconcile_delete_finalizer :
    (W : World) (owner : Option Cluster) (s : Session TenantCluster)
    → FindsById W
    → let t = (reconcile_delete W owner s).1 in
      (t.object ≡ s.object)
      ⊎ ((t.object ≡ without_finalizer W s.object) × AllGone W s.object t.trace)
reconcile_delete_finalizer W owner s by_id =
    Post-AllGone W s.object _ _
      ((reconcile_delete-AllGone W by_id s.object owner).at s (record { object = refl }))
