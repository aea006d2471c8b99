-- ===== src/Cluster/Progress/Stages.antt =====
-- A run takes a cluster to the next stage.
use cluster_api_provider_clo.Flow.Triples.{Post}
use mathlib.Core.Path.{subst}
use cluster_api_provider_clo.Api.Conditions.{Condition}
use cluster_api_provider_clo.World.Calls.{get_owner_cluster}
use cluster_api_provider_clo.Flow.Steady.{
  Goes, Goes-modify, Goes-weaken, Steady-bind_to, Steady-pure, Goes-pure, Steady-gets,
}
use cluster_api_provider_clo.Flow.Steady.Calls.{Steady-told}
use cluster_api_provider_clo.Cluster.Object.{tenant_cluster_finalizer, with_finalizer, with_status}
use cluster_api_provider_clo.World.Types.{GoError}
use cluster_api_provider_clo.Cluster.Reconcile.{
  reconcile_fetched, reconcile_normal, add_finalizer_or, reconcile_object, patch_tenant_cluster,
}
use cluster_api_provider_clo.Cluster.Cooperation.{Cooperates}
use cluster_api_provider_clo.Base.{
  ℕ, ◌≡◌, true, suc, ◌≤◌, ◌∙◌, Option, zero, false, none, some, ap, refl, Bool, arith, sym, List,
  String,
}
use cluster_api_provider_clo.Api.{TenantCluster, ObjectMeta}
use cluster_api_provider_clo.World.{World, Trace}
use cluster_api_provider_clo.Flow.{◌>>=◌, Session, Return, Flow, defer, perform, next, ret, crash}
use cluster_api_provider_clo.Cluster.Progress.{following, Stage, stored, run}
use cluster_api_provider_clo.Cluster.Progress.Normal.{
  same_identity, normal_on, Advanced, error_of-IsOk,
}

module _ (W : World) (coop : Cooperates W) where
  Stage-le : (m n : ℕ) (c : TenantCluster) → n ≤ m → Stage W m c → Stage W n c
  Stage-le m n c h s = record {
    alive = s.alive;
    reachable = s.reachable;
    finalized = λ k. s.finalized (omega arith);
    hosted = λ k. s.hosted (omega arith);
    ready = λ k. s.ready (omega arith);
  }

  -- The run that adds the finalizer.
  Stage-with_finalizer : (c : TenantCluster) → Stage W 0 c → Stage W 1 (with_finalizer W c)
  Stage-with_finalizer c s = record {
    alive = s.alive;
    reachable = same_identity W coop c (with_finalizer W c) refl refl s.reachable;
    finalized = λ k. coop.finalizer_added _ _;
    hosted = λ k. absurd (omega arith);
    ready = λ k. absurd (omega arith);
  }

  -- A run after it.
  Stage-Advanced :
      (n : ℕ) (c d : TenantCluster) (r : Return)
      → Stage W n c
      → (W.add_finalizer tenant_cluster_finalizer c.metadata.finalizers).1 ≡ false
      → Advanced W coop c r d
      → Stage W (following n) d
  Stage-Advanced n c d r s f a = record {
    alive = rw (a.0) s.alive;
    reachable = same_identity W coop c d a.1 (ap (λ (m : ObjectMeta). m.namespace) a.0) s.reachable;
    finalized = λ k. rw (a.0) f;
    hosted = λ k. a.2;
    ready = λ k. a.3 (s.hosted (far k));
  }
    where
      far : 3 ≤ following n → 2 ≤ n
      far k = ground arith

  following_first :
      (n : ℕ) (c : TenantCluster)
      → Stage W n c
      → (W.add_finalizer tenant_cluster_finalizer c.metadata.finalizers).1 ≡ true
      → following n ≤ 1
  following_first zero c s f = omega arith
  following_first (suc n) c s f = absurd (conflict (sym f ∙ s.finalized (omega arith)))
    where
      conflict : true ≡ false → ⊥
      conflict e = ground arith

  finalizer_on :
      (n : ℕ) (c : TenantCluster) (b : Bool)
      → Stage W n c
      → (W.add_finalizer tenant_cluster_finalizer c.metadata.finalizers).1 ≡ b
      → Goes c
          (add_finalizer_or W b (reconcile_normal W (some coop.owner)))
          (λ r d. Stage W (following n) d)
  unfolding add_finalizer_or
  finalizer_on n c true s f = Goes-modify _ _ (
      Goes-pure _ _ (
        Stage-le 1 (following n) _ (following_first n c s f)
          (Stage-with_finalizer c (Stage-le n 0 c (omega arith) s))))
  finalizer_on n c false s f = Goes-modify _ _ (
      subst (λ x. Goes x (reconcile_normal W (some coop.owner)) (λ r d. Stage W (following n) d))
        (sym kept)
        (Goes-weaken _ _ (normal_on W coop c s.reachable) λ r d a. Stage-Advanced n c d r s f a))
    where
      kept : with_finalizer W c ≡ c
      kept =
          ap (λ (all : List String). record c { metadata = record c.metadata { finalizers = all } })
            (coop.finalizer_kept _ _ f)

  object_on :
      (n : ℕ) (c : TenantCluster)
      → Stage W n c
      → Goes c (reconcile_object W) (λ r d. Stage W (following n) d)
  unfolding reconcile_object
  object_on n c s = Steady-bind_to _ _ c (Steady-gets _) (
      Steady-told W (get_owner_cluster c.metadata) _ _ (coop.owned c.metadata) (
        Steady-bind_to _ _ (some coop.owner) (Steady-pure _ refl)
          (rw (s.alive) (finalizer_on n c _ s refl))))

  Post-object :
      {A : Type 0} (Q : TenantCluster → Type 0) (f : Flow A) (t : Session TenantCluster)
      → Post (λ _ t. Q t.object) (λ _. ⊥) f t
      → Q t.object
  Post-object Q (next a) t h = h
  Post-object Q (ret r) t h = absurd h
  Post-object Q crash t h = absurd h

  -- The summary only touches the conditions.
  Stage-conditions :
      (n : ℕ) (c : TenantCluster) (conditions : List Condition)
      → Stage W n c
      → Stage W n (with_status (λ x. record x { conditions = conditions }) c)
  Stage-conditions n c conditions s = record {
    alive = s.alive;
    reachable = same_identity W coop c _ refl refl s.reachable;
    finalized = s.finalized;
    hosted = s.hosted;
    ready = s.ready;
  }

  Stage-stored :
      (n : ℕ) (c d : TenantCluster) (e : Option GoError)
      → e ≡ none
      → Stage W n d
      → Stage W n (elim e [ none ↦ d | some x ↦ c ])
  Stage-stored n c d none h s = s
  Stage-stored n c d (some e) h s = absurd (failure h)
    where
      failure : some e ≡ none → ⊥
      failure k = ground arith

  Stage-patch :
      (n : ℕ) (c : TenantCluster) (s : Session TenantCluster)
      → Stage W n s.object
      → Stage W n (stored W c (patch_tenant_cluster W c s).1)
  unfolding patch_tenant_cluster ◌>>=◌ perform
  Stage-patch n c s h =
      Stage-stored n c _ _ (error_of-IsOk _ (coop.patched c _ _ s.trace))
        (Stage-conditions n s.object _ h)

  pub Stage-run :
      (n : ℕ) (x : TenantCluster × Trace) → Stage W n x.0 → Stage W (following n) (run W x).0
  unfolding reconcile_fetched defer
  Stage-run n (c, t) s =
      let before : Session TenantCluster = record { object = c; trace = t } in
      Stage-patch (following n) c (reconcile_object W before).1
        (Post-object (Stage W (following n)) _ _ ((object_on n c s).at before refl))
