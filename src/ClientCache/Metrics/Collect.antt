-- ===== src/ClientCache/Metrics/Collect.antt =====
-- The loop of a collection sets the samples one by one.
use cluster_api_provider_clo.Flow.Rules.{bind_on, bind_ret}
use cluster_api_provider_clo.Api.{ℤ}
use cluster_api_provider_clo.World.Calls.{cache_get, get_session_info}
use cluster_api_provider_clo.ClientCache.Metrics.Samples.{
  IsStill, Gauges, samples, sample, samples-hit, samples-fail, samples-miss,
}
use cluster_api_provider_clo.World.Types.{GoError, VcdClient, Answer-cases, err, ok}
use cluster_api_provider_clo.World.{World, Trace}
use cluster_api_provider_clo.Flow.{Flow, Session, next, ret, perform, ◌>>=◌, failed}
use cluster_api_provider_clo.Base.{
  Option, ◌≡◌, ℕ, List, some, ◌∷◌, none, [], refl, inl, arith, ◌∙◌, ap, inr, Option-cases,
}
use cluster_api_provider_clo.ClientCache.{now}
use cluster_api_provider_clo.ClientCache.Metrics.{
  token_of, GaugeVec, collect_keys, collect_client, Labels,
}

-- How the loop ends.
abbrev pub outcome : Option GoError → Flow (Unit {0})
outcome none = next tt
outcome (some e) = ret (failed e)

-- What a run of the loop yields.
abbrev Yields : {A G : Type 0} → Flow A × Session G → Flow A → G → Type 0
Yields r end g = (r.0 ≡ end) × (r.1.object ≡ g)

-- The gauges after the samples, set in their order.
abbrev pub set_all : {G : Type 0} → GaugeVec G → Gauges → G → G
set_all vec [] g = g
set_all vec (x ∷ gauges) g = set_all vec gauges (vec.set x.0 x.1 g)

module _ {W : World} {G : Type 0} (vec : GaugeVec G) (still : IsStill W) where
  module _ (key : ℕ) (client : VcdClient) (s : Session G) where
    asked : Trace
    asked = (perform W (get_session_info client) s).1.trace

    collect_client-err :
        (e : GoError)
        → sample still key client ≡ err e
        → Yields (collect_client W vec key client s) (ret (failed e)) s.object
    unfolding collect_client ◌>>=◌ perform asked token_of now
    collect_client-err e h =
        ground (arith, still.sessions client s.trace, still.tokens client asked, h)

    collect_client-ok :
        (x : Labels × ℤ)
        → sample still key client ≡ ok x
        → Yields (collect_client W vec key client s) (next tt) (vec.set x.0 x.1 s.object)
    unfolding collect_client ◌>>=◌ perform asked token_of now
    collect_client-ok x h =
        ground (arith, still.sessions client s.trace, still.tokens client asked, h)

  looked : ℕ → Session G → Session G
  looked key s = (perform W (cache_get key) s).1

  collect_keys-miss :
      (key : ℕ) (keys : List ℕ) (s : Session G)
      → still.entry key ≡ none
      → collect_keys W vec (key ∷ keys) s ≡ collect_keys W vec keys (looked key s)
  unfolding collect_keys looked perform ◌>>=◌
  collect_keys-miss key keys s h = rw (still.miss key s.trace h) refl

  unfoldable pub Collects : List ℕ → Session G → Type 0
  Collects keys s =
      Yields (collect_keys W vec keys s) (outcome (samples still keys).1)
        (set_all vec (samples still keys).0 s.object)

  module _ (key : ℕ) (keys : List ℕ) (s : Session G) (client : VcdClient)
      (h : still.entry key ≡ some client) where
    collect_keys-hit :
        collect_keys W vec (key ∷ keys) s
        ≡ (collect_client W vec key client >>= λ _. collect_keys W vec keys) (looked key s)
    unfolding collect_keys looked perform ◌>>=◌
    collect_keys-hit = rw (still.hit key client s.trace h) refl

    -- The loop from a client on, when the rest of the loop is known.
    collect_keys-entry : ((s' : Session G) → Collects keys s') → Collects (key ∷ keys) s
    unfolding Collects looked perform
    collect_keys-entry ih = elim (Answer-cases (sample still key client)) [
      | inl (x, p) ↦
          let (end, made) = collect_client-ok key client (looked key s) x p in
          let (rest, gauges) = ih (collect_client W vec key client (looked key s)).1 in
          rw
            (
              collect_keys-hit,
              bind_on (collect_client W vec key client) (λ _. collect_keys W vec keys)
                  (looked key s) tt end,
              samples-hit still key keys client h x p,
            )
            (rest, gauges ∙ ap (set_all vec (samples still keys).0) made)
      | inr (failure, p) ↦
          let (end, kept) = collect_client-err key client (looked key s) failure p in
          rw
            (
              collect_keys-hit,
              bind_ret (collect_client W vec key client) (λ _. collect_keys W vec keys)
                  (looked key s) (failed failure) end,
              samples-fail still key keys client h failure p,
            )
            (refl, kept)
    ]

  pub collect_keys-samples : (keys : List ℕ) (s : Session G) → Collects keys s
  unfolding Collects collect_keys ◌>>=◌ looked perform samples
  collect_keys-samples [] s = (refl, refl)
  collect_keys-samples (key ∷ keys) s = elim (Option-cases (still.entry key)) [
    | inl e ↦
        rw (collect_keys-miss key keys s e, samples-miss still key keys e)
          (collect_keys-samples keys (looked key s))
    | inr (client, e) ↦ collect_keys-entry key keys s client e (collect_keys-samples keys)
  ]
