-- ===== src/Startup/Ticker.antt =====
-- main.go: the goroutine that collects the metrics at every tick.
use cluster_api_provider_clo.ClientCache.{get_token_remaining_ttl}
use cluster_api_provider_clo.Flow.Rules.{bind_on, bind_ret}
use cluster_api_provider_clo.World.Calls.{Call, get_session_info, cache_get}
use cluster_api_provider_clo.Base.{
  ℕ, List, [], ◌∷◌, Option, some, none, ◌≡◌, refl, ap, ◌∙◌, sym, ◌⊎◌, ◌++◌, inl, inr,
}
use cluster_api_provider_clo.ClientCache.Metrics.{
  GaugeVec, collect_metrics, collect_client, collect_keys, collect_found,
}
use cluster_api_provider_clo.Flow.{
  failed, ◌>>=◌, Flow, Return, Session, next, ret, crash, M, perform, done, pure, modify, or_else,
  fail,
}
use cluster_api_provider_clo.World.{World}
use cluster_api_provider_clo.World.Types.{GoError, Answer, VcdClient, ok, err}
use mathlib.Core.Path.{subst}

-- What the collections have left: the gauges, the calls, and the errors logged, the last first.
pub record Collecting (G : Type 0) : Type 0 where
  pub session : Session G
  pub errors : List GoError

-- `if err != nil { logger.Error(...) }`
abbrev pub log_error : Option GoError → List GoError → List GoError
log_error none errors = errors
log_error (some e) errors = e ∷ errors

abbrev pub logged : Flow Return → List GoError → List GoError
logged (next r) errors = log_error r.error errors
logged (ret r) errors = log_error r.error errors
logged crash errors = errors

-- A panic of the goroutine ends the process, and the loop with it.
abbrev pub unless_crash : {G : Type 0} → Flow Return → Collecting G → Collecting G → Collecting G
unless_crash (next r) ended rest = rest
unless_crash (ret r) ended rest = rest
unless_crash crash ended rest = ended

module _ (W : World) {G : Type 0} (vec : GaugeVec G) where
  abbrev pub tick : Collecting G → Collecting G
  tick c =
      let (r, s) = collect_metrics W vec c.session in
      record { session = s; errors = logged r c.errors }

  -- `for range ticker.C`, over the times that the ticker has sent
  unfoldable pub collect_at : List ℕ → Collecting G → Collecting G
  collect_at [] c = c
  collect_at (time ∷ times) c =
      let rest = collect_at times (tick c) in
      unless_crash (collect_metrics W vec c.session).0 (tick c) rest

-- An end that is not a crash: a value, of which `F` holds, or an error.
abbrev Ends : {A : Type 0} → (A → Type 0) → Flow A → Type 0
Ends {A} F r = ((a : A) × (r ≡ next a) × F a) ⊎ ((e : GoError) × (r ≡ ret (failed e)))

record Safe {G A : Type 0} (F : A → Type 0) (m : M G A) : Type 0 where
  at : (s : Session G) → Ends F (m s).0

abbrev AnyOf : {A : Type 0} → A → Type 0
AnyOf a = Unit

module _ {G : Type 0} where
  Safe-pure : {A : Type 0} (F : A → Type 0) (a : A) → F a → Safe F (pure {O = G} a)
  unfolding ◌>>=◌
  Safe-pure F a h = record { at = λ s. inl (a, refl, h) }

  Safe-modify : (f : G → G) → Safe AnyOf (modify f)
  unfolding ◌>>=◌
  Safe-modify f = record { at = λ s. inl (tt, refl, tt) }

  Safe-perform : (W : World) (c : Call) → Safe AnyOf (perform W {O = G} c)
  unfolding perform
  Safe-perform W c = record { at = λ s. inl (_, refl, tt) }

  Safe-or_else : {A : Type 0} (a : Answer A) → Safe AnyOf (or_else {O = G} a fail)
  unfolding ◌>>=◌
  Safe-or_else (ok a) = record { at = λ s. inl (a, refl, tt) }
  Safe-or_else (err e) = record { at = λ s. inr (e, refl) }

  Safe-bind :
      {A B : Type 0} {F : A → Type 0} {H : B → Type 0} (m : M G A) (f : A → M G B)
      → Safe F m
      → ((a : A) → Safe H (f a))
      → Safe H (m >>= f)
  Safe-bind {H} m f hm hf = record {
    at = λ s. elim (hm.at s) [
      | inl (a, h, k) ↦
          subst (λ (p : Flow _ × Session G). Ends H p.0) (sym (bind_on m f s a h)) ((hf a).at _)
      | inr (e, h) ↦ inr (e, ap (λ (p : Flow _ × Session G). p.0) (bind_ret m f s (failed e) h))
    ];
  }

module _ (W : World) {G : Type 0} (vec : GaugeVec G) where
  Safe-collect_client :
      (key : ℕ) (client : VcdClient) → Safe AnyOf (collect_client W vec key client)
  unfolding collect_client
  Safe-collect_client key client = Safe-bind _ _ (Safe-perform W (get_session_info client)) λ a.
      Safe-bind _ _ (Safe-or_else a) λ session.
        Safe-bind {F = AnyOf} _ _ (record { at = λ s. inl (_, refl, tt) })
          λ token.
            Safe-bind {F = AnyOf} _ _ (record { at = λ s. inl (_, refl, tt) })
              λ t.
                Safe-bind _ _ (Safe-or_else (get_token_remaining_ttl W t token))
                  λ ttl. Safe-modify _

  Safe-collect_keys : (keys : List ℕ) → Safe AnyOf (collect_keys W vec keys)
  unfolding collect_keys
  Safe-collect_keys [] = Safe-pure AnyOf tt tt
  Safe-collect_keys (key ∷ keys) =
      Safe-bind _ _ (Safe-perform W (cache_get key))
        λ hit. Safe-bind _ _ (found hit) λ _. Safe-collect_keys keys
    where
      found : (hit : Answer VcdClient) → Safe AnyOf (collect_found W vec key hit)
      found (ok client) = Safe-collect_client key client
      found (err miss) = Safe-pure AnyOf tt tt

  Safe-collect_metrics : Safe (λ r. r ≡ done) (collect_metrics W vec)
  unfolding collect_metrics
  Safe-collect_metrics = Safe-bind _ _ (Safe-modify _) λ _.
      Safe-bind {F = AnyOf} _ _ (record { at = λ s. inl (_, refl, tt) })
        λ keys. Safe-bind _ _ (Safe-collect_keys keys) λ _. Safe-pure (λ r. r ≡ done) done refl

  -- A collection that went well logs nothing, and one that failed logs its error.
  abbrev pub Logs : Flow Return → List GoError → List GoError → Type 0
  Logs r before after =
      ((r ≡ next done) × (after ≡ before))
      ⊎ ((e : GoError) × (r ≡ ret (failed e)) × (after ≡ e ∷ before))

  abbrev Follows : Collecting G → Collecting G → Type 0
  Follows d e =
      let (r, s) = collect_metrics W vec d.session in (e.session ≡ s) × Logs r d.errors e.errors

  ticked : (c : Collecting G) → Follows c (tick W vec c)
  ticked c = elim (Safe-collect_metrics.at c.session) [
    | inl (r, h, k) ↦ (refl, inl (h ∙ ap next k, ap (λ x. logged x c.errors) (h ∙ ap next k)))
    | inr (e, h) ↦ (refl, inr (e, h, ap (λ x. logged x c.errors) h))
  ]

  goes_on :
      (c ended rest : Collecting G)
      → unless_crash (collect_metrics W vec c.session).0 ended rest ≡ rest
  goes_on c ended rest = elim (Safe-collect_metrics.at c.session) [
    | inl (r, h, k) ↦ ap (λ x. unless_crash x ended rest) h
    | inr (e, h) ↦ ap (λ x. unless_crash x ended rest) h
  ]

  -- Every tick is served, whatever the ticks before it met: after one more tick there has been one
  -- more collection, from where the last one ended, and its error, if it had one, is the newest in
  -- the log.
  pub collect_at-continues :
      (times : List ℕ) (time : ℕ) (c : Collecting G)
      → let d = collect_at W vec times c in
        let e = collect_at W vec (times ++ (time ∷ [])) c in
        let (r, s) = collect_metrics W vec d.session in (e.session ≡ s) × Logs r d.errors e.errors
  unfolding collect_at
  collect_at-continues [] time c =
      subst (Follows c) (sym (goes_on c (tick W vec c) (tick W vec c))) (ticked c)
  collect_at-continues (t ∷ times) time c =
      let more = collect_at-continues times time (tick W vec c) in
      subst (λ (d : Collecting G). Follows d (collect_at W vec ((t ∷ times) ++ (time ∷ [])) c))
        (sym (goes_on c (tick W vec c) (collect_at W vec times (tick W vec c))))
        (subst (Follows (collect_at W vec times (tick W vec c)))
          (sym (goes_on c (tick W vec c) (collect_at W vec (times ++ (time ∷ [])) (tick W vec c))))
          more)
