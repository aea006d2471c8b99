-- ===== src/ClientCache/Metrics/Exposed.antt =====
-- The gauges that Prometheus reads after a collection.
use cluster_api_provider_clo.Flow.{Flow, Return, next, done, ret, failed}
use cluster_api_provider_clo.World.Types.{GoError}
use cluster_api_provider_clo.World.{World}
use mathlib.Core.Bool.{true≢false}
use cluster_api_provider_clo.ClientCache.Metrics.Samples.{Gauges}
use cluster_api_provider_clo.Api.{ℤ}
use cluster_api_provider_clo.ClientCache.Metrics.{Labels, GaugeVec}
use cluster_api_provider_clo.Base.{
  ◌≡◌, ◌⊎◌, Any, none, ◌≢◌, some, All, Bool-cases, inl, str_eq, inr, String, ap, sym, ◌∙◌, eq_iff,
  Option,
}

String-cases : (a b : String) → (a ≡ b) ⊎ (a ≢ b)
String-cases a b = elim (Bool-cases (str_eq a b)) [
  | inl e ↦ inl ((eq_iff a b).0 e)
  | inr e ↦ inr (λ p. true≢false (sym ((eq_iff a b).1 p) ∙ e))
]

pub Label-cases : (a b : Labels) → (a ≡ b) ⊎ (a ≢ b)
Label-cases a b = elim (String-cases a.key b.key) [
  | inr n ↦ inr (λ p. n (ap (λ (l : Labels). l.key) p))
  | inl e ↦ elim (String-cases a.url b.url) [
    | inr n ↦ inr (λ p. n (ap (λ (l : Labels). l.url) p))
    | inl e' ↦ elim (String-cases a.organization b.organization) [
      | inr n ↦ inr (λ p. n (ap (λ (l : Labels). l.organization) p))
      | inl e'' ↦ inl (λ i. record { key = e i; url = e' i; organization = e'' i })
    ]
  ]
]

-- The sample is among them.
abbrev pub Sampled : Labels → ℤ → Gauges → Type 0
Sampled l v = Any (λ (x : Labels × ℤ). x ≡ (l, v))

module _ {G : Type 0} (vec : GaugeVec G) where
  Empty : G → Gauges → Type 0
  Empty g = All (λ (x : Labels × ℤ). vec.value x.0 g ≡ none)

-- What a collection returns.
abbrev pub returned : Option GoError → Flow Return
returned none = next done
returned (some e) = ret (failed e)
