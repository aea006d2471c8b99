-- ===== src/ClientCache/Metrics/Samples.antt =====
-- The samples that a collection takes while the cache and the sessions stand still, in the order
-- of the keys.

use cluster_api_provider_clo.CloudInit.Text.Injective.{itoa-injective}
use cluster_api_provider_clo.ClientCache.{get_token_remaining_ttl}
use cluster_api_provider_clo.World.Calls.{cache_get, get_session_info}
use cluster_api_provider_clo.CloudInit.Text.{itoa}
use cluster_api_provider_clo.Api.{ℤ}
use cluster_api_provider_clo.World.Types.{
  GoError, VcdClient, Answer, SessionInfo, err, ok, Answer-cases,
}
use cluster_api_provider_clo.ClientCache.Metrics.{Labels, labels_of}
use cluster_api_provider_clo.Base.{
  Option, List, ℕ, none, ◌∷◌, All, ◌≢◌, some, ◌≡◌, [], ap, refl, arith, ◌∙◌, sym, inl, inr,
  Option-cases,
}
use cluster_api_provider_clo.World.{World, Trace}

-- Samples, in nanoseconds.
abbrev pub Gauges : Type 0
Gauges = List (Labels × ℤ)

-- A world whose cached clients, sessions and remaining times do not change during a collection.
pub record IsStill (W : World) : Type 0 where
  pub entry : ℕ → Option VcdClient
  pub session : VcdClient → Answer SessionInfo
  pub remaining : VcdClient → Answer ℤ
  pub hit :
      (key : ℕ) (client : VcdClient) (t : Trace)
      → entry key ≡ some client
      → W.answer t (cache_get key) ≡ ok client
  pub missing : GoError
  pub miss : (key : ℕ) (t : Trace) → entry key ≡ none → W.answer t (cache_get key) ≡ err missing
  pub sessions :
      (client : VcdClient) (t : Trace) → W.answer t (get_session_info client) ≡ session client
  pub tokens :
      (client : VcdClient) (t : Trace)
      → get_token_remaining_ttl W (W.now t) (W.vcd_token t client) ≡ remaining client

module _ {W : World} (still : IsStill W) where
  -- The sample of one cached client.
  abbrev pub sample : ℕ → VcdClient → Answer (Labels × ℤ)
  sample key client = elim (still.session client) [
    | err e ↦ err e
    | ok session ↦ elim (still.remaining client) [
      | err e ↦ err e
      | ok ttl ↦ ok (labels_of key client session, ttl)
    ]
  ]

  -- The samples up to the first error, and that error.
  unfoldable pub samples : List ℕ → Gauges × Option GoError
  samples [] = ([], none)
  samples (key ∷ keys) =
      let rest = samples keys in
      elim (still.entry key) [
        | none ↦ rest
        | some client ↦ elim (sample key client) [
          | err e ↦ ([], some e)
          | ok x ↦ (x ∷ rest.0, rest.1)
        ]
      ]

  pub samples-miss :
      (key : ℕ) (keys : List ℕ) → still.entry key ≡ none → samples (key ∷ keys) ≡ samples keys
  unfolding samples
  samples-miss key keys h = rw (h, samples) refl

  module _ (key : ℕ) (keys : List ℕ) (client : VcdClient) (h : still.entry key ≡ some client) where
    pub samples-hit :
        (x : Labels × ℤ)
        → sample key client ≡ ok x
        → samples (key ∷ keys) ≡ (x ∷ (samples keys).0, (samples keys).1)
    unfolding samples
    samples-hit x p = rw (h, p, samples) refl

    pub samples-fail :
        (e : GoError) → sample key client ≡ err e → samples (key ∷ keys) ≡ ([], some e)
    unfolding samples
    samples-fail e p = rw (h, p, samples) refl

    -- The sample of a key bears its label.
    sample-label : (x : Labels × ℤ) → sample key client ≡ ok x → x.0.key ≡ itoa key
    sample-label x h = ground (arith, h)

abbrev pub Distinct : List ℕ → Type 0
Distinct [] = Unit
Distinct (k ∷ ks) = All (λ j. k ≢ j) ks × Distinct ks

-- No label of the list is the key's.
Without : ℕ → Gauges → Type 0
Without k = All (λ (x : Labels × ℤ). x.0.key ≢ itoa k)

module _ {W : World} (still : IsStill W) where
  samples-Without :
      (k : ℕ) (keys : List ℕ) → All (λ j. k ≢ j) keys → Without k (samples still keys).0
  unfolding Without samples
  samples-Without k [] h = tt
  samples-Without k (key ∷ keys) (h, hs) = elim (Option-cases (still.entry key)) [
    | inl e ↦ rw (samples-miss still key keys e) (samples-Without k keys hs)
    | inr (client, e) ↦ elim (Answer-cases (sample still key client)) [
      | inl (x, p) ↦ rw (samples-hit still key keys client e x p) (
        λ q. h (itoa-injective k key (sym q ∙ sample-label still key keys client e x p)),
        samples-Without k keys hs,
      )
      | inr (failure, p) ↦ rw (samples-fail still key keys client e failure p) tt
    ]
  ]

-- No two gauges have the same labels.
abbrev pub Apart : Gauges → Type 0
Apart [] = Unit
Apart (x ∷ xs) = All (λ (y : Labels × ℤ). x.0 ≢ y.0) xs × Apart xs

Without-All :
    (x : Labels × ℤ) (k : ℕ) (xs : Gauges)
    → x.0.key ≡ itoa k
    → Without k xs
    → All (λ (y : Labels × ℤ). x.0 ≢ y.0) xs
unfolding Without
Without-All x k [] e h = tt
Without-All x k (y ∷ ys) e (h, hs) =
    (λ q. h (sym (ap (λ (l : Labels). l.key) q) ∙ e), Without-All x k ys e hs)

pub samples-Apart :
    {W : World} (still : IsStill W) (keys : List ℕ) → Distinct keys → Apart (samples still keys).0
unfolding samples
samples-Apart still [] d = tt
samples-Apart still (key ∷ keys) (d, ds) = elim (Option-cases (still.entry key)) [
  | inl e ↦ rw (samples-miss still key keys e) (samples-Apart still keys ds)
  | inr (client, e) ↦ elim (Answer-cases (sample still key client)) [
    | inl (x, p) ↦ rw (samples-hit still key keys client e x p) (
      Without-All x key _ (sample-label still key keys client e x p)
          (samples-Without still key keys d),
      samples-Apart still keys ds,
    )
    | inr (failure, p) ↦ rw (samples-fail still key keys client e failure p) tt
  ]
]
