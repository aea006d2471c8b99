-- ===== src/Flow/Triples.antt =====
-- Handlers before and after: what holds when a handler goes on, and when it ends early.
use cluster_api_provider_clo.Flow.Rules.{Preserves}
use cluster_api_provider_clo.Flow.{Flow, next, ret, crash, Session, M, continue, ◌>>=◌}

-- `Q` if the handler goes on with a value, `X` if it returned or crashed.
abbrev pub Post :
    {O A : Type 0} → (A → Session O → Type 0) → (Session O → Type 0) → Flow A → Session O → Type 0
Post Q X (next a) s = Q a s
Post Q X (ret r) s = X s
Post Q X crash s = X s

pub record Triple {O A : Type 0} (P : Session O → Type 0) (m : M O A) (Q : A → Session O → Type 0)
    (X : Session O → Type 0) : Type 0 where
  pub at : (s : Session O) → P s → Post Q X (m s).0 (m s).1

module _ {O A B : Type 0} {R : A → Session O → Type 0} {Q : B → Session O → Type 0}
    {X : Session O → Type 0} where
  Post-continue :
      (r : Flow A) (s : Session O) (f : A → M O B)
      → Post R X r s
      → ((a : A) → Triple (R a) (f a) Q X)
      → Post Q X (continue r s f).0 (continue r s f).1
  Post-continue (next a) s f h k = (k a).at s h
  Post-continue (ret r) s f h k = h
  Post-continue crash s f h k = h

  pub Triple-bind :
      {P : Session O → Type 0} (m : M O A) (f : A → M O B)
      → Triple P m R X
      → ((a : A) → Triple (R a) (f a) Q X)
      → Triple P (m >>= f) Q X
  unfolding ◌>>=◌
  Triple-bind m f hm hf = record {
    at = λ s h. let (r, s') = m s in Post-continue r s' f (hm.at s h) hf;
  }

module _ {O A : Type 0} where
  Post-keep :
      (Q : A → Session O → Type 0) (X K : Session O → Type 0) (r : Flow A) (s : Session O)
      → Post Q X r s
      → K s
      → Post (λ a t. Q a t × K t) X r s
  Post-keep Q X K (next a) s h k = (h, k)
  Post-keep Q X K (ret r) s h k = h
  Post-keep Q X K crash s h k = h

  -- What the handler preserves is carried along.
  pub Triple-keep :
      {P : Session O → Type 0} {Q : A → Session O → Type 0} {X : Session O → Type 0}
      (K : Session O → Type 0) (m : M O A)
      → Triple P m Q X
      → Preserves K m
      → Triple (λ s. P s × K s) m (λ a s. Q a s × K s) X
  Triple-keep {Q} {X} K m h k = record {
    at = λ s p. Post-keep Q X K (m s).0 (m s).1 (h.at s p.0) (k.at s p.1);
  }

  Post-of_prop : (P : Session O → Type 0) (r : Flow A) (s : Session O) → P s → Post (λ _. P) P r s
  Post-of_prop P (next a) s h = h
  Post-of_prop P (ret r) s h = h
  Post-of_prop P crash s h = h

  pub Triple-of_Preserves :
      {P : Session O → Type 0} (m : M O A) → Preserves P m → Triple P m (λ _. P) P
  Triple-of_Preserves {P} m k = record { at = λ s p. Post-of_prop P (m s).0 (m s).1 (k.at s p) }

-- A first step that preserves the one invariant of before and of an early end.
pub Triple-after :
    {O A B : Type 0} {P : Session O → Type 0} {Q : B → Session O → Type 0} (m : M O A)
    (f : A → M O B)
    → Preserves P m
    → ((a : A) → Triple P (f a) Q P)
    → Triple P (m >>= f) Q P
Triple-after m f hm hf = Triple-bind m f (Triple-of_Preserves m hm) hf
