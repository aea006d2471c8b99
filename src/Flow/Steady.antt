-- ===== src/Flow/Steady.antt =====
-- Handlers that go on and leave the object alone, while the world answers what is asked.
pub mod Calls
use cluster_api_provider_clo.Vcdutil.{find, found_or_create, or_create, found_or, ignore_not_found}
use cluster_api_provider_clo.World.Calls.{Call, Reply}
use cluster_api_provider_clo.Flow.Triples.{Post}
use cluster_api_provider_clo.Base.{
  Option, ◌≡◌, ◌⊎◌, ap, some, ◌≢◌, true, arith, none, inl, inr, sym, Bool, if◌then◌else◌, false,
  refl,
}
use cluster_api_provider_clo.World.{World, Trace}
use cluster_api_provider_clo.World.Types.{Answer, GoError, ok, err, error_of}
use mathlib.Core.Path.{subst}
use cluster_api_provider_clo.Flow.{
  continue, ◌>>=◌, ◌>>◌, Session, M, pure, gets, Flow, perform, or_else, deref, next, ret, crash,
  modify, or_done, when_some,
}

-- The call was answered, and what a look-up makes of its answer.
abbrev pub IsOk : {A : Type 0} → Answer A → Type 0
IsOk {A} a = (x : A) × (a ≡ ok x)

abbrev pub IsFound : World → {A : Type 0} → Answer A → Type 0
IsFound W a = IsOk a ⊎ ((e : GoError) × (a ≡ err e) × (W.contains_not_found e ≡ true))

-- From an object on, the handler goes on with a value and an object in `Q`.
pub record Goes {O A : Type 0} (c : O) (m : M O A) (Q : A → O → Type 0) : Type 0 where
  pub at : (s : Session O) → s.object ≡ c → Post (λ a t. Q a t.object) (λ _. ⊥) (m s).0 (m s).1

-- It goes on with a value in `Q` and leaves the object alone.
abbrev pub Steady : {O A : Type 0} → O → M O A → (A → Type 0) → Type 0
Steady c m Q = Goes c m (λ a o. (o ≡ c) × Q a)

pub not_ok : {A : Type 0} (e : GoError) → IsOk {A = A} (err e) → ⊥
not_ok e (x, p) = cc

Post-weaken :
    {O A : Type 0} (Q R : A → O → Type 0) (r : Flow A) (s : Session O)
    → Post (λ a t. Q a t.object) (λ _. ⊥) r s
    → ((a : A) (o : O) → Q a o → R a o)
    → Post (λ a t. R a t.object) (λ _. ⊥) r s
Post-weaken Q R (next a) s h k = k a s.object h
Post-weaken Q R (ret r) s h k = h
Post-weaken Q R crash s h k = h

Post-Goes :
    {O A B : Type 0} (Q : A → O → Type 0) (R : B → O → Type 0) (r : Flow A) (s : Session O)
    (f : A → M O B)
    → Post (λ a t. Q a t.object) (λ _. ⊥) r s
    → ((a : A) (o : O) → Q a o → Goes o (f a) R)
    → Post (λ b t. R b t.object) (λ _. ⊥) (continue r s f).0 (continue r s f).1
Post-Goes Q R (next a) s f h k = (k a s.object h).at s refl
Post-Goes Q R (ret r) s f h k = absurd h
Post-Goes Q R crash s f h k = absurd h

module _ {O : Type 0} {c : O} where
  pub Steady-pure : {A : Type 0} {Q : A → Type 0} (a : A) → Q a → Steady c (pure a) Q
  unfolding ◌>>=◌
  Steady-pure a q = record { at = λ s h. (h, q) }

  pub Steady-gets : {A : Type 0} (f : O → A) → Steady c (gets f) (λ a. a ≡ f c)
  unfolding ◌>>=◌
  Steady-gets f = record { at = λ s h. (h, ap f h) }

  Post-bind :
      {A B : Type 0} (Q : A → Type 0) (R : B → O → Type 0) (r : Flow A) (s : Session O)
      (f : A → M O B)
      → Post (λ a t. (t.object ≡ c) × Q a) (λ _. ⊥) r s
      → ((a : A) → Q a → Goes c (f a) R)
      → Post (λ b t. R b t.object) (λ _. ⊥) (continue r s f).0 (continue r s f).1
  Post-bind Q R (next a) s f h k = (k a h.1).at s h.0
  Post-bind Q R (ret r) s f h k = absurd h
  Post-bind Q R crash s f h k = absurd h

  pub Steady-bind :
      {A B : Type 0} (Q : A → Type 0) {R : B → O → Type 0} (m : M O A) (f : A → M O B)
      → Steady c m Q
      → ((a : A) → Q a → Goes c (f a) R)
      → Goes c (m >>= f) R
  unfolding ◌>>=◌
  Steady-bind Q {R} m f hm hf = record {
    at = λ s h. Post-bind Q R (m s).0 (m s).1 f (hm.at s h) hf;
  }

  -- A step that may change the object, and the rest from whatever object it leaves.
  pub Goes-bind :
      {A B : Type 0} (Q : A → O → Type 0) {R : B → O → Type 0} (m : M O A) (f : A → M O B)
      → Goes c m Q
      → ((a : A) (o : O) → Q a o → Goes o (f a) R)
      → Goes c (m >>= f) R
  unfolding ◌>>=◌
  Goes-bind Q {R} m f hm hf = record { at = λ s h. Post-Goes Q R (m s).0 (m s).1 f (hm.at s h) hf }

  pub Goes-modify :
      {A : Type 0} {R : A → O → Type 0} (f : O → O) (rest : M O A)
      → Goes (f c) rest R
      → Goes c (modify f >> rest) R
  unfolding ◌>>=◌
  Goes-modify f rest h = record { at = λ s e. h.at (record s { object = f s.object }) (ap f e) }

  pub Goes-pure : {A : Type 0} (R : A → O → Type 0) (a : A) → R a c → Goes c (pure a) R
  unfolding ◌>>=◌
  Goes-pure R a r = record { at = λ s e. subst (λ o. R a o) (sym e) r }

  pub Goes-weaken :
      {A : Type 0} {Q : A → O → Type 0} (R : A → O → Type 0) (m : M O A)
      → Goes c m Q
      → ((a : A) (o : O) → Q a o → R a o)
      → Goes c m R
  Goes-weaken {Q} R m h k = record { at = λ s e. Post-weaken Q R (m s).0 (m s).1 (h.at s e) k }

  -- The value is known.
  pub Steady-bind_to :
      {A B : Type 0} {R : B → O → Type 0} (m : M O A) (f : A → M O B) (v : A)
      → Steady c m (λ a. a ≡ v)
      → Goes c (f v) R
      → Goes c (m >>= f) R
  Steady-bind_to {R} m f v hm hf =
      Steady-bind _ m f hm λ a e. subst (λ x. Goes c (f x) R) (sym e) hf

  pub Steady-deref :
      {A : Type 0} (o : Option A) (a : A) → o ≡ some a → Steady c (deref o) (λ x. x ≡ a)
  Steady-deref none a e = absurd (missing e)
    where
      missing : none ≡ some a → ⊥
      missing h = ground arith
  Steady-deref (some x) a e = Steady-pure x (ground arith)

  pub Steady-or_done :
      {A : Type 0} (o : Option A) (a : A) → o ≡ some a → Steady c (or_done o) (λ x. x ≡ a)
  Steady-or_done none a e = absurd (missing e)
    where
      missing : none ≡ some a → ⊥
      missing h = ground arith
  Steady-or_done (some x) a e = Steady-pure x (ground arith)

  pub Steady-or_else :
      {A : Type 0} (a : Answer A) (handle : GoError → M O A)
      → IsOk a
      → Steady c (or_else a handle) (λ _. Unit)
  Steady-or_else (ok x) handle h = Steady-pure x tt
  Steady-or_else (err e) handle h = absurd (not_ok e h)

module _ {O : Type 0} {c : O} where
  pub Steady-when_some :
      {A : Type 0} (o : Option A) (f : A → M O (Unit {0}))
      → ((a : A) → Steady c (f a) (λ _. Unit))
      → Steady c (when_some o f) (λ _. Unit)
  Steady-when_some none f h = Steady-pure tt tt
  Steady-when_some (some a) f h = h a

  pub Steady-when_some_in :
      {A : Type 0} (o : Option A) (f : A → M O (Unit {0}))
      → ((a : A) → o ≡ some a → Steady c (f a) (λ _. Unit))
      → Steady c (when_some o f) (λ _. Unit)
  Steady-when_some_in none f h = Steady-pure tt tt
  Steady-when_some_in (some a) f h = h a refl

  pub Steady-if :
      {A : Type 0} {Q : A → Type 0} (b : Bool) (m n : M O A)
      → Steady c m Q
      → Steady c n Q
      → Steady c (if b then m else n) Q
  Steady-if true m n h k = h
  Steady-if false m n h k = k

pub Steady-or_create :
    {O A : Type 0} {c : O} (o : Option A) (create : M O A)
    → Steady c create (λ _. Unit)
    → Steady c (or_create o create) (λ _. Unit)
Steady-or_create none create h = h
Steady-or_create (some a) create h = Steady-pure a tt

-- What a run of a handler that goes on comes to.
pub Goes-run :
    {O A : Type 0} {Q : A → O → Type 0} (m : M O A) (s : Session O)
    → Goes s.object m Q
    → (a : A) × ((m s).0 ≡ next a) × Q a (m s).1.object
Goes-run {O} {A} {Q} m s h = ended (m s).0 (m s).1 (h.at s refl)
  where
    ended :
        (f : Flow A) (t : Session O)
        → Post (λ a u. Q a u.object) (λ _. ⊥) f t
        → (a : A) × (f ≡ next a) × Q a t.object
    ended (next a) t p = (a, refl, p)
    ended (ret r) t p = absurd p
    ended crash t p = absurd p
