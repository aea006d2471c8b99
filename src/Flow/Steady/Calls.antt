-- ===== src/Flow/Steady/Calls.antt =====
-- Calls in such handlers: their answers are known, granted, or a look-up's.
use cluster_api_provider_clo.Flow.Steady.{
  IsFound, Steady, Goes, IsOk, not_ok, Steady-bind_to, Steady-bind, Steady-pure, Steady-or_else,
}
use cluster_api_provider_clo.Vcdutil.{find, found_or_create, found_or, ignore_not_found}
use cluster_api_provider_clo.World.Calls.{Call, Reply}
use cluster_api_provider_clo.Base.{Option, ◌≡◌, ap, some, ◌≢◌, true, arith, none, inl, inr, refl}
use cluster_api_provider_clo.World.{World, Trace}
use cluster_api_provider_clo.World.Types.{Answer, GoError, ok, err, error_of}
use cluster_api_provider_clo.Flow.{◌>>=◌, M, perform, or_else}

module _ (W : World) where
  not_found_of :
      {A : Type 0} (e : GoError) → IsFound W {A = A} (err e) → W.contains_not_found e ≡ true
  not_found_of e (inl h) = absurd (not_ok e h)
  not_found_of e (inr (e', p, q)) = ground arith

module _ (W : World) {O : Type 0} {c : O} where
  pub Steady-perform :
      (call : Call) (Q : Answer (Reply call) → Type 0)
      → ((t : Trace) → Q (W.answer t call))
      → Steady c (perform W call) Q
  unfolding perform
  Steady-perform call Q h = record { at = λ s o. (o, h s.trace) }

  -- A call whose answer is known, or does not matter, and the rest.
  pub Steady-told :
      {A : Type 0} {R : A → O → Type 0} (call : Call) (a : Answer (Reply call))
      (rest : Answer (Reply call) → M O A)
      → ((t : Trace) → W.answer t call ≡ a)
      → Goes c (rest a) R
      → Goes c (perform W call >>= rest) R
  Steady-told call a rest h k = Steady-bind_to _ _ a (Steady-perform call (λ x. x ≡ a) h) k

  pub Steady-any :
      {A : Type 0} {R : A → O → Type 0} (call : Call) (rest : Answer (Reply call) → M O A)
      → ((a : Answer (Reply call)) → Goes c (rest a) R)
      → Goes c (perform W call >>= rest) R
  Steady-any call rest k = Steady-bind _ _ _ (Steady-perform call (λ _. Unit) λ t. tt) λ a _. k a

  -- A call whose error is handled, and the rest.
  pub Steady-ask :
      {A : Type 0} {R : A → O → Type 0} (call : Call) (handle : GoError → M O (Reply call))
      (rest : Reply call → M O A)
      → ((t : Trace) → IsOk (W.answer t call))
      → ((x : Reply call) → Goes c (rest x) R)
      → Goes c (do a ← perform W call; x ← or_else a handle; rest x) R
  Steady-ask call handle rest h k =
      Steady-bind _ _ _ (Steady-perform call IsOk h)
        λ a o. Steady-bind _ _ _ (Steady-or_else a handle o) λ x _. k x

  Steady-found_or :
      {A : Type 0} (a : Answer A) (handle : GoError → M O (Option A))
      → IsFound W a
      → Steady c (found_or W a (ignore_not_found W (error_of a)) handle) (λ _. Unit)
  Steady-found_or (ok x) handle h = Steady-pure _ tt
  Steady-found_or (err e) handle h = rw (not_found_of W e h) (Steady-pure _ tt)

  pub Steady-find :
      (call : Call) (handle : GoError → M O (Option (Reply call)))
      → ((t : Trace) → IsFound W (W.answer t call))
      → Steady c (find W call handle) (λ _. Unit)
  unfolding find
  Steady-find call handle h =
      Steady-bind _ _ _ (Steady-perform call (IsFound W) h) λ a o. Steady-found_or a handle o

  pub Steady-find_ok :
      (call : Call) (handle : GoError → M O (Option (Reply call)))
      → ((t : Trace) → IsOk (W.answer t call))
      → Steady c (find W call handle) (λ o. (x : Reply call) × (o ≡ some x))
  unfolding find
  Steady-find_ok call handle h =
      Steady-bind _ _ _ (Steady-perform call IsOk h) λ a o. Steady-granted a handle o
    where
      Steady-granted :
          (a : Answer (Reply call)) (handle : GoError → M O (Option (Reply call)))
          → IsOk a
          → Steady c
              (found_or W a (ignore_not_found W (error_of a)) handle)
              (λ o. (x : Reply call) × (o ≡ some x))
      Steady-granted (ok x) handle g = Steady-pure _ (x, refl)
      Steady-granted (err e) handle g = absurd (not_ok e g)

  -- What every object that the look-up may find is like.
  pub Steady-find_in :
      (call : Call) (handle : GoError → M O (Option (Reply call))) (Q : Reply call → Type 0)
      → ((t : Trace) → IsFound W (W.answer t call))
      → ((t : Trace) (x : Reply call) → W.answer t call ≡ ok x → Q x)
      → Steady c (find W call handle) (λ o. (x : Reply call) → o ≡ some x → Q x)
  unfolding find
  Steady-find_in call handle Q h q =
      Steady-bind _ _ _
        (Steady-perform call (λ a. IsFound W a × ((x : Reply call) → a ≡ ok x → Q x))
          λ t. (h t, q t))
        λ a (f, g). found_in a handle f g
    where
      found_in :
          (a : Answer (Reply call)) (handle : GoError → M O (Option (Reply call)))
          → IsFound W a
          → ((x : Reply call) → a ≡ ok x → Q x)
          → Steady c
              (found_or W a (ignore_not_found W (error_of a)) handle)
              (λ o. (x : Reply call) → o ≡ some x → Q x)
      found_in (ok x) handle f g =
          Steady-pure _ (λ y e.
            g y (ap (λ (o : Option (Reply call)). elim o [ none ↦ ok x | some z ↦ ok z ]) e))
      found_in (err e) handle f g =
          rw (not_found_of W e f) (Steady-pure _ (λ y k. absurd (missing y k)))
        where
          missing : (y : Reply call) → none ≡ some y → ⊥
          missing y k = ground arith

  pub Steady-found_or_create :
      {A : Type 0} (a : Answer A) (create : M O A)
      → IsFound W a
      → Steady c create (λ _. Unit)
      → Steady c (found_or_create W a create) (λ o. o ≢ none)
  Steady-found_or_create (ok x) create h k = Steady-pure _ (λ e. ground arith)
  Steady-found_or_create (err e) create h k =
      rw (not_found_of W e h) (Steady-bind _ _ _ k λ a _. Steady-pure _ (λ p. ground arith))
