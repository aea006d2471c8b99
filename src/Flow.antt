-- ===== src/Flow.antt =====
-- A handler of the controllers: it works on an object in memory, makes calls, and may return
-- early or crash on a nil pointer. `defer` runs in both cases.
pub mod Rules
pub mod Triples
pub mod Steady
use cluster_api_provider_clo.Base.{ℕ, Bool, true, false, Option, none, some, [], ◌∷◌, if◌then◌else◌}
use cluster_api_provider_clo.World.{World, Trace}
use cluster_api_provider_clo.World.Types.{GoError, Answer, ok, err, error_of, value_of}
use cluster_api_provider_clo.World.Calls.{Call, Reply}

-- `(ctrl.Result, error)`, with the delay in seconds.
pub record Return : Type 0 where
  pub requeue_after : ℕ
  pub error : Option GoError

abbrev pub done : Return
done = record { requeue_after = 0; error = none }

abbrev pub requeue : ℕ → Return
requeue n = record { requeue_after = n; error = none }

abbrev pub failed : GoError → Return
failed e = record { requeue_after = 0; error = some e }

pub data Flow (A : Type 0) : Type 0 where
  next : A → Flow A
  ret : Return → Flow A
  crash : Flow A

-- The object that the handler mutates, and the calls made so far.
pub record Session (O : Type 0) : Type 0 where
  pub object : O
  pub trace : Trace

abbrev pub M : Type 0 → Type 0 → Type 0
M O A = Session O → Flow A × Session O

module _ {O A : Type 0} where
  pub pure : A → M O A
  pure a s = (next a, s)

  pub return : Return → M O A
  return r s = (ret r, s)

  -- The use of a nil pointer.
  pub panic : M O A
  panic s = (crash, s)

  pub gets : (O → A) → M O A
  gets f s = (next (f s.object), s)

pub modify : {O : Type 0} → (O → O) → M O (Unit {0})
modify f s = (next tt, record s { object = f s.object })

module _ {O A B : Type 0} where
  abbrev pub continue : Flow A → Session O → (A → M O B) → Flow B × Session O
  continue (next a) s f = f a s
  continue (ret r) s f = (ret r, s)
  continue crash s f = (crash, s)

  infixl 10 ◌>>=◌ ◌>>◌
  -- opening this opens the actions above too
  unfoldable pub ◌>>=◌ : M O A → (A → M O B) → M O B
  unfolding pure return panic gets modify
  ◌>>=◌ m f s = let (r, s') = m s in continue r s' f

  abbrev pub ◌>>◌ : M O A → M O B → M O B
  m >> n = m >>= λ _. n

-- A dereference.
abbrev pub deref : {O A : Type 0} → Option A → M O A
deref none = panic
deref (some a) = pure a

module _ (W : World) {O : Type 0} where
  -- Makes a call; its error is the caller's to look at.
  unfoldable pub perform : (c : Call) → M O (Answer (Reply c))
  perform c s =
      let a = W.answer s.trace c in
      (next a, record s { trace = (record { call = c; error = error_of a }) ∷ s.trace })

-- `if err != nil { ... }` after a call.
abbrev pub or_else : {O A : Type 0} → Answer A → (GoError → M O A) → M O A
or_else (ok a) handle = pure a
or_else (err e) handle = handle e

-- The deferred function: its error is joined to the handler's, whose delay is dropped. A crash
-- goes on after it.
settle : World → Flow Return → Flow (Answer (Unit {0})) → Flow Return
settle W crash p = crash
settle W (next r) (next (err e)) =
    ret (record { requeue_after = 0; error = W.new_aggregate (r.error ∷ some e ∷ []) })
settle W (ret r) (next (err e)) =
    ret (record { requeue_after = 0; error = W.new_aggregate (r.error ∷ some e ∷ []) })
settle W (next r) p = ret r
settle W (ret r) p = ret r

unfoldable pub defer : World → {O : Type 0} → M O (Answer (Unit {0})) → M O Return → M O Return
unfolding settle
defer W patch body s = let (r, s') = body s in let (p, s'') = patch s' in (settle W r p, s'')

-- `return ctrl.Result{RequeueAfter: time.Minute}, nil` and `return ctrl.Result{}, err`.
abbrev pub retry : {O A : Type 0} → GoError → M O A
retry e = return (requeue 60)

abbrev pub fail : {O A : Type 0} → GoError → M O A
fail e = return (failed e)

-- `if x != nil { ... }`
abbrev pub when_some : {O A : Type 0} → Option A → (A → M O (Unit {0})) → M O (Unit {0})
when_some none f = pure tt
when_some (some a) f = f a

-- `if x == nil { return ctrl.Result{}, nil }`
abbrev pub or_done : {O A : Type 0} → Option A → M O A
or_done none = return done
or_done (some a) = pure a
