-- ===== src/Flow/Rules.antt =====
-- Invariants of handlers, with one rule for each way to build a handler.
use cluster_api_provider_clo.Base.{
  Bool, true, false, Option, none, some, ◌≡◌, refl, All, if◌then◌else◌, ap,
}
use cluster_api_provider_clo.World.{World, Event}
use cluster_api_provider_clo.World.Types.{GoError, Answer, ok, err}
use cluster_api_provider_clo.World.Calls.{Call}
use cluster_api_provider_clo.Flow.{
  Return, Flow, next, ret, crash, Session, M, pure, return, panic, gets, modify, continue, ◌>>=◌,
  deref, perform, or_else, defer, when_some, or_done,
}

-- `P` holds after `m` if it holds before, however `m` ends.
pub record Preserves {O A : Type 0} (P : Session O → Type 0) (m : M O A) : Type 0 where
  pub at : (s : Session O) → P s → P (m s).1

module _ {O A : Type 0} {P : Session O → Type 0} where
  pub Preserves-pure : (a : A) → Preserves P (pure {O = O} a)
  unfolding pure
  Preserves-pure a = record { at = λ s h. h }

  pub Preserves-return : (r : Return) → Preserves P (return {O = O} {A = A} r)
  unfolding return
  Preserves-return r = record { at = λ s h. h }

  pub Preserves-panic : Preserves P (panic {O = O} {A = A})
  unfolding panic
  Preserves-panic = record { at = λ s h. h }

  pub Preserves-gets : (f : O → A) → Preserves P (gets f)
  unfolding gets
  Preserves-gets f = record { at = λ s h. h }

  pub Preserves-if :
      (b : Bool) (m n : M O A) → Preserves P m → Preserves P n → Preserves P (if b then m else n)
  Preserves-if true m n hm hn = hm
  Preserves-if false m n hm hn = hn

  pub Preserves-deref : (o : Option A) → Preserves P (deref {O = O} o)
  Preserves-deref none = Preserves-panic
  Preserves-deref (some a) = Preserves-pure a

  pub Preserves-or_else :
      (a : Answer A) (handle : GoError → M O A)
      → ((e : GoError) → Preserves P (handle e))
      → Preserves P (or_else a handle)
  Preserves-or_else (ok a) handle h = Preserves-pure a
  Preserves-or_else (err e) handle h = h e

module _ {O A B : Type 0} {P : Session O → Type 0} where
  Preserves-continue :
      (r : Flow A) (s : Session O) (f : A → M O B)
      → ((a : A) → Preserves P (f a))
      → P s
      → P (continue r s f).1
  Preserves-continue (next a) s f hf h = (hf a).at s h
  Preserves-continue (ret r) s f hf h = h
  Preserves-continue crash s f hf h = h

  pub Preserves-bind :
      (m : M O A) (f : A → M O B)
      → Preserves P m
      → ((a : A) → Preserves P (f a))
      → Preserves P (m >>= f)
  unfolding ◌>>=◌
  Preserves-bind m f hm hf = record {
    at = λ s h. let (r, s') = m s in Preserves-continue r s' f hf (hm.at s h);
  }

-- The deferred function runs however the handler ends.
pub Preserves-defer :
    (W : World) {O : Type 0} {P : Session O → Type 0} (patch : M O (Answer (Unit {0})))
    (body : M O Return)
    → Preserves P patch
    → Preserves P body
    → Preserves P (defer W patch body)
unfolding defer
Preserves-defer W patch body hp hb = record { at = λ s h. hp.at (body s).1 (hb.at s h) }

-- Every call made so far passes a test.
pub record OnlyCalls {O : Type 0} (test : Call → Bool) (s : Session O) : Type 0 where
  pub all : All (λ (e : Event). test e.call ≡ true) s.trace

module _ (W : World) {O : Type 0} where
  pub OnlyCalls-perform :
      (test : Call → Bool) (c : Call)
      → test c ≡ true
      → Preserves {O = O} (OnlyCalls test) (perform W c)
  unfolding perform
  OnlyCalls-perform test c h = record { at = λ s o. record { all = (h, o.all) } }

pub OnlyCalls-modify :
    {O : Type 0} (test : Call → Bool) (f : O → O) → Preserves (OnlyCalls test) (modify f)
unfolding modify
OnlyCalls-modify test f = record { at = λ s o. record { all = o.all } }

module _ {O A : Type 0} {P : Session O → Type 0} where
  pub Preserves-when_some :
      (o : Option A) (f : A → M O (Unit {0}))
      → ((a : A) → Preserves P (f a))
      → Preserves P (when_some o f)
  Preserves-when_some none f h = Preserves-pure tt
  Preserves-when_some (some a) f h = h a

  pub Preserves-or_done : (o : Option A) → Preserves P (or_done {O = O} o)
  Preserves-or_done none = Preserves-return _
  Preserves-or_done (some a) = Preserves-pure a

pub ruleset preserves_rules = (
  Preserves-pure, Preserves-return, Preserves-panic, Preserves-gets, Preserves-if, Preserves-deref,
  Preserves-or_else, Preserves-bind, Preserves-when_some, Preserves-or_done, OnlyCalls-perform,
  OnlyCalls-modify, refl,
)

-- A step that goes on, by its result.
pub bind_next :
    {O A B : Type 0} (m : M O A) (f : A → M O B) {s t : Session O} {a : A}
    → m s ≡ (next a, t)
    → (m >>= f) s ≡ f a t
unfolding ◌>>=◌
bind_next m f e = ap (λ (p : Flow _ × Session _). continue p.0 p.1 f) e

-- The same by the outcome alone; and a step that ends early.
module _ {O A B : Type 0} (m : M O A) (f : A → M O B) (s : Session O) where
  pub bind_on : (a : A) → (m s).0 ≡ next a → (m >>= f) s ≡ f a (m s).1
  unfolding ◌>>=◌
  bind_on a e = ap (λ (r : Flow A). continue r (m s).1 f) e

  pub bind_ret : (r : Return) → (m s).0 ≡ ret r → (m >>= f) s ≡ (ret r, (m s).1)
  unfolding ◌>>=◌
  bind_ret r e = ap (λ (x : Flow A). continue x (m s).1 f) e
