-- ===== src/Inventory/Rules.antt =====
-- Rules for what a handler makes.
use cluster_api_provider_clo.Flow.Rules.{Preserves}
use cluster_api_provider_clo.Cluster.Kinds.{is_removal}
use cluster_api_provider_clo.World.Types.{GoError, Answer}
use cluster_api_provider_clo.Base.{
  Option, ◌∷◌, ◌≡◌, Bool-cases, none, inl, some, inr, refl, [], sym, ◌∙◌,
}
use cluster_api_provider_clo.World.{World, Trace}
use cluster_api_provider_clo.World.Calls.{Call, Reply}
use cluster_api_provider_clo.Flow.{
  continue, ◌>>=◌, Session, modify, perform, M, Flow, next, ret, crash,
}
use cluster_api_provider_clo.Inventory.{Thing, MadeOnce, Made, Unmade, thing_of, made_by}
use mathlib.Core.Option.{none-ne-some, some-injective}
use mathlib.Core.Path.{subst}

pub Unmade-or : (x : Thing) (t : Trace) → (Made x t → ⊥) → Unmade x t
Unmade-or x [] h = tt
Unmade-or x (e ∷ t) h = elim (Bool-cases (is_removal e.call)) [
  | inl r ↦ inl r
  | inr r ↦ inr (λ p. h (r, inl p), Unmade-or x t (λ m. h (r, inr m)))
]

-- What a session's trace has made.
pub record Once {O : Type 0} (s : Session O) : Type 0 where
  pub once : MadeOnce s.trace

-- The same, and the thing has not been made.
pub record Awaits {O : Type 0} (x : Thing) (s : Session O) : Type 0 where
  pub once : MadeOnce s.trace
  pub unmade : Unmade x s.trace

pub made_by-none :
    (c : Call) (error : Option GoError)
    → thing_of c ≡ none
    → made_by (record { call = c; error = error }) ≡ none
made_by-none c none h = h
made_by-none c (some e) h = refl

module _ (W : World) {O : Type 0} where
  -- A call that makes nothing.
  pub Once-perform : (c : Call) → thing_of c ≡ none → Preserves {O = O} Once (perform W c)
  unfolding perform
  Once-perform c h = record {
    at = λ s o. record {
      once = (λ x p. absurd (none-ne-some x (sym (made_by-none c _ h) ∙ p)), o.once);
    };
  }

  pub Awaits-perform :
      (x : Thing) (c : Call) → thing_of c ≡ none → Preserves {O = O} (Awaits x) (perform W c)
  unfolding perform
  Awaits-perform x c h = record {
    at = λ s o. record {
      once = (λ y p. absurd (none-ne-some y (sym (made_by-none c _ h) ∙ p)), o.once);
      unmade = inr (λ p. none-ne-some x (sym (made_by-none c _ h) ∙ p), o.unmade);
    };
  }

pub Once-modify : {O : Type 0} (f : O → O) → Preserves Once (modify f)
unfolding ◌>>=◌
Once-modify f = record { at = λ s o. record { once = o.once } }

pub Awaits-modify : {O : Type 0} (x : Thing) (f : O → O) → Preserves (Awaits x) (modify f)
unfolding ◌>>=◌
Awaits-modify x f = record { at = λ s o. record { once = o.once; unmade = o.unmade } }

-- A handler that may make the thing, when it has not been made.
pub record Makes {O A : Type 0} (x : Thing) (m : M O A) : Type 0 where
  pub at : (s : Session O) → Awaits x s → Once (m s).1

Awaits-Once : {O : Type 0} (x : Thing) (s : Session O) → Awaits x s → Once s
Awaits-Once x s h = record { once = h.once }

module _ {O A B : Type 0} (x : Thing) where
  Makes-continue :
      (r : Flow A) (s : Session O) (f : A → M O B)
      → ((a : A) → Makes x (f a))
      → Awaits x s
      → Once (continue r s f).1
  Makes-continue (next a) s f hf h = (hf a).at s h
  Makes-continue (ret r) s f hf h = Awaits-Once x s h
  Makes-continue crash s f hf h = Awaits-Once x s h

  pub Makes-bind :
      (m : M O A) (f : A → M O B)
      → Preserves (Awaits x) m
      → ((a : A) → Makes x (f a))
      → Makes x (m >>= f)
  unfolding ◌>>=◌
  Makes-bind m f hm hf = record {
    at = λ s h. let (r, s') = m s in Makes-continue r s' f hf (hm.at s h);
  }

pub Makes-Once : {O A : Type 0} (x : Thing) (m : M O A) → Preserves Once m → Makes x m
Makes-Once x m h = record { at = λ s a. h.at s (Awaits-Once x s a) }

-- The creation.
made_by-other :
    (c : Call) (x y : Thing) (error : Option GoError)
    → thing_of c ≡ some x
    → made_by (record { call = c; error = error }) ≡ some y
    → x ≡ y
made_by-other c x y none h p = some-injective x y (sym h ∙ p)
made_by-other c x y (some e) h p = absurd (none-ne-some y p)

module _ (W : World) {O B : Type 0} (x : Thing) (c : Call) (f : Answer (Reply c) → M O B) where
  pub Makes-perform :
      thing_of c ≡ some x
      → ((a : Answer (Reply c)) → Preserves Once (f a))
      → Makes x (perform W c >>= f)
  unfolding perform ◌>>=◌
  Makes-perform h hf = record {
    at = λ s a. (hf _).at _ (record {
      once = (λ y p. subst (λ z. Unmade z s.trace) (made_by-other c x y _ h p) a.unmade, a.once);
    });
  }

module _ {O A B : Type 0} (x : Thing) where
  Once-continue :
      (r : Flow A) (s : Session O) (f : A → M O B)
      → ((a : A) → Preserves Once (f a))
      → Once s
      → Once (continue r s f).1
  Once-continue (next a) s f hf h = (hf a).at s h
  Once-continue (ret r) s f hf h = h
  Once-continue crash s f hf h = h

  -- The thing is made first.
  pub Makes-then :
      (m : M O A) (f : A → M O B) → Makes x m → ((a : A) → Preserves Once (f a)) → Makes x (m >>= f)
  unfolding ◌>>=◌
  Makes-then m f hm hf = record { at = λ s h. Once-continue (m s).0 (m s).1 f hf (hm.at s h) }

-- The two idioms around a creation.
