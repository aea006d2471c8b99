-- ===== src/Inventory/Seek.antt =====
-- Rules for handlers that look a thing up before they make it.
use cluster_api_provider_clo.Vcdutil.{found_or_create, find, or_create, found_or, ignore_not_found}
use cluster_api_provider_clo.Flow.Rules.{Preserves, Preserves-bind, Preserves-pure}
use cluster_api_provider_clo.World.Types.{GoError, Answer, ok, err, Answer-cases, error_of}
use cluster_api_provider_clo.Base.{
  Option, ◌∷◌, ◌≡◌, Bool-cases, none, inl, some, inr, sym, ◌∙◌, true, false, Bool, if◌then◌else◌,
}
use cluster_api_provider_clo.World.{World}
use cluster_api_provider_clo.World.Calls.{Call, Reply}
use cluster_api_provider_clo.Flow.{◌>>=◌, Session, perform, M, pure, Return, return}
use cluster_api_provider_clo.Inventory.{Thing, thing_of, made_by, Remembers, sought_by}
use mathlib.Core.Bool.{true≢false}
use mathlib.Core.Option.{none-ne-some}
use cluster_api_provider_clo.Inventory.Rules.{
  Once, Awaits, Makes, made_by-none, Makes-then, Unmade-or,
}

module _ (W : World) {O B : Type 0} (x : Thing) (c : Call) (f : Answer (Reply c) → M O B) where
  -- The look-up at a session, by its three outcomes.
  abbrev pub looked : Option GoError → Session O → Session O
  looked error s = record s { trace = (record { call = c; error = error }) ∷ s.trace }

  nothing_made :
      (error : Option GoError) (y : Thing)
      → thing_of c ≡ none
      → made_by (record { call = c; error = error }) ≡ some y
      → ⊥
  nothing_made error y nothing p = none-ne-some y (sym (made_by-none c error nothing) ∙ p)

  still :
      (s : Session O) (error : Option GoError) → thing_of c ≡ none → Once s → Once (looked error s)
  still s error nothing o = record {
    once = (λ y p. absurd (nothing_made error y nothing p), o.once);
  }

  pub Once-seek_at :
      (s : Session O)
      → Remembers W
      → sought_by c ≡ some x
      → thing_of c ≡ none
      → ((v : Reply c) → Once (looked none s) → Once (f (ok v) (looked none s)).1)
      → ((e : GoError)
          → W.contains_not_found e ≡ true
          → Awaits x (looked (some e) s)
          → Once (f (err e) (looked (some e) s)).1)
      → ((e : GoError)
          → W.contains_not_found e ≡ false
          → Once (looked (some e) s)
          → Once (f (err e) (looked (some e) s)).1)
      → Once s
      → Once ((perform W c >>= f) s).1
  unfolding perform ◌>>=◌
  Once-seek_at s remembers sought nothing found missing failed o =
      elim (Answer-cases (W.answer s.trace c)) [
        | inl (v, q) ↦ rw (q) (found v (still s none nothing o))
        | inr (e, q) ↦ elim (Bool-cases (W.contains_not_found e)) [
          | inr h ↦ rw (q) (failed e h (still s (some e) nothing o))
          | inl h ↦ rw (q) (
              missing e h (record {
                once = (still s (some e) nothing o).once;
                unmade = inr (
                  λ p. nothing_made (some e) x nothing p,
                  Unmade-or x s.trace
                      (λ m. true≢false (sym h ∙ remembers.found s.trace c x e sought m q)),
                );
              }))
        ]
      ]

  pub Once-seek :
      Remembers W
      → sought_by c ≡ some x
      → thing_of c ≡ none
      → ((v : Reply c) → Preserves Once (f (ok v)))
      → ((e : GoError) → W.contains_not_found e ≡ true → Makes x (f (err e)))
      → ((e : GoError) → W.contains_not_found e ≡ false → Preserves Once (f (err e)))
      → Preserves Once (perform W c >>= f)
  Once-seek remembers sought nothing found missing failed = record {
    at = λ s.
        Once-seek_at s remembers sought nothing (λ v. (found v).at _) (λ e h. (missing e h).at _)
          (λ e h. (failed e h).at _);
  }

module _ (W : World) {O B : Type 0} (remembers : Remembers W) (x : Thing) (c : Call)
    (create : M O (Reply c)) (makes : Makes x create) where
  Makes-if :
      (b : Bool) (rest : Option (Reply c) → M O B)
      → b ≡ true
      → ((found : Option (Reply c)) → Preserves Once (rest found))
      → Makes x ((if b then (do a ← create; pure (some a)) else pure none) >>= rest)
  Makes-if true rest h k =
      Makes-then x _ rest (Makes-then x create _ makes λ a. Preserves-pure (some a)) k
  Makes-if false rest h k = absurd (true≢false (sym h))

  Once-if :
      (b : Bool) (rest : Option (Reply c) → M O B)
      → b ≡ false
      → ((found : Option (Reply c)) → Preserves Once (rest found))
      → Preserves Once ((if b then (do a ← create; pure (some a)) else pure none) >>= rest)
  Once-if true rest h k = absurd (true≢false h)
  Once-if false rest h k = Preserves-bind _ rest (Preserves-pure none) k

  pub Once-found_or_create :
      (rest : Option (Reply c) → M O B)
      → sought_by c ≡ some x
      → thing_of c ≡ none
      → ((found : Option (Reply c)) → Preserves Once (rest found))
      → Preserves Once (do a ← perform W c; found ← found_or_create W a create; rest found)
  Once-found_or_create rest sought nothing k =
      Once-seek W x c _ remembers sought nothing
        (λ v. Preserves-bind _ rest (Preserves-pure (some v)) k) (λ e h. Makes-if _ rest h k)
        (λ e h. Once-if _ rest h k)

module _ (W : World) {O : Type 0} (remembers : Remembers W) (x : Thing) (c : Call)
    (create : M O (Reply c)) (makes : Makes x create) where
  pub Once-found_or_create_last :
      sought_by c ≡ some x
      → thing_of c ≡ none
      → Preserves Once (do a ← perform W c; found_or_create W a create)
  Once-found_or_create_last sought nothing =
      Once-seek W x c _ remembers sought nothing (λ v. Preserves-pure (some v)) (λ e h. make _ h)
        (λ e h. pass _ h)
    where
      make :
          (b : Bool) → b ≡ true → Makes x (if b then (do a ← create; pure (some a)) else pure none)
      make true h = Makes-then x create _ makes λ a. Preserves-pure (some a)
      make false h = absurd (true≢false (sym h))

      pass :
          (b : Bool)
          → b ≡ false
          → Preserves Once (if b then (do a ← create; pure (some a)) else pure none)
      pass true h = absurd (true≢false h)
      pass false h = Preserves-pure none

  pub Once-find_or_create :
      (handle : GoError → Return)
      → sought_by c ≡ some x
      → thing_of c ≡ none
      → Preserves Once (do found ← find W c (λ e. return (handle e)); or_create found create)
  unfolding find perform ◌>>=◌
  Once-find_or_create handle sought nothing = record {
    at =
        (Once-seek W x c
          (λ a. found_or W a (ignore_not_found W (error_of a)) (λ e. return (handle e)) >>= λ found.
            or_create found create)
          remembers sought nothing (λ v. record { at = λ s o. o }) (λ e h. make e _ h)
          (λ e h. pass e _ h)).at;
  }
    where
      make :
          (e : GoError) (b : Bool)
          → b ≡ true
          → Makes x (
              found_or W (err e) (if b then none else some e) (λ e. return (handle e)) >>= λ found.
              or_create found create)
      make e true h = record { at = makes.at }
      make e false h = absurd (true≢false (sym h))

      pass :
          (e : GoError) (b : Bool)
          → b ≡ false
          → Preserves Once (
              found_or W (err e) (if b then none else some e) (λ e. return (handle e)) >>= λ found.
              or_create found create)
      pass e true h = absurd (true≢false h)
      pass e false h = record { at = λ s o. o }
