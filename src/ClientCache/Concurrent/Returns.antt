-- ===== src/ClientCache/Concurrent/Returns.antt =====
-- No deadlock: a call can always be brought to its end.
use cluster_api_provider_clo.ClientCache.Concurrent.Invariant.{Inside, Inv}
use cluster_api_provider_clo.Api.{ℤ}
use cluster_api_provider_clo.ClientCache.Concurrent.Safety.{update_self, update-other, Reach-Inv}
use cluster_api_provider_clo.World.Types.{Answer, VcdClient, Answer-cases, err, ok}
use cluster_api_provider_clo.ClientCache.{Credentials, cache_key, get_token_remaining_ttl}
use cluster_api_provider_clo.Base.{
  ℕ, ◌≡◌, ◌+◌, none, ◌≢◌, some, sym, refl, ◌<◌, ◌≤◌, arith, ap, String, ◌∙◌, Option-cases, inl, inr,
}
use cluster_api_provider_clo.World.{World}
use mathlib.Core.Path.{subst}
use cluster_api_provider_clo.ClientCache.Concurrent.{
  outside, waiting, looking, logging, dating, adding, leaving, lock, found, missed, logged_in,
  undated, dated, added, unlock, pick, ExpireCache, System, Pc, Step, Shared, Move, Reach,
}

-- Within `n` steps, some way of going on reaches a state with `P`.
pub data Leads {C : Type 0} (W : World) (lru : ExpireCache C) (P : System C → Type 0)
    : ℕ → System C → Type 0 where
  here : {n : ℕ} {s : System C} → P s → Leads W lru P n s
  and_then :
      {k n : ℕ} {s t : System C} → k < n → Step W lru s t → Leads W lru P k t → Leads W lru P n s

-- The call of `i` has returned.
abbrev pub Returned : {C : Type 0} → ℕ → System C → Type 0
Returned i s = (c : Credentials) × (r : Answer VcdClient) × (s.pc i ≡ outside (some (c, r)))

-- It has, the mutex is free, and the others are where they were.
record Freed {C : Type 0} (i : ℕ) (f : ℕ → Pc) (s : System C) : Type 0 where
  returned : Returned i s
  free : s.shared.mutex ≡ none
  others : (k : ℕ) → i ≢ k → s.pc k ≡ f k

module _ {W : World} {C : Type 0} {lru : ExpireCache C} where
  pub Leads-weaken :
      {P : System C → Type 0} {n m : ℕ} {s : System C}
      → n ≤ m
      → Leads W lru P n s
      → Leads W lru P m s
  Leads-weaken h (here p) = here p
  Leads-weaken h (and_then less st l) = and_then (omega arith) st l

  Leads-bind :
      {P Q : System C → Type 0} {n l : ℕ} (m : ℕ) {s : System C}
      → n + m ≤ l
      → Leads W lru P n s
      → ((t : System C) → P t → Leads W lru Q m t)
      → Leads W lru Q l s
  Leads-bind m h (here p) f = Leads-weaken (omega arith) (f _ p)
  Leads-bind {l = l} m h (and_then {k} less st rest) f =
      and_then {k = k + m} (omega arith) st (Leads-bind m (omega arith) rest f)

  -- A goroutine moves on, and the others stay.
  pub go_on :
      {P : System C → Type 0} {i : ℕ} (n : ℕ) (s : System C) {q : Pc} {m : Shared C} (p : Pc)
      → s.pc i ≡ q
      → Move W lru i s.shared q m p
      → ((t : System C)
          → t.shared ≡ m
          → t.pc i ≡ p
          → ((k : ℕ) → i ≢ k → t.pc k ≡ s.pc k)
          → Leads W lru P n t)
      → Leads W lru P (1 + n) s
  go_on {i = i} n s {m = m} p e mv go =
      and_then (omega arith) (pick i (subst (λ q. Move W lru i s.shared q m p) (sym e) mv))
        (go _ refl (update_self s.pc i p) (λ k h. update-other s.pc i k p h))

  -- The deferred unlock, and what leads to it.
  leaving_ends :
      (i : ℕ) (f : ℕ → Pc) (s : System C) (c : Credentials) (r : Answer VcdClient)
      → s.pc i ≡ leaving c r
      → ((k : ℕ) → i ≢ k → s.pc k ≡ f k)
      → Leads W lru (Freed i f) 1 s
  leaving_ends i f s c r e o = go_on 0 s _ e unlock (λ t m p q. here (record {
    returned = (c, r, p);
    free = ap (λ (x : Shared C). x.mutex) m;
    others = λ k h. q k h ∙ o k h;
  }))

  adding_ends :
      (i : ℕ) (f : ℕ → Pc) (s : System C) (c : Credentials) (ttl : ℤ)
      → s.pc i ≡ adding c ttl
      → ((k : ℕ) → i ≢ k → s.pc k ≡ f k)
      → Leads W lru (Freed i f) 2 s
  adding_ends i f s c ttl e o =
      go_on 1 s _ e added (λ t m p q. leaving_ends i f t c _ p (λ k h. q k h ∙ o k h))

  dating_ends :
      (i : ℕ) (f : ℕ → Pc) (s : System C) (c : Credentials) (token : String)
      → s.pc i ≡ dating c token
      → ((k : ℕ) → i ≢ k → s.pc k ≡ f k)
      → Leads W lru (Freed i f) 3 s
  dating_ends i f s c token e o = elim (Answer-cases (get_token_remaining_ttl W 0 token)) [
    | inl (ttl, g) ↦
        go_on 2 s _ e (dated 0 g) (λ t m p q. adding_ends i f t c ttl p (λ k h. q k h ∙ o k h))
    | inr (x, g) ↦ Leads-weaken {n = 2} (omega arith) (
        go_on 1 s _ e (undated 0 g)
          (λ t m p q. leaving_ends i f t c (err x) p (λ k h. q k h ∙ o k h)))
  ]

  logging_ends :
      (i : ℕ) (f : ℕ → Pc) (s : System C) (c : Credentials)
      → s.pc i ≡ logging c
      → ((k : ℕ) → i ≢ k → s.pc k ≡ f k)
      → Leads W lru (Freed i f) 4 s
  logging_ends i f s c e o =
      go_on 3 s _ e (logged_in "") (λ t m p q. dating_ends i f t c "" p (λ k h. q k h ∙ o k h))

  looking_ends :
      (i : ℕ) (f : ℕ → Pc) (s : System C) (c : Credentials)
      → s.pc i ≡ looking c
      → ((k : ℕ) → i ≢ k → s.pc k ≡ f k)
      → Leads W lru (Freed i f) 5 s
  looking_ends i f s c e o = elim (Option-cases (lru.get (cache_key c) s.shared.cache)) [
    | inl g ↦ go_on 4 s _ e (missed g) (λ t m p q. logging_ends i f t c p (λ k h. q k h ∙ o k h))
    | inr (v, g) ↦
        Leads-weaken {n = 2} (omega arith) (
          go_on 1 s _ e (found g) (λ t m p q. leaving_ends i f t c (ok v) p (λ k h. q k h ∙ o k h)))
  ]

  -- Whoever is inside.
  section_ends :
      (i : ℕ) (s : System C) (p : Pc) → Inside p → s.pc i ≡ p → Leads W lru (Freed i s.pc) 5 s
  section_ends i s (looking c) a e = looking_ends i s.pc s c e (λ k h. refl)
  section_ends i s (logging c) a e =
      Leads-weaken {n = 4} (omega arith) (logging_ends i s.pc s c e (λ k h. refl))
  section_ends i s (dating c token) a e =
      Leads-weaken {n = 3} (omega arith) (dating_ends i s.pc s c token e (λ k h. refl))
  section_ends i s (adding c ttl) a e =
      Leads-weaken {n = 2} (omega arith) (adding_ends i s.pc s c ttl e (λ k h. refl))
  section_ends i s (leaving c r) a e =
      Leads-weaken {n = 1} (omega arith) (leaving_ends i s.pc s c r e (λ k h. refl))
  section_ends i s (outside r) a e = absurd a
  section_ends i s (waiting c) a e = absurd a

  waiting_ends :
      (i : ℕ) (s : System C) (c : Credentials)
      → s.pc i ≡ waiting c
      → s.shared.mutex ≡ none
      → Leads W lru (Freed i s.pc) 6 s
  waiting_ends i s c e free = go_on 5 s _ e (lock free) (λ t m p q. looking_ends i s.pc t c p q)

  Freed-Returned :
      {i : ℕ} {f : ℕ → Pc} {n : ℕ} {s : System C}
      → Leads W lru (Freed i f) n s
      → Leads W lru (Returned i) n s
  Freed-Returned (here p) = here p.returned
  Freed-Returned (and_then less st l) = and_then less st (Freed-Returned l)

  -- A goroutine that waits behind a holder.
  behind_ends :
      (i j : ℕ) (s : System C) (c : Credentials)
      → s.pc i ≡ waiting c
      → Inside (s.pc j)
      → Leads W lru (Returned i) 11 s
  behind_ends i j s c e a = Leads-bind 6 (omega arith) (section_ends j s (s.pc j) a refl) (λ t p.
      Freed-Returned
        (waiting_ends i t c (p.others i (λ q. subst Inside (ap s.pc q ∙ e) a) ∙ e) p.free))

-- The goroutine is in a call.
abbrev pub InCall : Pc → Type 0
InCall (outside r) = ⊥
InCall p = Unit

module _ {W : World} {C : Type 0} {lru : ExpireCache C} (i : ℕ) (s : System C)
    (inv : Inv lru s) where
  holder_ends : (p : Pc) → Inside p → s.pc i ≡ p → Leads W lru (Returned i) 11 s
  holder_ends p a e = Leads-weaken {n = 5} (omega arith) (Freed-Returned (section_ends i s p a e))

  call_ends : (p : Pc) → InCall p → s.pc i ≡ p → Leads W lru (Returned i) 11 s
  call_ends (outside r) a e = absurd a
  call_ends (waiting c) a e = elim (Option-cases s.shared.mutex) [
    | inl free ↦ Leads-weaken {n = 6} (omega arith) (Freed-Returned (waiting_ends i s c e free))
    | inr (j, held) ↦ behind_ends i j s c e (inv.holder j held)
  ]
  call_ends (looking c) a e = holder_ends (looking c) tt e
  call_ends (logging c) a e = holder_ends (logging c) tt e
  call_ends (dating c token) a e = holder_ends (dating c token) tt e
  call_ends (adding c ttl) a e = holder_ends (adding c ttl) tt e
  call_ends (leaving c r) a e = holder_ends (leaving c r) tt e

-- From every state that is reached from an empty cache, a goroutine in a call can be brought to
-- its return within eleven steps, though others hold the mutex or wait for it: no order of the
-- steps ends in a deadlock.
pub Reach-can_return :
    {W : World} {C : Type 0} {lru : ExpireCache C} (c : C) (empty : (k : ℕ) → lru.get k c ≡ none)
    {s : System C}
    → Reach W lru c s
    → (i : ℕ) → InCall (s.pc i)
    → Leads W lru (Returned i) 11 s
Reach-can_return c empty {s} r i a = call_ends i s (Reach-Inv c empty r) (s.pc i) a refl
