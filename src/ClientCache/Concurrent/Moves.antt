-- ===== src/ClientCache/Concurrent/Moves.antt =====
-- What a move keeps, of the mover and of the others.
use cluster_api_provider_clo.World.Types.{Answer, VcdClient}
use cluster_api_provider_clo.ClientCache.{Credentials, cache_key, client_of}
use cluster_api_provider_clo.ClientCache.Concurrent.Invariant.{
  Inside, Fits, Owned, LoggedIn, Earned, LoggedIn-Earned,
}
use cluster_api_provider_clo.World.{World}
use cluster_api_provider_clo.Base.{ℕ, Option, ◌≡◌, some, sym, ◌⊎◌, ◌∙◌, inr, ◌≢◌, inl, none, refl}
use mathlib.Core.Path.{subst}
use mathlib.Core.Option.{none-ne-some, some-injective}
use cluster_api_provider_clo.ClientCache.Concurrent.{
  outside, waiting, looking, logging, dating, adding, leaving, call, lock, found, missed, refused,
  logged_in, undated, dated, added, unlock, ExpireCache, Shared, Pc, Move,
}

pub two_holders : {i j : ℕ} {o : Option ℕ} → o ≡ some i → o ≡ some j → i ≡ j
two_holders {i} {j} p q = some-injective i j (sym p ∙ q)

pub Fits-Inside :
    {C : Type 0} (lru : ExpireCache C) (j : ℕ) (m : Shared C) (p : Pc)
    → Inside p
    → Fits lru j m p
    → m.mutex ≡ some j
Fits-Inside lru j m (outside r) a f = absurd a
Fits-Inside lru j m (waiting c) a f = absurd a
Fits-Inside lru j m (looking c) a f = f
Fits-Inside lru j m (logging c) a f = f.0
Fits-Inside lru j m (dating c token) a f = f.0
Fits-Inside lru j m (adding c ttl) a f = f.0
Fits-Inside lru j m (leaving c r) a f = f.0

module _ {W : World} {C : Type 0} {lru : ExpireCache C} where
  -- The mover's own place.
  pub Move-Fits :
      {i : ℕ} {m n : Shared C} {p q : Pc}
      → Move W lru i m p n q
      → Owned lru m
      → Fits lru i m p
      → Fits lru i n q
  Move-Fits (call c) o f = tt
  Move-Fits (lock h) o f = refl
  Move-Fits (found {c} {v} h) o f = (f, o (cache_key c) v h)
  Move-Fits (missed h) o f = (f, h)
  Move-Fits (refused e) o (f, g) = (f, tt)
  Move-Fits (logged_in token) o (f, g) = (f, g, inl (refl, refl))
  Move-Fits (undated t h) o (f, g, a) = (f, tt)
  Move-Fits (dated t h) o f = f
  Move-Fits added o (f, g, h) = (f, h)
  Move-Fits unlock o (f, g) = g

  pub Move-Owned :
      {i : ℕ} {m n : Shared C} {p q : Pc}
      → Move W lru i m p n q
      → Fits lru i m p
      → Owned lru m
      → Owned lru n
  Move-Owned (call c) f o = o
  Move-Owned (lock h) f o = o
  Move-Owned (found h) f o = o
  Move-Owned (missed h) f o = o
  Move-Owned (refused e) f o = o
  Move-Owned (logged_in token) f o = λ k v h. inr (o k v h)
  Move-Owned (undated t h) f o = o
  Move-Owned (dated t h) f o = o
  Move-Owned {m = m} (added {c} {ttl}) (f, g, h) o = λ k v e.
      elim (lru.get-add m.cache (cache_key c) k (client_of c) v ttl e) [
        | inl (p, q) ↦ subst (λ (x : ℕ × VcdClient). LoggedIn m.logins x.0 x.1) (λ j. (p j, q j)) h
        | inr old ↦ o k v old
      ]
  Move-Owned unlock f o = o

  -- A move of one goroutine while another is inside: only a call.
  Move-still :
      {i j : ℕ} {m n : Shared C} {p q : Pc}
      → Move W lru i m p n q
      → Fits lru i m p
      → i ≢ j
      → m.mutex ≡ some j
      → n ≡ m
  Move-still (call c) f h e = refl
  Move-still (lock free) f h e = absurd (none-ne-some _ (sym free ∙ e))
  Move-still (found g) f h e = absurd (h (two_holders f e))
  Move-still (missed g) f h e = absurd (h (two_holders f e))
  Move-still (refused g) f h e = absurd (h (two_holders f.0 e))
  Move-still (logged_in token) f h e = absurd (h (two_holders f.0 e))
  Move-still (undated t g) f h e = absurd (h (two_holders f.0 e))
  Move-still (dated t g) f h e = absurd (h (two_holders f.0 e))
  Move-still added f h e = absurd (h (two_holders f.0 e))
  Move-still unlock f h e = absurd (h (two_holders f.0 e))

  Move-Earned :
      {i : ℕ} {m n : Shared C} {p q : Pc}
      → Move W lru i m p n q
      → (c : Credentials) (r : Answer VcdClient) → Earned m.logins c r
      → Earned n.logins c r
  Move-Earned (call d) c r h = h
  Move-Earned (lock free) c r h = h
  Move-Earned (found g) c r h = h
  Move-Earned (missed g) c r h = h
  Move-Earned (refused g) c r h = h
  Move-Earned {m = m} (logged_in {c = d} token) c r h = LoggedIn-Earned m.logins c r d h
  Move-Earned (undated t g) c r h = h
  Move-Earned (dated t g) c r h = h
  Move-Earned added c r h = h
  Move-Earned unlock c r h = h

  -- The place of another goroutine that is inside.
  Move-Fits-Inside :
      {i j : ℕ} {m n : Shared C} {p q : Pc} (o : Pc)
      → Inside o
      → Move W lru i m p n q
      → Fits lru i m p
      → i ≢ j
      → Fits lru j m o
      → Fits lru j n o
  Move-Fits-Inside {j = j} {m = m} o a mv f h g =
      subst (λ x. Fits lru j x o) (sym (Move-still mv f h (Fits-Inside lru j m o a g))) g

  -- The place of another goroutine.
  pub Move-Fits-other :
      {i j : ℕ} {m n : Shared C} {p q : Pc} (o : Pc)
      → Move W lru i m p n q
      → Fits lru i m p
      → i ≢ j
      → Fits lru j m o
      → Fits lru j n o
  Move-Fits-other (outside none) mv f h g = tt
  Move-Fits-other (outside (some (c, r))) mv f h g = Move-Earned mv c r g
  Move-Fits-other (waiting c) mv f h g = tt
  Move-Fits-other (looking c) mv f h g = Move-Fits-Inside (looking c) tt mv f h g
  Move-Fits-other (logging c) mv f h g = Move-Fits-Inside (logging c) tt mv f h g
  Move-Fits-other (dating c token) mv f h g = Move-Fits-Inside (dating c token) tt mv f h g
  Move-Fits-other (adding c ttl) mv f h g = Move-Fits-Inside (adding c ttl) tt mv f h g
  Move-Fits-other (leaving c r) mv f h g = Move-Fits-Inside (leaving c r) tt mv f h g

  -- Who holds the mutex after a move: the mover, who is inside, or nobody, or who held it before.
  pub Move-holder :
      {i : ℕ} {m n : Shared C} {p q : Pc}
      → Move W lru i m p n q
      → (j : ℕ) → n.mutex ≡ some j
      → ((i ≡ j) × Inside q) ⊎ ((m.mutex ≡ some j) × (Inside p → Inside q))
  Move-holder (call c) j e = inr (e, λ a. absurd a)
  Move-holder (lock {c} free) j e = inl (some-injective _ j e, tt)
  Move-holder (found g) j e = inr (e, λ a. tt)
  Move-holder (missed g) j e = inr (e, λ a. tt)
  Move-holder (refused g) j e = inr (e, λ a. tt)
  Move-holder (logged_in token) j e = inr (e, λ a. tt)
  Move-holder (undated t g) j e = inr (e, λ a. tt)
  Move-holder (dated t g) j e = inr (e, λ a. tt)
  Move-holder added j e = inr (e, λ a. tt)
  Move-holder unlock j e = absurd (none-ne-some j e)
