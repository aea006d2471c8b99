-- ===== src/ClientCache/Concurrent/Invariant.antt =====
-- Who holds the mutex, and what the goroutine inside knows of the cache.
use cluster_api_provider_clo.World.Types.{Answer, VcdClient, err, ok}
use cluster_api_provider_clo.ClientCache.{Credentials, cache_key, client_of}
use cluster_api_provider_clo.Base.{List, ℕ, some, Any, ◌≡◌, ◌∷◌, inr, none}
use cluster_api_provider_clo.ClientCache.Concurrent.{
  outside, waiting, looking, logging, dating, adding, leaving, ExpireCache, Shared, Pc, System,
}

-- A login under this key gave this client.
abbrev pub LoggedIn : List Credentials → ℕ → VcdClient → Type 0
LoggedIn logins k v = Any (λ (c : Credentials). (cache_key c ≡ k) × (client_of c ≡ v)) logins

-- A client that is answered is one that a login gave.
abbrev pub Earned : List Credentials → Credentials → Answer VcdClient → Type 0
Earned logins c (err e) = Unit
Earned logins c (ok v) = LoggedIn logins (cache_key c) v

-- The holder is inside.
abbrev pub Inside : Pc → Type 0
Inside (outside r) = ⊥
Inside (waiting c) = ⊥
Inside (looking c) = Unit
Inside (logging c) = Unit
Inside (dating c token) = Unit
Inside (adding c ttl) = Unit
Inside (leaving c r) = Unit

pub LoggedIn-Earned :
    (logins : List Credentials) (c : Credentials) (r : Answer VcdClient) (d : Credentials)
    → Earned logins c r
    → Earned (d ∷ logins) c r
LoggedIn-Earned logins c (err e) d h = tt
LoggedIn-Earned logins c (ok v) d h = inr h

module _ {C : Type 0} (lru : ExpireCache C) where
  -- What holds of a goroutine at its place.
  abbrev pub Fits : ℕ → Shared C → Pc → Type 0
  Fits i m (outside none) = Unit
  Fits i m (outside (some (c, r))) = Earned m.logins c r
  Fits i m (waiting c) = Unit
  Fits i m (looking c) = m.mutex ≡ some i
  Fits i m (logging c) = (m.mutex ≡ some i) × (lru.get (cache_key c) m.cache ≡ none)
  Fits i m (dating c token) =
      (m.mutex ≡ some i)
      × (lru.get (cache_key c) m.cache ≡ none)
      × LoggedIn m.logins (cache_key c) (client_of c)
  Fits i m (adding c ttl) =
      (m.mutex ≡ some i)
      × (lru.get (cache_key c) m.cache ≡ none)
      × LoggedIn m.logins (cache_key c) (client_of c)
  Fits i m (leaving c r) = (m.mutex ≡ some i) × Earned m.logins c r

  -- A cached client is one that a login gave.
  abbrev pub Owned : Shared C → Type 0
  Owned m = (k : ℕ) (v : VcdClient) → lru.get k m.cache ≡ some v → LoggedIn m.logins k v

  -- What holds of a state.
  pub record Inv (s : System C) : Type 0 where
    pub fits : (i : ℕ) → Fits i s.shared (s.pc i)
    pub owned : Owned s.shared
    pub holder : (i : ℕ) → s.shared.mutex ≡ some i → Inside (s.pc i)
