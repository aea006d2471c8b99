-- ===== src/ClientCache/Concurrent.antt =====
-- util/clientcache/clientcache.go: the part of `GetVCDClient` under the mutex, run by any number of
-- goroutines, interleaved in any order. The expiring cache and the tokens are libraries'.
pub mod Invariant
pub mod Moves
pub mod Safety
pub mod Returns
use cluster_api_provider_clo.Api.{ℤ}
use cluster_api_provider_clo.ClientCache.{
  Credentials, cache_key, get_token_remaining_ttl, client_of,
}
use cluster_api_provider_clo.World.Types.{VcdClient, Answer, ok, GoError, err}
use cluster_api_provider_clo.World.{World}
use cluster_api_provider_clo.Base.{
  ℕ, Option, List, if◌then◌else◌, none, ◌==◌, [], ◌≡◌, String, some, ◌⊎◌, ◌∷◌,
}

-- `cache.LRUExpireCache`. An entry may expire at any time, and `Add` may drop other entries.
pub record ExpireCache (C : Type 0) : Type 1 where
  pub get : ℕ → C → Option VcdClient
  pub add : ℕ → VcdClient → ℤ → C → C
  -- the cache some time later
  pub Later : C → C → Type 0
  pub get-Later :
      {c d : C} {k : ℕ} {v : VcdClient} → Later c d → get k d ≡ some v → get k c ≡ some v
  pub get-add :
      (c : C) (j k : ℕ) (v w : VcdClient) (ttl : ℤ)
      → get k (add j v ttl c) ≡ some w
      → ((j ≡ k) × (v ≡ w)) ⊎ (get k c ≡ some w)

-- Where a goroutine is; its result, once it leaves, with the credentials that it came with.
pub data Pc : Type 0 where
  outside : Option (Credentials × Answer VcdClient) → Pc
  waiting looking logging : Credentials → Pc
  dating : Credentials → String → Pc
  adding : Credentials → ℤ → Pc
  leaving : Credentials → Answer VcdClient → Pc

-- What the goroutines share: the mutex with its holder, the cache, and the logins made so far.
pub record Shared (C : Type 0) : Type 0 where
  pub mutex : Option ℕ
  pub cache : C
  pub logins : List Credentials

pub record System (C : Type 0) : Type 0 where
  pub shared : Shared C
  pub pc : ℕ → Pc

abbrev pub update : (ℕ → Pc) → ℕ → Pc → ℕ → Pc
update f i p j = if i == j then p else f j

module _ (W : World) {C : Type 0} (lru : ExpireCache C) where
  -- A move of the goroutine `i`.
  pub data Move (i : ℕ) (m : Shared C) : Pc → Shared C → Pc → Type 0 where
    call :
        {r : Option (Credentials × Answer VcdClient)} (c : Credentials)
        → Move i m (outside r) m (waiting c)
    lock :
        {c : Credentials}
        → m.mutex ≡ none
        → Move i m (waiting c) (record m { mutex = some i }) (looking c)
    found :
        {c : Credentials} {v : VcdClient}
        → lru.get (cache_key c) m.cache ≡ some v
        → Move i m (looking c) m (leaving c (ok v))
    missed :
        {c : Credentials}
        → lru.get (cache_key c) m.cache ≡ none
        → Move i m (looking c) m (logging c)
    -- `SetApiToken`
    refused : {c : Credentials} (e : GoError) → Move i m (logging c) m (leaving c (err e))
    logged_in :
        {c : Credentials} (token : String)
        → Move i m (logging c) (record m { logins = c ∷ m.logins }) (dating c token)
    undated :
        {c : Credentials} {token : String} {e : GoError} (t : ℕ)
        → get_token_remaining_ttl W t token ≡ err e
        → Move i m (dating c token) m (leaving c (err e))
    dated :
        {c : Credentials} {token : String} {ttl : ℤ} (t : ℕ)
        → get_token_remaining_ttl W t token ≡ ok ttl
        → Move i m (dating c token) m (adding c ttl)
    added :
        {c : Credentials} {ttl : ℤ}
        → Move i m
            (adding c ttl)
            (record m { cache = lru.add (cache_key c) (client_of c) ttl m.cache })
            (leaving c (ok (client_of c)))
    -- the deferred `Unlock`
    unlock :
        {c : Credentials} {r : Answer VcdClient}
        → Move i m (leaving c r) (record m { mutex = none }) (outside (some (c, r)))

  pub data Step (s : System C) : System C → Type 0 where
    pick :
        (i : ℕ) {m : Shared C} {p : Pc}
        → Move i s.shared (s.pc i) m p
        → Step s (record { shared = m; pc = update s.pc i p })
    pass :
        (c : C)
        → lru.Later s.shared.cache c
        → Step s (record s { shared = record s.shared { cache = c } })

  -- `NewClientCache`
  abbrev pub init : C → System C
  init c = record {
    shared = record { mutex = none; cache = c; logins = [] };
    pc = λ i. outside none;
  }

  pub data Reach (c : C) : System C → Type 0 where
    start : Reach c (init c)
    later : {s t : System C} → Reach c s → Step s t → Reach c t
