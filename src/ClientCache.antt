-- ===== src/ClientCache.antt =====
-- util/clientcache/clientcache.go. The expiring cache is a library's and part of the world; the
-- mutex around the look-up and the login is left to Concurrent, since a call runs on its own here.
use Prim.Native.Nat.{bit_xor}
pub mod Keys
pub mod Clients
pub mod Rules
pub mod Reachable
pub mod Metrics
pub mod Concurrent
use cluster_api_provider_clo.Base.{
  ℕ, ◌-◌, ◌*◌, ◌%◌, ◌^◌, String, Option, none, some, List, [], ◌∷◌, ◌++◌, leb, str_eq,
  if◌then◌else◌, ◌+◌,
}
use cluster_api_provider_clo.Api.{ℤ, pos, negsuc, TenantCluster}
use cluster_api_provider_clo.World.{World}
use cluster_api_provider_clo.World.Types.{Secret, VcdClient, Answer, ok, err}
use cluster_api_provider_clo.World.Calls.{get_secret, cache_get, cache_add, set_api_token}
use cluster_api_provider_clo.Flow.{M, next, pure, ◌>>=◌, ◌>>◌, deref, perform}

-- `secret.Data[key]`
abbrev pub data_of : String → List (String × List ℕ) → Option (List ℕ)
data_of key [] = none
data_of key ((k, v) ∷ entries) = if str_eq k key then some v else data_of key entries

-- hash/fnv: FNV-1 with 32 bits. A write multiplies, then takes the byte in.
unfoldable pub write : ℕ → List ℕ → ℕ
write hash [] = hash
write hash (b ∷ bytes) = write (bit_xor (hash * 16777619 % 2 ^ 32) b) bytes

abbrev pub new32 : ℕ
new32 = 2166136261

pub record Credentials : Type 0 where
  pub endpoint : List ℕ
  pub href : String
  pub api_token : List ℕ
  pub organization : List ℕ

-- `hash32.Sum32()` after the three writes.
unfoldable pub cache_key : Credentials → ℕ
unfolding write
cache_key c = write (write (write new32 c.endpoint) c.api_token) c.organization

-- `govcd.NewVCDClient` with the login of `SetApiToken`.
abbrev pub client_of : Credentials → VcdClient
client_of c = record { href = c.href; organization = c.organization; api_token = c.api_token }

-- "/api"
abbrev pub api_path : List ℕ
api_path = b'/' ∷ b'a' ∷ b'p' ∷ b'i' ∷ []

-- The greatest 64-bit integer.
abbrev pub max_int64 : ℕ
max_int64 = 2 ^ 63 - 1

-- A `time.Duration` in nanoseconds, which stops at its bounds.
abbrev pub saturated : ℕ → ℕ
saturated n = if leb n max_int64 then n else max_int64

-- From a time after 1970 to a later one, and to an earlier one.
abbrev pub between : ℕ → ℕ → ℤ
between expiration now =
    if leb now expiration
    then pos (saturated (expiration - now))
    else negsuc (saturated (now - expiration - 1))

-- `time.Unix(expiration, 0)` counts its seconds from the year 1, which is 62135596800 seconds
-- before 1970, and wraps; `time.Until` of it is in nanoseconds.
abbrev pub until : ℤ → ℕ → ℤ
until (pos n) now =
    if leb (n + 62135596800) max_int64
    then between (n * 1000000000) now
    else negsuc (saturated ((2 ^ 64 - n) * 1000000000 + now - 1))
until (negsuc n) now = negsuc (saturated ((n + 1) * 1000000000 + now - 1))

module _ (W : World) where
  -- The fields of a secret, in the order of the tests. `ok none` is Go's `nil, nil`.
  unfoldable pub read_credentials : Secret → Answer (Option Credentials)
  read_credentials secret = elim (data_of "url" secret.entries) [
    | none ↦ ok none
    | some endpoint ↦ elim (W.parse_url (endpoint ++ api_path)) [
      | err e ↦ err e
      | ok href ↦ elim (data_of "apiToken" secret.entries) [
        | none ↦ ok none
        | some api_token ↦ elim (data_of "organization" secret.entries) [
          | none ↦ ok none
          | some organization ↦ ok (
              some (record {
                endpoint = endpoint;
                href = href;
                api_token = api_token;
                organization = organization;
              }))
        ]
      ]
    ]
  ]

  unfoldable pub get_token_remaining_ttl : ℕ → String → Answer ℤ
  get_token_remaining_ttl now token = elim (W.parse_unverified token) [
    | err e ↦ err (record { message = "unable to parse input as JWT token" })
    | ok none ↦ err (record { message = "unable to parse token claims" })
    | ok (some none) ↦ err (record { message = "unable to get expiration date from token" })
    | ok (some (some expiration)) ↦ ok (until expiration now)
  ]

  module _ {O : Type 0} where
    now : M O ℕ
    now s = (next (W.now s.trace), s)

    add_client : Credentials → Answer ℤ → M O (Answer (Option VcdClient))
    add_client c (err e) = pure (err e)
    add_client c (ok ttl) = do
      perform W (cache_add (cache_key c) (client_of c) ttl)
      pure (ok (some (client_of c)))

    login : Credentials → Answer String → M O (Answer (Option VcdClient))
    login c (err e) = pure (err e)
    login c (ok access_token) = do t ← now; add_client c (get_token_remaining_ttl t access_token)

    hit_or_login : Credentials → Answer VcdClient → M O (Answer (Option VcdClient))
    hit_or_login c (ok client) = pure (ok (some client))
    hit_or_login c (err miss) = do
      token ← perform W (set_api_token (client_of c) c.organization c.api_token)
      login c token

    pub connect : Answer (Option Credentials) → M O (Answer (Option VcdClient))
    connect (err e) = pure (err e)
    connect (ok none) = pure (ok none)
    connect (ok (some c)) = do hit ← perform W (cache_get (cache_key c)); hit_or_login c hit

    with_secret : Answer Secret → M O (Answer (Option VcdClient))
    with_secret (err e) = pure (err e)
    with_secret (ok secret) = connect (read_credentials secret)

    -- `GetVCDClient`
    unfoldable pub get_vcd_client : TenantCluster → M O (Answer (Option VcdClient))
    unfolding now add_client login hit_or_login connect with_secret
    get_vcd_client cluster = do
      identity ← deref cluster.spec.identity_ref
      secret ←
          perform W
            (get_secret (record { name = identity.name; namespace = cluster.metadata.namespace }))
      with_secret secret
