-- ===== src/ClientCache/Reachable.antt =====
-- A client for a cluster whose identity, secret and login are in order.
use cluster_api_provider_clo.World.Calls.{get_secret, set_api_token, cache_add, cache_get, Call}
use cluster_api_provider_clo.Flow.Steady.{
  Steady, Steady-bind, IsOk, Steady-deref, Steady-pure, not_ok, Steady-bind_to, Goes,
}
use cluster_api_provider_clo.Flow.Steady.Calls.{Steady-any, Steady-told}
use cluster_api_provider_clo.Base.{Option, ℕ, ◌≡◌, String, some, arith, refl}
use cluster_api_provider_clo.Api.{TenantCluster, IdentityRef, ℤ}
use cluster_api_provider_clo.World.Types.{Answer, VcdClient, ok, Secret, err, ObjectKey, GoError}
use cluster_api_provider_clo.World.{World, Trace}
use cluster_api_provider_clo.Flow.{◌>>=◌, M, or_else, deref}
use cluster_api_provider_clo.ClientCache.{
  now, add_client, login, hit_or_login, connect, with_secret, Credentials, get_token_remaining_ttl,
  get_vcd_client, client_of, until, read_credentials, cache_key,
}

-- The identity names a secret with all its fields, and a login gives a token with a date.
pub record IsReachable (W : World) (cluster : TenantCluster) : Type 0 where
  pub identity : IdentityRef
  pub identity_ref : cluster.spec.identity_ref ≡ some identity
  pub secret : Secret
  pub read :
      (t : Trace)
      → W.answer t
          (get_secret (record { name = identity.name; namespace = cluster.metadata.namespace }))
        ≡ ok secret
  pub credentials : Credentials
  pub complete : read_credentials W secret ≡ ok (some credentials)
  pub token : String
  pub login :
      (t : Trace)
      → W.answer t
          (set_api_token (client_of credentials) credentials.organization credentials.api_token)
        ≡ ok token
  pub expiration : ℤ
  pub dated : W.parse_unverified token ≡ ok (some (some expiration))

module _ {W : World} {cluster : TenantCluster} (r : IsReachable W cluster) where
  abbrev identity_key : ObjectKey
  identity_key = record { name = r.identity.name; namespace = cluster.metadata.namespace }

  abbrev login_call : Call
  login_call =
      set_api_token (client_of r.credentials) r.credentials.organization r.credentials.api_token

-- A client and no error.
abbrev pub IsClient : Answer (Option VcdClient) → Type 0
IsClient a = (client : VcdClient) × (a ≡ ok (some client))

get_token_remaining_ttl-IsOk :
    (W : World) (time : ℕ) (expiration : ℤ) (token : String)
    → W.parse_unverified token ≡ ok (some (some expiration))
    → IsOk (get_token_remaining_ttl W time token)
unfolding get_token_remaining_ttl
get_token_remaining_ttl-IsOk W time expiration token h = (until expiration time, ground arith)

module _ (W : World) {O : Type 0} {o : O} where
  Steady-now : Steady o (now W) (λ _. Unit)
  unfolding now
  Steady-now = record { at = λ s h. (h, tt) }

  Steady-add_client :
      (c : Credentials) (ttl : Answer ℤ) → IsOk ttl → Steady o (add_client W c ttl) IsClient
  unfolding add_client
  Steady-add_client c (ok ttl) h =
      Steady-any W (cache_add (cache_key c) (client_of c) ttl) _
        λ _. Steady-pure _ (client_of c, refl)
  Steady-add_client c (err e) h = absurd (not_ok e h)

  Steady-hit_or_login :
      (cluster : TenantCluster) (r : IsReachable W cluster) (hit : Answer VcdClient)
      → Steady o (hit_or_login W r.credentials hit) IsClient
  unfolding hit_or_login login
  Steady-hit_or_login cluster r (ok client) = Steady-pure _ (client, refl)
  Steady-hit_or_login cluster r (err miss) = Steady-told W (login_call r) (ok r.token) _ r.login (
      Steady-bind _ _ _ Steady-now λ t _.
        Steady-add_client _ _ (get_token_remaining_ttl-IsOk W t r.expiration r.token r.dated))

  Steady-connect :
      (cluster : TenantCluster) (r : IsReachable W cluster)
      → Steady o (connect W (ok (some r.credentials))) IsClient
  unfolding connect
  Steady-connect cluster r =
      Steady-any W (cache_get (cache_key r.credentials)) _ λ hit. Steady-hit_or_login cluster r hit

  Steady-with_secret :
      (cluster : TenantCluster) (r : IsReachable W cluster)
      → Steady o (with_secret W (ok r.secret)) IsClient
  unfolding with_secret
  Steady-with_secret cluster r = rw r.complete (Steady-connect cluster r)

  pub Steady-get_vcd_client :
      (cluster : TenantCluster)
      → IsReachable W cluster
      → Steady o (get_vcd_client W cluster) IsClient
  unfolding get_vcd_client
  Steady-get_vcd_client cluster r =
      Steady-bind_to _ _ r.identity (Steady-deref _ _ r.identity_ref) (
        Steady-told W (get_secret (identity_key r)) (ok r.secret) _ r.read
          (Steady-with_secret cluster r))

  -- The client is taken, whatever is done about an error.
  pub Steady-connected :
      {A : Type 0} {R : A → O → Type 0} (cluster : TenantCluster)
      (handle : GoError → M O (Option VcdClient)) (rest : VcdClient → M O A)
      → IsReachable W cluster
      → ((client : VcdClient) → Goes o (rest client) R)
      → Goes o
          (do
            a ← get_vcd_client W cluster
            maybe_client ← or_else a handle
            client ← deref maybe_client
            rest client)
          R
  Steady-connected cluster handle rest r k =
      Steady-bind _ _ _ (Steady-get_vcd_client cluster r) λ a (client, e).
        Steady-bind_to _ _ (some client) (granted a client e)
          (Steady-bind_to _ _ client (Steady-pure _ refl) (k client))
    where
      granted :
          (a : Answer (Option VcdClient)) (client : VcdClient)
          → a ≡ ok (some client)
          → Steady o (or_else a handle) (λ x. x ≡ some client)
      granted (ok x) client e = Steady-pure x (ground arith)
      granted (err x) client e = absurd (not_ok x (some client, e))
