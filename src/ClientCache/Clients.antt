-- ===== src/ClientCache/Clients.antt =====
-- Which client `get_vcd_client` returns, and what it calls.
use cluster_api_provider_clo.ClientCache.Keys.{cache_key_of_joined}
use mathlib.Core.Path.{subst}
use cluster_api_provider_clo.ClientCache.{
  Credentials, get_vcd_client, cache_key, client_of, read_credentials, get_token_remaining_ttl,
}
use cluster_api_provider_clo.World.Types.{ObjectKey, Secret, GoError, ok, VcdClient, err, error_of}
use cluster_api_provider_clo.Base.{none, ◌≡◌, some, ◌∷◌, ◌++◌, arith, String, ap}
use cluster_api_provider_clo.Flow.{Session, ◌>>=◌, perform, next}
use cluster_api_provider_clo.World.{World, Event, Trace}
use cluster_api_provider_clo.Api.{TenantCluster, IdentityRef, ℤ}
use cluster_api_provider_clo.World.Calls.{Call, set_api_token, cache_get, get_secret, cache_add}

abbrev pub answered : Call → Event
answered c = record { call = c; error = none }

abbrev pub secret_key : TenantCluster → IdentityRef → ObjectKey
secret_key cluster identity = record {
  name = identity.name;
  namespace = cluster.metadata.namespace;
}

module _ (W : World) {O : Type 0} (s : Session O) (cluster : TenantCluster) (identity : IdentityRef)
    (secret : Secret) (c : Credentials) where
  -- The calls up to the look-up in the cache, and up to the login.
  abbrev pub after_secret : Trace
  after_secret = answered (get_secret (secret_key cluster identity)) ∷ s.trace

  abbrev pub after_miss : GoError → Trace
  after_miss miss = (record { call = cache_get (cache_key c); error = some miss }) ∷ after_secret

  abbrev pub login_call : Call
  login_call = set_api_token (client_of c) c.organization c.api_token

  -- The cluster's secret is read, and holds the credentials `c`.
  pub record HasCredentials : Type 0 where
    pub identity_ref : cluster.spec.identity_ref ≡ some identity
    pub read : W.answer s.trace (get_secret (secret_key cluster identity)) ≡ ok secret
    pub credentials : read_credentials W secret ≡ ok (some c)

  cached_lem :
      HasCredentials
      → (client : VcdClient) → W.answer after_secret (cache_get (cache_key c)) ≡ ok client
      → get_vcd_client W cluster s ≡ (
        next (ok (some client)),
        record s { trace = answered (cache_get (cache_key c)) ∷ after_secret },
      )
  unfolding get_vcd_client ◌>>=◌ perform
  cached_lem h client e = ground (arith, h.identity_ref, h.read, h.credentials)

  -- A cluster whose secret holds `c`: a client that the cache answers for the key of `c` is
  -- returned after two calls and with no login; after a miss, a login with `c` whose token
  -- gives a remaining time returns a client of `c`, which is added under the key of `c` with
  -- that time.
  pub get_vcd_client_hit_or_login :
      HasCredentials
      → ((client : VcdClient)
          → W.answer after_secret (cache_get (cache_key c)) ≡ ok client
          → get_vcd_client W cluster s ≡ (
            next (ok (some client)),
            record s { trace = answered (cache_get (cache_key c)) ∷ after_secret },
          ))
        × ((miss : GoError) (token : String) (ttl : ℤ)
            → W.answer after_secret (cache_get (cache_key c)) ≡ err miss
            → W.answer (after_miss miss) login_call ≡ ok token
            → get_token_remaining_ttl W (W.now (answered login_call ∷ after_miss miss)) token
              ≡ ok ttl
            → get_vcd_client W cluster s ≡ (
              next (ok (some (client_of c))),
              record s {
                trace =
                    (record {
                      call = cache_add (cache_key c) (client_of c) ttl;
                      error = error_of (
                          W.answer
                            (answered login_call ∷ after_miss miss)
                            (cache_add (cache_key c) (client_of c) ttl));
                    })
                    ∷ answered login_call
                    ∷ after_miss miss;
              },
            ))
  unfolding get_vcd_client ◌>>=◌ perform
  get_vcd_client_hit_or_login h =
      (cached_lem h, λ miss token ttl e l r. ground (arith, h.identity_ref, h.read, h.credentials))

-- Credentials `c` and `d` whose texts join to the same bytes share a client: while the cache holds
-- the client logged in with `c`, a cluster whose secret holds `d` is given that client.
pub get_vcd_client_of_joined :
    (W : World) {O : Type 0} (s : Session O) (cluster : TenantCluster) (identity : IdentityRef)
    (secret : Secret) (c d : Credentials)
    → HasCredentials W s cluster identity secret d
    → W.answer (after_secret W s cluster identity secret d) (cache_get (cache_key c))
      ≡ ok (client_of c)
    → c.endpoint ++ c.api_token ++ c.organization ≡ d.endpoint ++ d.api_token ++ d.organization
    → (get_vcd_client W cluster s).0 ≡ next (ok (some (client_of c)))
get_vcd_client_of_joined W s cluster identity secret c d h held joined =
    ap (λ (r : _ × _). r.0)
      ((get_vcd_client_hit_or_login W s cluster identity secret d h).0 (client_of c) (
        subst
          (λ key.
            W.answer (after_secret W s cluster identity secret d) (cache_get key)
            ≡ ok (client_of c))
          (cache_key_of_joined c d joined) held))
