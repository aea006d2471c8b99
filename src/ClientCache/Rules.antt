-- ===== src/ClientCache/Rules.antt =====
-- How `get_vcd_client` keeps an invariant on the calls: by its four calls.
use cluster_api_provider_clo.Flow.{Session, perform}
use cluster_api_provider_clo.Base.{ℕ, String, Option, none, some, List}
use cluster_api_provider_clo.Api.{ℤ, TenantCluster}
use cluster_api_provider_clo.World.{World}
use cluster_api_provider_clo.World.Types.{Answer, ok, err, ObjectKey, Secret, VcdClient}
use cluster_api_provider_clo.World.Calls.{get_secret, cache_get, cache_add, set_api_token}
use cluster_api_provider_clo.Flow.Rules.{Preserves, preserves_rules}
use cluster_api_provider_clo.ClientCache.{
  Credentials, now, add_client, login, hit_or_login, connect, with_secret, get_vcd_client,
}

-- The four calls keep `P`.
pub record KeptByClient (W : World) {O : Type 0} (P : Session O → Type 0) : Type 0 where
  pub secret : (key : ObjectKey) → Preserves P (perform W (get_secret key))
  pub hit : (sum : ℕ) → Preserves P (perform W (cache_get sum))
  pub add :
      (sum : ℕ) (client : VcdClient) (ttl : ℤ) → Preserves P (perform W (cache_add sum client ttl))
  pub token :
      (client : VcdClient) (org token : List ℕ)
      → Preserves P (perform W (set_api_token client org token))

module _ (W : World) {O : Type 0} {P : Session O → Type 0} (kept : KeptByClient W P) where
  Preserves-now : Preserves P (now W)
  unfolding now
  Preserves-now = record { at = λ s h. h }

  Preserves-add_client : (c : Credentials) (ttl : Answer ℤ) → Preserves P (add_client W c ttl)
  unfolding add_client
  Preserves-add_client c (err e) = search preserves_rules
  Preserves-add_client c (ok ttl) = search (preserves_rules, kept.add)

  Preserves-login : (c : Credentials) (token : Answer String) → Preserves P (login W c token)
  unfolding login
  Preserves-login c (err e) = search preserves_rules
  Preserves-login c (ok token) = search (preserves_rules, Preserves-now, Preserves-add_client)

  Preserves-hit_or_login :
      (c : Credentials) (hit : Answer VcdClient) → Preserves P (hit_or_login W c hit)
  unfolding hit_or_login
  Preserves-hit_or_login c (ok client) = search preserves_rules
  Preserves-hit_or_login c (err e) = search (preserves_rules, kept.token, Preserves-login)

  Preserves-connect : (a : Answer (Option Credentials)) → Preserves P (connect W a)
  unfolding connect
  Preserves-connect (err e) = search preserves_rules
  Preserves-connect (ok none) = search preserves_rules
  Preserves-connect (ok (some c)) = search (preserves_rules, kept.hit, Preserves-hit_or_login)

  Preserves-with_secret : (a : Answer Secret) → Preserves P (with_secret W a)
  unfolding with_secret
  Preserves-with_secret (err e) = search preserves_rules
  Preserves-with_secret (ok secret) = search Preserves-connect

  pub Preserves-get_vcd_client : (cluster : TenantCluster) → Preserves P (get_vcd_client W cluster)
  unfolding get_vcd_client
  Preserves-get_vcd_client cluster = search (preserves_rules, kept.secret, Preserves-with_secret)
