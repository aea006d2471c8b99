-- ===== src/ClientCache/Metrics.antt =====
-- util/clientcache/metrics.go: `CollectMetrics`, the gauges of the remaining life of the cached
-- clients' tokens.
pub mod Samples
pub mod Collect
pub mod Exposed
pub mod Setup
use cluster_api_provider_clo.World.Calls.{get_session_info, cache_get}
use cluster_api_provider_clo.CloudInit.Text.{itoa}
use cluster_api_provider_clo.World.Types.{VcdClient, Answer, SessionInfo, ok, err}
use cluster_api_provider_clo.World.{World}
use cluster_api_provider_clo.Api.{ℤ}
use cluster_api_provider_clo.Base.{
  String, List, Bool, ℕ, str_eq, ◌∷◌, ◌&&◌, if◌then◌else◌, [], Option, ◌≡◌, none, some, ◌≢◌,
}
use cluster_api_provider_clo.Flow.{
  ◌>>=◌, ◌>>◌, M, next, perform, pure, Return, modify, or_else, done, fail,
}
use cluster_api_provider_clo.ClientCache.{now, get_token_remaining_ttl}

-- The labels "key", "url" and "organization".
pub record Labels : Type 0 where
  pub key : String
  pub url : String
  pub organization : String

-- A gauge vector of Prometheus, with the duration that each gauge shows, here in nanoseconds, while
-- `Set` gets its seconds as a float: it is empty after `Reset`, and `With(labels).Set(value)`
-- changes the gauge of those labels only.
pub record GaugeVec (G : Type 0) : Type 0 where
  pub value : Labels → G → Option ℤ
  pub reset : G → G
  pub set : Labels → ℤ → G → G
  pub value-reset : (l : Labels) (g : G) → value l (reset g) ≡ none
  pub value-set : (l : Labels) (v : ℤ) (g : G) → value l (set l v g) ≡ some v
  pub value-set_other : (l k : Labels) (v : ℤ) (g : G) → l ≢ k → value k (set l v g) ≡ value k g

abbrev pub labels_of : ℕ → VcdClient → SessionInfo → Labels
labels_of key client session = record {
  key = itoa key;
  url = client.href;
  organization = session.org_name;
}

module _ (W : World) {G : Type 0} (vec : GaugeVec G) where
  pub token_of : VcdClient → M G String
  token_of client s = (next (W.vcd_token s.trace client), s)

  -- The body of the loop, for a key that is still in the cache.
  unfoldable pub collect_client : ℕ → VcdClient → M G (Unit {0})
  unfolding token_of now
  collect_client key client = do
    a ← perform W (get_session_info client)
    session ← or_else a fail
    token ← token_of client
    t ← now W
    ttl ← or_else (get_token_remaining_ttl W t token) fail
    modify (vec.set (labels_of key client session) ttl)

  abbrev pub collect_found : ℕ → Answer VcdClient → M G (Unit {0})
  collect_found key (ok client) = collect_client key client
  collect_found key (err miss) = pure tt

  unfoldable pub collect_keys : List ℕ → M G (Unit {0})
  collect_keys [] = pure tt
  collect_keys (key ∷ keys) = do
    hit ← perform W (cache_get key)
    collect_found key hit
    collect_keys keys

  pub keys_now : M G (List ℕ)
  keys_now s = (next (W.cache_keys s.trace), s)

  -- `CollectMetrics`
  unfoldable pub collect_metrics : M G Return
  unfolding keys_now
  collect_metrics = do modify vec.reset; keys ← keys_now; collect_keys keys; pure done
