-- ===== src/Examples/CacheRuns.antt =====
-- Runs of the client cache by several goroutines, and of the collection of its metrics.
use cluster_api_provider_clo.Startup.Ticker.{Collecting, collect_at, Logs, collect_at-continues}
use cluster_api_provider_clo.ClientCache.Metrics.Setup.{
  BuildSetting, BuildInfo, PrometheusMetricsOption, Collector, new_prometheus_metrics,
  PrometheusMetrics, with_manager, with_logger, with_client_cache, with_prometheus_registry,
  build_info, access_key_ttl, new_prometheus_metrics-registry,
}
use cluster_api_provider_clo.ClientCache.Concurrent.Safety.{
  Reach-exclusive, Reach-adding, Reach-returned,
}
use cluster_api_provider_clo.ClientCache.Metrics.Exposed.{Label-cases}
use cluster_api_provider_clo.Examples.Granting.{granting}
use cluster_api_provider_clo.Api.{ℤ, pos}
use cluster_api_provider_clo.Flow.{Session}
use cluster_api_provider_clo.ClientCache.Metrics.{Labels, GaugeVec, collect_metrics}
use cluster_api_provider_clo.ClientCache.Concurrent.Returns.{Leads, Returned, Reach-can_return}
use cluster_api_provider_clo.ClientCache.Concurrent.Invariant.{LoggedIn}
use mathlib.Core.Option.{none-ne-some, some-injective}
use cluster_api_provider_clo.Examples.Data.{world}
use cluster_api_provider_clo.World.Types.{VcdClient, ok}
use cluster_api_provider_clo.ClientCache.{
  Credentials, cache_key, get_token_remaining_ttl, client_of,
}
use cluster_api_provider_clo.Base.{
  Option, ℕ, some, ◌∷◌, if◌then◌else◌, ◌≡◌, [], none, ◌==◌, ◌⊎◌, refl, inl, sym, inr, ap, ◌∙◌, ◌≢◌,
  List, Bool-cases, ==_iff, String, ◌++◌,
}
use cluster_api_provider_clo.ClientCache.Concurrent.{
  outside, waiting, looking, leaving, call, lock, pick, start, later, ExpireCache, System, Reach,
  update, adding, Pc, missed, added, logging, logged_in, unlock, dating, dated,
}

-- A cache that keeps the last client only.
abbrev Slot : Type 0
Slot = Option (ℕ × VcdClient)

abbrev slot_get : ℕ → Slot → Option VcdClient
slot_get k none = none
slot_get k (some (j, v)) = if j == k then some v else none

abbrev slot : ExpireCache Slot
slot = record {
  get = slot_get;
  add = λ k v ttl c. some (k, v);
  Later = λ c d. (d ≡ c) ⊎ (d ≡ none);
  get-Later = λ {c} {d} {k} {v} h e. elim h [
    | inl p ↦ rw (sym p) e
    | inr p ↦ absurd (none-ne-some v (ap (slot_get k) (sym p) ∙ e))
  ];
  get-add = λ c j k v w ttl e. elim (Bool-cases (j == k)) [
    | inl b ↦
        inl
          ((==_iff j k).0 b, some-injective v w (sym (ap (λ x. if x then some v else none) b) ∙ e))
    | inr b ↦ absurd (none-ne-some w (sym (ap (λ x. if x then some v else none) b) ∙ e))
  ];
}

abbrev login_data : Credentials
login_data = record {
  endpoint = 1 ∷ [];
  href = "https://cloud/api";
  api_token = 2 ∷ [];
  organization = 3 ∷ [];
}

-- One goroutine has the lock, and another waits.
abbrev two_calls : System Slot
two_calls = record {
  shared = record { mutex = some 0; cache = none; logins = [] };
  pc =
      update (update (update (λ i. outside none) 0 (waiting login_data)) 1 (waiting login_data)) 0
        (looking login_data);
}

two_calls-Reach : Reach world slot none two_calls
two_calls-Reach =
    later (later (later start (pick 0 (call login_data))) (pick 1 (call login_data)))
      (pick 0 (lock refl))

abbrev looker : ℕ
looker = 0

Reach-exclusive_example : looker ≡ looker
Reach-exclusive_example = Reach-exclusive none (λ k. refl) two_calls-Reach looker looker tt tt

-- The first one goes on: it misses, logs in and is about to store its client.
abbrev pcs_at_add : ℕ → Pc
pcs_at_add =
    update (update (update two_calls.pc 0 (logging login_data)) 0 (dating login_data "token")) 0
      (adding login_data (pos 100000000000))

abbrev at_add : System Slot
at_add = record {
  shared = record { mutex = some 0; cache = none; logins = login_data ∷ [] };
  pc = pcs_at_add;
}

at_add-Reach : Reach world slot none at_add
unfolding get_token_remaining_ttl
at_add-Reach =
    later (later (later two_calls-Reach (pick 0 (missed refl))) (pick 0 (logged_in "token")))
      (pick 0 (dated 100000000000 refl))

Reach-adding_example : slot.get (cache_key login_data) none ≡ none
Reach-adding_example =
    Reach-adding none (λ k. refl) at_add-Reach 0 login_data (pos 100000000000) refl

-- It stores the client and returns.
abbrev at_return : System Slot
at_return = record {
  shared = record {
    mutex = none;
    cache = some (cache_key login_data, client_of login_data);
    logins = login_data ∷ [];
  };
  pc =
      update (update pcs_at_add 0 (leaving login_data (ok (client_of login_data)))) 0
        (outside (some (login_data, ok (client_of login_data))));
}

at_return-Reach : Reach world slot none at_return
at_return-Reach = later (later at_add-Reach (pick 0 added)) (pick 0 unlock)

Reach-returned_example : LoggedIn (login_data ∷ []) (cache_key login_data) (client_of login_data)
Reach-returned_example =
    Reach-returned none (λ k. refl) at_return-Reach 0 login_data (client_of login_data) refl

Reach-can_return_example : Leads world slot (Returned 1) 11 two_calls
Reach-can_return_example = Reach-can_return none (λ k. refl) two_calls-Reach 1 tt

abbrev chosen : {l k : Labels} → (l ≡ k) ⊎ (l ≢ k) → ℤ → Option ℤ → Option ℤ
chosen (inl e) v rest = some v
chosen (inr n) v rest = rest

-- The newest value of each gauge.
abbrev gauge_value : Labels → List (Labels × ℤ) → Option ℤ
gauge_value l [] = none
gauge_value l ((k, v) ∷ g) = chosen (Label-cases k l) v (gauge_value l g)

abbrev gauges : GaugeVec (List (Labels × ℤ))
gauges = record {
  value = gauge_value;
  reset = λ g. [];
  set = λ l v g. (l, v) ∷ g;
  value-reset = λ l g. refl;
  value-set = λ l v g. chosen_same l v (gauge_value l g) (Label-cases l l);
  value-set_other = λ l k v g h. chosen_other l k v (gauge_value k g) h (Label-cases l k);
}
  where
    chosen_same :
        (l : Labels) (v : ℤ) (rest : Option ℤ) (c : (l ≡ l) ⊎ (l ≢ l)) → chosen c v rest ≡ some v
    chosen_same l v rest (inl e) = refl
    chosen_same l v rest (inr n) = absurd (n refl)

    chosen_other :
        (l k : Labels) (v : ℤ) (rest : Option ℤ)
        → l ≢ k
        → (c : (l ≡ k) ⊎ (l ≢ k)) → chosen c v rest ≡ rest
    chosen_other l k v rest h (inl e) = absurd (h e)
    chosen_other l k v rest h (inr n) = refl

abbrev scrape : Session (List (Labels × ℤ))
scrape = record { object = []; trace = [] }

abbrev revision_setting : BuildSetting
revision_setting = record { key = "vcs.revision"; value = "abc" }

abbrev build : BuildInfo
build = record { go_version = "go1.24"; settings = revision_setting ∷ [] }

-- The options of `main`: the registry lists what it has taken.
abbrev main_options : List (PrometheusMetricsOption String (List Collector) String String)
main_options = with_manager "client" ∷ with_client_cache "cache" ∷ []

abbrev take_collector : List Collector → Collector → Option (List Collector)
take_collector registered x = some (x ∷ registered)

new_prometheus_metrics-registry_example :
    (new_prometheus_metrics take_collector (some build) main_options ≡ none)
    × ((m : PrometheusMetrics String (List Collector) String String) × (new_prometheus_metrics
            take_collector
            (some build)
            ((with_logger "logger" ∷ []) ++ (with_prometheus_registry [] ∷ main_options))
          ≡ some m)
        × (m.registry ≡ some (build_info "go1.24" "abc" ∷ access_key_ttl ∷ [])))
new_prometheus_metrics-registry_example =
    new_prometheus_metrics-registry take_collector build (with_logger "logger" ∷ []) main_options []
      (access_key_ttl ∷ []) (build_info "go1.24" "abc" ∷ access_key_ttl ∷ []) [] [] revision_setting
      ((λ m. refl), ((λ m. refl), tt)) refl refl tt refl refl

-- Two ticks over one cached client.
abbrev collecting : Collecting (List (Labels × ℤ))
collecting = record { session = scrape; errors = [] }

collect_at-continues_example :
    let d = collect_at granting gauges (30 ∷ []) collecting in
    let e = collect_at granting gauges (30 ∷ 60 ∷ []) collecting in
    let (r, s) = collect_metrics granting gauges d.session in
    (e.session ≡ s) × Logs granting gauges r d.errors e.errors
collect_at-continues_example = collect_at-continues granting gauges (30 ∷ []) 60 collecting
