-- ===== src/ClientCache/Metrics/Setup.antt =====
-- util/clientcache/metrics.go: the options and `NewPrometheusMetrics`. The logger, the registry,
-- the client and the cache are others'; `none` is a nil pointer, or a panic.
use cluster_api_provider_clo.Base.{
  String, List, Option, some, ◌∷◌, none, if◌then◌else◌, str_eq, [], ◌≡◌, All, true, ◌∙◌, ◌++◌,
  false, refl, ap,
}

-- What is registered: the gauge vector, and the counter with the labels of the build.
pub data Collector : Type 0 where
  access_key_ttl : Collector
  build_info : String → String → Collector

pub record BuildSetting : Type 0 where
  pub key : String
  pub value : String

pub record BuildInfo : Type 0 where
  pub go_version : String
  pub settings : List BuildSetting

-- The loop over the settings.
unfoldable pub revision_from : String → List BuildSetting → String
revision_from revision [] = revision
revision_from revision (s ∷ settings) =
    revision_from (if str_eq s.key "vcs.revision" then s.value else revision) settings

abbrev pub revision_of : List BuildSetting → String
revision_of = revision_from "(unknown)"

module _ {R : Type 0} (must_register : R → Collector → Option R) where
  abbrev pub register_build : Option BuildInfo → R → Option R
  register_build none registry = some registry
  register_build (some info) registry =
      must_register registry (build_info info.go_version (revision_of info.settings))

  abbrev pub register_all : Option BuildInfo → Option R → Option R
  register_all info none = none
  register_all info (some registry) = elim (must_register registry access_key_ttl) [
    | none ↦ none
    | some registry' ↦ register_build info registry'
  ]

pub record PrometheusMetrics (L R K C : Type 0) : Type 0 where
  pub logger : Option L
  pub registry : Option R
  pub controller_client : Option K
  pub cache : Option C

abbrev pub PrometheusMetricsOption : Type 0 → Type 0 → Type 0 → Type 0 → Type 0
PrometheusMetricsOption L R K C = PrometheusMetrics L R K C → PrometheusMetrics L R K C

module _ {L R K C : Type 0} where
  abbrev pub with_logger : L → PrometheusMetricsOption L R K C
  with_logger logger m = record m { logger = some logger }

  abbrev pub with_prometheus_registry : R → PrometheusMetricsOption L R K C
  with_prometheus_registry registry m = record m { registry = some registry }

  abbrev pub with_client_cache : C → PrometheusMetricsOption L R K C
  with_client_cache cache m = record m { cache = some cache }

  -- `WithManager`, with the client of the manager
  abbrev pub with_manager : K → PrometheusMetricsOption L R K C
  with_manager client m = record m { controller_client = some client }

  unfoldable pub apply_options :
      List (PrometheusMetricsOption L R K C) → PrometheusMetrics L R K C → PrometheusMetrics L R K C
  apply_options [] m = m
  apply_options (option ∷ options) m = apply_options options (option m)

  abbrev pub unset : PrometheusMetrics L R K C
  unset = record { logger = none; registry = none; controller_client = none; cache = none }

  abbrev pub finish : PrometheusMetrics L R K C → Option R → Option (PrometheusMetrics L R K C)
  finish m none = none
  finish m (some registry) = some (record m { registry = some registry })

  -- `NewPrometheusMetrics`, with what `debug.ReadBuildInfo` returns
  unfoldable pub new_prometheus_metrics :
      (R → Collector → Option R)
      → Option BuildInfo
      → List (PrometheusMetricsOption L R K C)
      → Option (PrometheusMetrics L R K C)
  unfolding apply_options
  new_prometheus_metrics must_register info options =
      let m = apply_options options unset in finish m (register_all must_register info m.registry)

revision_of-last :
    (before after : List BuildSetting) (s : BuildSetting) (revision : String)
    → str_eq s.key "vcs.revision" ≡ true
    → All (λ (x : BuildSetting). str_eq x.key "vcs.revision" ≡ false) after
    → revision_from revision (before ++ (s ∷ after)) ≡ s.value
unfolding revision_from
revision_of-last [] after s revision h none_after =
    ap (λ b. revision_from (if b then s.value else revision) after) h ∙ kept after none_after
  where
    kept :
        (xs : List BuildSetting)
        → All (λ (x : BuildSetting). str_eq x.key "vcs.revision" ≡ false) xs
        → revision_from s.value xs ≡ s.value
    kept [] a = refl
    kept (x ∷ xs) (a, rest) =
        ap (λ b. revision_from (if b then x.value else s.value) xs) a ∙ kept xs rest
revision_of-last (b ∷ before) after s revision h none_after =
    revision_of-last before after s _ h none_after

register_all_lem :
    {R : Type 0} (must_register : R → Collector → Option R) (info : BuildInfo)
    (registry with_gauges with_build : R) (old new : List BuildSetting) (s : BuildSetting)
    → info.settings ≡ old ++ (s ∷ new)
    → str_eq s.key "vcs.revision" ≡ true
    → All (λ (x : BuildSetting). str_eq x.key "vcs.revision" ≡ false) new
    → must_register registry access_key_ttl ≡ some with_gauges
    → must_register with_gauges (build_info info.go_version s.value) ≡ some with_build
    → register_all must_register (some info) (some registry) ≡ some with_build
register_all_lem must_register info registry with_gauges with_build old new s split key none_new
      gauges build =
    rw (gauges, register_all)
      (ap (λ r. must_register with_gauges (build_info info.go_version r))
          (ap revision_of split ∙ revision_of-last old new s "(unknown)" key none_new)
        ∙ build)

module _ {L R K C : Type 0} where
  -- An option that leaves the registry alone.
  abbrev pub KeepsRegistry : PrometheusMetricsOption L R K C → Type 0
  KeepsRegistry option = (m : PrometheusMetrics L R K C) → (option m).registry ≡ m.registry

  apply_options-registry :
      (options : List (PrometheusMetricsOption L R K C)) (m : PrometheusMetrics L R K C)
      → All KeepsRegistry options
      → (apply_options options m).registry ≡ m.registry
  unfolding apply_options
  apply_options-registry [] m h = refl
  apply_options-registry (option ∷ options) m (h, hs) =
      apply_options-registry options (option m) hs ∙ h m

  apply_options-last :
      (before after : List (PrometheusMetricsOption L R K C)) (registry : R)
      (m : PrometheusMetrics L R K C)
      → All KeepsRegistry after
      → (apply_options (before ++ (with_prometheus_registry registry ∷ after)) m).registry
        ≡ some registry
  unfolding apply_options
  apply_options-last [] after registry m h = apply_options-registry after _ h
  apply_options-last (option ∷ before) after registry m h =
      apply_options-last before after registry (option m) h

  -- Without an option for the registry, `NewPrometheusMetrics` panics. With one, the last such
  -- option counts: the gauges and then the build, with its revision, are registered there, if the
  -- registry takes both, where the revision is the last setting "vcs.revision".
  pub new_prometheus_metrics-registry :
      (must_register : R → Collector → Option R) (info : BuildInfo)
      (before after : List (PrometheusMetricsOption L R K C)) (registry with_gauges with_build : R)
      (old new : List BuildSetting) (s : BuildSetting)
      → All KeepsRegistry after
      → info.settings ≡ old ++ (s ∷ new)
      → str_eq s.key "vcs.revision" ≡ true
      → All (λ (x : BuildSetting). str_eq x.key "vcs.revision" ≡ false) new
      → must_register registry access_key_ttl ≡ some with_gauges
      → must_register with_gauges (build_info info.go_version s.value) ≡ some with_build
      → (new_prometheus_metrics must_register (some info) after ≡ none)
        × ((m : PrometheusMetrics L R K C) × (new_prometheus_metrics must_register
                (some info)
                (before ++ (with_prometheus_registry registry ∷ after))
              ≡ some m)
            × (m.registry ≡ some with_build))
  unfolding new_prometheus_metrics
  new_prometheus_metrics-registry must_register info before after registry with_gauges with_build
        old new s h split key none_new gauges build =
      (
        ap (λ r. finish (apply_options after unset) (register_all must_register (some info) r))
            (apply_options-registry after unset h),
        (let m = apply_options (before ++ (with_prometheus_registry registry ∷ after)) unset in
            (
              record m { registry = some with_build },
              ap (finish m) (
                  ap (register_all must_register (some info))
                    (apply_options-last before after registry unset h)
                  ∙ register_all_lem must_register info registry with_gauges with_build old new s
                      split key none_new gauges build),
              refl,
            )),
      )
