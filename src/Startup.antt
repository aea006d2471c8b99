-- ===== src/Startup.antt =====
-- main.go, and `SetupWithManager` of controllers/clouddirectortenantcluster_controller.go and of
-- controllers/clouddirectortenantmachine_controller.go: what is registered with the manager before
-- it runs. The manager, the builder of controllers, the schemes and the registry are others'.
pub mod Steps
pub mod Shared
pub mod Ticker
use cluster_api_provider_clo.Base.{ℕ, Option, String, List, [], ◌∷◌, some, none, ◌+◌}
use cluster_api_provider_clo.ClientCache.Metrics.Setup.{
  BuildInfo, Collector, PrometheusMetrics, with_logger, with_prometheus_registry, with_manager,
  with_client_cache, new_prometheus_metrics,
}
use cluster_api_provider_clo.Startup.Steps.{
  Kind, Types, Library, Process, Reconciler, Controller, Step, ◌>>=◌, ◌>>◌, on, exited, give, gets,
  update, or_exit, or_panic, tenant_cluster, tenant_machine, cluster, machine, infrastructure_types,
  cluster_types, Logger, stdout,
}
use cluster_api_provider_clo.World.Types.{Answer, ok, err, GoError, ObjectKey}

module _ {Cfg Mgr K O R : Type 0} (L : Library Cfg Mgr K O R) where
  abbrev P : Type 0
  P = Process K O R

  -- `Complete`
  abbrev pub registered : Answer (Unit {0}) → Controller K O → P → P
  registered (ok u) c p = record p { controllers = c ∷ p.controllers }
  registered (err e) c p = p

  abbrev pub complete : Mgr → Controller K O → Step P (Answer (Unit {0}))
  complete mgr c p = let a = L.complete mgr p.scheme p.controllers c in (on a, registered a c p)

  abbrev pub add_to_scheme : Types → Step P (Unit {0})
  add_to_scheme types = update (λ p. record p { scheme = types ∷ p.scheme })

  -- The requests that a watched cluster stands for: the one with its own name.
  abbrev pub same_name : O → List ObjectKey
  same_name o = L.object_key o ∷ []

  abbrev pub cluster_controller : Reconciler K → Controller K O
  cluster_controller r = record {
    for_kind = tenant_cluster;
    watches = (cluster, same_name) ∷ [];
    reconciler = r;
  }

  abbrev pub machine_controller : (O → List ObjectKey) → Reconciler K → Controller K O
  machine_controller mapper r = record {
    for_kind = tenant_machine;
    watches = (machine, L.machine_to_infrastructure) ∷ (cluster, mapper) ∷ [];
    reconciler = r;
  }

  -- `SetupWithManager` of the cluster controller
  abbrev pub setup_cluster : Mgr → Reconciler K → Step P (Answer (Unit {0}))
  setup_cluster mgr r = do
    add_to_scheme infrastructure_types
    add_to_scheme cluster_types
    complete mgr (cluster_controller r)

  abbrev pub with_mapper :
      Answer (O → List ObjectKey)
      → ((O → List ObjectKey) → Step P (Answer (Unit {0})))
      → Step P (Answer (Unit {0}))
  with_mapper (ok mapper) f = f mapper
  with_mapper (err e) f = give (err e)

  -- `SetupWithManager` of the machine controller
  abbrev pub setup_machine : Mgr → Reconciler K → Step P (Answer (Unit {0}))
  setup_machine mgr r = do
    add_to_scheme infrastructure_types
    add_to_scheme cluster_types
    scheme ← gets (λ p. p.scheme)
    with_mapper (L.cluster_to_typed_objects_mapper r.client scheme)
        λ mapper. complete mgr (machine_controller mapper r)

  -- `NewClientCache`
  abbrev pub new_client_cache : Step P ℕ
  new_client_cache p = (on p.caches, record p { caches = p.caches + 1 })

  abbrev pub start : Mgr → Step P (Answer (Unit {0}))
  start mgr p = (on (L.start mgr p.controllers), record p { running = some p.controllers })

  -- The options of the metrics, and `NewPrometheusMetrics`
  unfoldable pub new_metrics : Mgr → ℕ → Option (PrometheusMetrics Logger R K ℕ)
  new_metrics mgr cache = new_prometheus_metrics L.must_register L.build_info (
      with_logger stdout
      ∷ with_prometheus_registry L.registry
      ∷ with_manager (L.get_client mgr)
      ∷ with_client_cache cache
      ∷ [])

  -- `main`; the error of `NewPrometheusMetrics` is always nil.
  unfoldable pub main : Step P (Unit {0})
  main = do
    cfg ← or_exit "error getting config" L.get_config
    mgr ← or_exit "error creating manager" (L.new_manager cfg)
    cache ← new_client_cache
    a ← setup_cluster mgr (record { client = L.get_client mgr; client_cache = cache })
    or_exit "error creating cluster controller" a
    b ← setup_machine mgr (record { client = L.get_client mgr; client_cache = cache })
    or_exit "error creating machine controller" b
    metrics ← or_panic (new_metrics mgr cache)
    update (λ p. record p { collecting = some metrics })
    c ← start mgr
    or_exit "error running manager" c
