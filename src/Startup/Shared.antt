-- ===== src/Startup/Shared.antt =====
-- What is running after the start, and how the process ends.
use cluster_api_provider_clo.Base.{
  ℕ, Option, String, List, [], ◌∷◌, some, none, ◌≡◌, All, Any, inl, inr, refl, map, ap, sym,
}
use cluster_api_provider_clo.ClientCache.Metrics.Setup.{
  PrometheusMetrics, finish, new_prometheus_metrics, apply_options,
}
use cluster_api_provider_clo.Startup.{
  registered, main, new_metrics, with_mapper, cluster_controller, machine_controller,
}
use cluster_api_provider_clo.Startup.Steps.{
  Kind, Library, Process, Reconciler, Controller, Step, ◌>>=◌, Outcome, on, exited, panicked,
  or_exit, or_panic, tenant_cluster, tenant_machine, cluster, Logger, stdout,
}
use cluster_api_provider_clo.World.Types.{Answer, ok, err, ObjectKey}
use mathlib.Core.Option.{none-ne-some, some-injective}

-- A process that has done nothing.
abbrev pub fresh : {K O R : Type 0} → Process K O R
fresh = record {
  caches = 0;
  scheme = [];
  controllers = [];
  collecting = none;
  running = none;
  errors = [];
}

-- The manager runs both controllers; they and the metrics have the same client and the same cache.
pub record Shares {K O R : Type 0} (p : Process K O R) : Type 0 where
  pub controllers : List (Controller K O)
  pub metrics : PrometheusMetrics Logger R K ℕ
  pub client : K
  pub cache : ℕ
  pub running : p.running ≡ some controllers
  pub collecting : p.collecting ≡ some metrics
  pub kinds :
      map (λ (c : Controller K O). c.for_kind) controllers ≡ tenant_machine ∷ tenant_cluster ∷ []
  pub same :
      All
        (λ (c : Controller K O). c.reconciler ≡ record { client = client; client_cache = cache })
        controllers
  -- both are told of changes of a Cluster
  pub watched :
      All
        (λ (c : Controller K O). Any (λ (w : Kind × (O → List ObjectKey)). w.0 ≡ cluster) c.watches)
        controllers
  pub metrics_cache : metrics.cache ≡ some cache
  pub metrics_client : metrics.controller_client ≡ some client

-- How the process may end: it ran and was stopped, it ran and failed, it failed or panicked before.
pub data Ends {K O R : Type 0} (p : Process K O R) : Outcome (Unit {0}) → Type 0 where
  stopped : Shares p → p.errors ≡ [] → Ends p (on tt)
  failed : Shares p → (message : String) → p.errors ≡ message ∷ [] → Ends p (exited 1)
  failed_early : p.running ≡ none → (message : String) → p.errors ≡ message ∷ [] → Ends p (exited 1)
  panicked_early : p.running ≡ none → p.errors ≡ [] → Ends p panicked

abbrev End : {K O R : Type 0} → Outcome (Unit {0}) × Process K O R → Type 0
End x = Ends x.1 x.0

module _ {K O R A : Type 0} (f : A → Step (Process K O R) (Unit {0})) (p : Process K O R) where
  -- A step that may exit.
  End-or_exit :
      (message : String) (a : Answer A)
      → p.running ≡ none
      → p.errors ≡ []
      → ((x : A) → End (f x p))
      → End ((or_exit message a >>= f) p)
  End-or_exit message (ok x) quiet clean h = h x
  End-or_exit message (err e) quiet clean h =
      failed_early quiet message (ap (λ es. message ∷ es) clean)

  End-or_panic :
      (o : Option A)
      → p.running ≡ none
      → p.errors ≡ []
      → ((x : A) → o ≡ some x → End (f x p))
      → End ((or_panic o >>= f) p)
  End-or_panic none quiet clean h = panicked_early quiet clean
  End-or_panic (some x) quiet clean h = h x refl

finish-options :
    {L R K C : Type 0} (m metrics : PrometheusMetrics L R K C) (registry : Option R)
    → finish m registry ≡ some metrics
    → (metrics.cache ≡ m.cache) × (metrics.controller_client ≡ m.controller_client)
finish-options m metrics none h = absurd (none-ne-some metrics h)
finish-options m metrics (some r) h =
    let e = some-injective _ _ h in
    (
      sym (ap (λ (x : PrometheusMetrics _ _ _ _). x.cache) e),
      sym (ap (λ (x : PrometheusMetrics _ _ _ _). x.controller_client) e),
    )

module _ {Cfg Mgr K O R : Type 0} (L : Library Cfg Mgr K O R) where
  -- A step that may exit after a controller was handed to the manager.
  End-registered :
      (message : String) (a : Answer (Unit {0})) (c : Controller K O) (p : Process K O R)
      (f : Unit {0} → Step (Process K O R) (Unit {0}))
      → p.running ≡ none
      → p.errors ≡ []
      → End (f tt (record p { controllers = c ∷ p.controllers }))
      → End ((or_exit message a >>= f) (registered L a c p))
  End-registered message (ok tt) c p f quiet clean h = h
  End-registered message (err e) c p f quiet clean h =
      failed_early quiet message (ap (λ es. message ∷ es) clean)

  End-mapped :
      (message : String) (a : Answer (O → List ObjectKey))
      (g : (O → List ObjectKey) → Step (Process K O R) (Answer (Unit {0})))
      (f : Unit {0} → Step (Process K O R) (Unit {0})) (p : Process K O R)
      → p.running ≡ none
      → p.errors ≡ []
      → ((mapper : O → List ObjectKey) → End ((g mapper >>= λ b. or_exit message b >>= f) p))
      → End ((with_mapper L a g >>= λ b. or_exit message b >>= f) p)
  End-mapped message (ok mapper) g f p quiet clean h = h mapper
  End-mapped message (err e) g f p quiet clean h =
      failed_early quiet message (ap (λ es. message ∷ es) clean)

  End-started :
      (message : String) (a : Answer (Unit {0})) (p : Process K O R)
      → Shares p
      → p.errors ≡ []
      → End (or_exit message a p)
  End-started message (ok tt) p shares clean = stopped shares clean
  End-started message (err e) p shares clean =
      failed
        (record {
          controllers = shares.controllers;
          metrics = shares.metrics;
          client = shares.client;
          cache = shares.cache;
          running = shares.running;
          collecting = shares.collecting;
          kinds = shares.kinds;
          same = shares.same;
          watched = shares.watched;
          metrics_cache = shares.metrics_cache;
          metrics_client = shares.metrics_client;
        })
        message (ap (λ es. message ∷ es) clean)

  abbrev reconciler : Mgr → Reconciler K
  reconciler mgr = record { client = L.get_client mgr; client_cache = 0 }

  new_metrics-options :
      (mgr : Mgr) (cache : ℕ) (metrics : PrometheusMetrics Logger R K ℕ)
      → new_metrics L mgr cache ≡ some metrics
      → (metrics.cache ≡ some cache) × (metrics.controller_client ≡ some (L.get_client mgr))
  unfolding new_metrics new_prometheus_metrics apply_options
  new_metrics-options mgr cache metrics h =
      finish-options
        (record {
          logger = some stdout;
          registry = some L.registry;
          controller_client = some (L.get_client mgr);
          cache = some cache;
        })
        metrics _ h

  -- However the libraries answer, the process ends in one of these ways. Either the manager was
  -- never started, and then the process has panicked over the registry of the metrics or has exited
  -- with status 1 after one logged error; or it ran both controllers, each told
  -- of changes of a Cluster, which share one client and one cache with the metrics, and then the process ends without an error or, when the manager failed,
  -- with status 1 after one logged error.
  pub main-Ends : Ends (main L fresh).1 (main L fresh).0
  unfolding main
  main-Ends = End-or_exit _ fresh _ L.get_config refl refl λ cfg.
      End-or_exit _ fresh _ (L.new_manager cfg) refl refl λ mgr.
        End-registered _ (L.complete mgr _ [] _) _ _ _ refl refl (
          End-mapped _ (L.cluster_to_typed_objects_mapper (L.get_client mgr) _) _ _ _ refl refl
            λ mapper. End-registered _ (L.complete mgr _ _ _) _ _ _ refl refl (
              End-or_panic _ _ (new_metrics L mgr 0) refl refl λ metrics h.
                let (cache, client) = new_metrics-options mgr 0 metrics h in
                End-started _ (L.start mgr _) _
                  (record {
                    controllers =
                        machine_controller L mapper (reconciler mgr)
                        ∷ cluster_controller L (reconciler mgr)
                        ∷ [];
                    metrics = metrics;
                    client = L.get_client mgr;
                    cache = 0;
                    running = refl;
                    collecting = refl;
                    kinds = refl;
                    same = (refl, (refl, tt));
                    watched = (inr (inl refl), (inl refl, tt));
                    metrics_cache = cache;
                    metrics_client = client;
                  })
                  refl))
