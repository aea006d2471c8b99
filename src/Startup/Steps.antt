-- ===== src/Startup/Steps.antt =====
-- A process that starts: what it has made and registered so far, and how it ends.
use cluster_api_provider_clo.Base.{ℕ, Option, String, List, ◌∷◌, none, some}
use cluster_api_provider_clo.ClientCache.Metrics.Setup.{BuildInfo, Collector, PrometheusMetrics}
use cluster_api_provider_clo.World.Types.{Answer, ok, err, ObjectKey}

-- The kinds of object that a controller is for or watches.
pub data Kind : Type 0 where
  tenant_cluster tenant_machine cluster machine : Kind

-- The packages with an `AddToScheme`.
pub data Types : Type 0 where
  infrastructure_types cluster_types : Types

pub data Logger : Type 0 where
  stdout : Logger

-- `CloudDirectorTenantClusterReconciler` and `CloudDirectorTenantMachineReconciler`; the cache is a
-- pointer, by its number.
pub record Reconciler (K : Type 0) : Type 0 where
  pub client : K
  pub client_cache : ℕ

-- What a builder is completed with: the kind that the controller is for, and the kinds that it
-- watches, with the requests that an object of theirs stands for.
pub record Controller (K O : Type 0) : Type 0 where
  pub for_kind : Kind
  pub watches : List (Kind × (O → List ObjectKey))
  pub reconciler : Reconciler K

-- The functions of the libraries: `Cfg` is a configuration, `Mgr` a manager, `K` a client of
-- Kubernetes, `O` an object, `R` a registry of collectors. A scheme is given by the types that have
-- been added to it, whose errors are dropped.
pub record Library (Cfg Mgr K O R : Type 0) : Type 0 where
  pub get_config : Answer Cfg
  pub new_manager : Cfg → Answer Mgr
  pub get_client : Mgr → K
  pub object_key : O → ObjectKey
  -- `util.ClusterToTypedObjectsMapper`, for the tenant machines
  pub cluster_to_typed_objects_mapper : K → List Types → Answer (O → List ObjectKey)
  -- `util.MachineToInfrastructureMapFunc`, for the tenant machines
  pub machine_to_infrastructure : O → List ObjectKey
  -- `Complete`, on a manager with the scheme and the controllers registered so far
  pub complete : Mgr → List Types → List (Controller K O) → Controller K O → Answer (Unit {0})
  pub registry : R
  pub must_register : R → Collector → Option R
  pub build_info : Option BuildInfo
  -- `Start` returns when the manager is stopped or fails
  pub start : Mgr → List (Controller K O) → Answer (Unit {0})

-- What the process has done: the caches it has made, the types in the scheme of its manager and the
-- controllers registered, the last first, the metrics that it collects, and what it has logged as an
-- error. `running` is what was registered when the manager was started.
pub record Process (K O R : Type 0) : Type 0 where
  pub caches : ℕ
  pub scheme : List Types
  pub controllers : List (Controller K O)
  pub collecting : Option (PrometheusMetrics Logger R K ℕ)
  pub running : Option (List (Controller K O))
  pub errors : List String

-- A step goes on, or the process ends: with a status, or in a panic.
pub data Outcome (A : Type 0) : Type 0 where
  on : A → Outcome A
  exited : ℕ → Outcome A
  panicked : Outcome A

abbrev pub Step : Type 0 → Type 0 → Type 0
Step P A = P → Outcome A × P

module _ {P A : Type 0} where
  abbrev pub give : A → Step P A
  give a p = (on a, p)

  abbrev pub gets : (P → A) → Step P A
  gets f p = (on (f p), p)

  abbrev pub or_panic : Option A → Step P A
  or_panic none p = (panicked, p)
  or_panic (some a) p = (on a, p)

abbrev pub update : {P : Type 0} → (P → P) → Step P (Unit {0})
update f p = (on tt, f p)

module _ {P A B : Type 0} where
  abbrev pub go_on : Outcome A → P → (A → Step P B) → Outcome B × P
  go_on (on a) p f = f a p
  go_on (exited n) p f = (exited n, p)
  go_on panicked p f = (panicked, p)

  infixl 10 ◌>>=◌ ◌>>◌
  abbrev pub ◌>>=◌ : Step P A → (A → Step P B) → Step P B
  ◌>>=◌ m f p = let (r, p') = m p in go_on r p' f

  abbrev pub ◌>>◌ : Step P A → Step P B → Step P B
  m >> n = m >>= λ _. n

-- `logger.Error(message, "err", err); os.Exit(1)`
abbrev pub or_exit : {K O R A : Type 0} → String → Answer A → Step (Process K O R) A
or_exit message (ok a) p = (on a, p)
or_exit message (err e) p = (exited 1, record p { errors = message ∷ p.errors })
