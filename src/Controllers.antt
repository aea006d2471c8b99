-- ===== src/Controllers.antt =====
-- Both controllers at work: the requests that the manager hands them, one after the other.
pub mod Made
use cluster_api_provider_clo.Cluster
use cluster_api_provider_clo.Machine
use cluster_api_provider_clo.World.Types.{ObjectKey}
use cluster_api_provider_clo.World.{World, Trace}
use cluster_api_provider_clo.Flow.{M, Return}
use cluster_api_provider_clo.Base.{List, [], ◌∷◌}

-- A request, by the controller that gets it.
pub data Request : Type 0 where
  cluster_request machine_request : ObjectKey → Request

module _ (W : World) where
  abbrev pub handle : Request → M (Unit {0}) Return
  handle (cluster_request key) = Cluster.Reconcile.reconcile W key
  handle (machine_request key) = Machine.Reconcile.reconcile W key

  -- The calls after the requests have been handled.
  unfoldable pub serve : List Request → Trace → Trace
  serve [] t = t
  serve (r ∷ requests) t = serve requests (handle r (record { object = tt; trace = t })).1.trace
