-- ===== src/Controllers/Made.antt =====
-- What the two controllers make together.
use cluster_api_provider_clo.Base.{List, [], ◌∷◌}
use cluster_api_provider_clo.Cluster
use cluster_api_provider_clo.Controllers.{Request, cluster_request, machine_request, handle, serve}
use cluster_api_provider_clo.Flow.Rules.{Preserves}
use cluster_api_provider_clo.Inventory.{Remembers, MadeOnce}
use cluster_api_provider_clo.Inventory.Rules.{Once}
use cluster_api_provider_clo.Machine
use cluster_api_provider_clo.World.{World, Trace}

module _ (W : World) (remembers : Remembers W) where
  Once-handle : (r : Request) → Preserves Once (handle W r)
  Once-handle (cluster_request key) = Cluster.Made.Once-reconcile W remembers key
  Once-handle (machine_request key) = Machine.Made.Once-reconcile W remembers key

  -- In a Cloud Director that does not say "not found" of a thing that was made and not removed, the
  -- controllers make no firewall group, pool, virtual service, vApp or virtual machine a second time
  -- without a removal in between, whatever requests they handle one after the other.
  pub serve-MadeOnce :
      (requests : List Request) (t : Trace) → MadeOnce t → MadeOnce (serve W requests t)
  unfolding serve
  serve-MadeOnce [] t h = h
  serve-MadeOnce (r ∷ requests) t h =
      serve-MadeOnce requests _
        ((Once-handle r).at (record { object = tt; trace = t }) (record { once = h })).once
