-- ===== src/Cluster/Patch.antt =====
-- The deferred patch of the cluster controller.
use cluster_api_provider_clo.World.Calls.{patch_cluster}
use cluster_api_provider_clo.World.Types.{GoError}
use cluster_api_provider_clo.Base.{Option, none, some, ◌∷◌, [], List, ◌≡◌, String}
use cluster_api_provider_clo.Flow.{Return, Session}
use cluster_api_provider_clo.Api.{TenantCluster}
use cluster_api_provider_clo.World.{World, Trace}

-- What a failed patch makes of the handler's return.
abbrev pub patched : World → Return → Option GoError → Return
patched W r none = r
patched W r (some e) = record { requeue_after = 0; error = W.new_aggregate (r.error ∷ some e ∷ []) }

-- The newest call is a patch of the object as it is.
abbrev pub EndsInPatch : TenantCluster → Session TenantCluster → Type 0
EndsInPatch original s = elim s.trace [
  | [] ↦ ⊥
  | e ∷ t ↦ (owned : List String) × (e.call ≡ patch_cluster original s.object owned)
]

abbrev pub newest_error : Trace → Option GoError
newest_error [] = none
newest_error (e ∷ t) = e.error
