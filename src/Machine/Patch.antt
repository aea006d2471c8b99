-- ===== src/Machine/Patch.antt =====
-- The deferred patch of the machine controller.
use cluster_api_provider_clo.World.Calls.{patch_machine}
use cluster_api_provider_clo.Base.{◌≡◌, List, String}
use cluster_api_provider_clo.World.{World}
use cluster_api_provider_clo.Flow.{Session}
use cluster_api_provider_clo.Api.{TenantMachine, Machine, Cluster}
use cluster_api_provider_clo.Base.{[], ◌∷◌}

-- The newest call is a patch of the object as it is.
abbrev pub EndsInPatch : TenantMachine → Session TenantMachine → Type 0
EndsInPatch original s = elim s.trace [
  | [] ↦ ⊥
  | e ∷ t ↦ (owned : List String) × (e.call ≡ patch_machine original s.object owned)
]
