-- ===== src/Machine/Object.antt =====
-- What the machine controller does to its object in memory: conditions, finalizer, status.
use cluster_api_provider_clo.World.Types.{GoError}
use cluster_api_provider_clo.Api.Conditions.{
  ConditionType, Severity, virtual_machine_ready_condition, load_balancer_member_condition,
  severity_error, severity_info, cloud_director_error_reason,
}
use cluster_api_provider_clo.World.{World}
use cluster_api_provider_clo.Api.{TenantMachineStatus, TenantMachine, MachineAddress}
use cluster_api_provider_clo.Flow.{M, modify, retry}
use cluster_api_provider_clo.Base.{String, List, ◌∷◌, if◌then◌else◌, str_eq, [], ◌<>◌}
use cluster_api_provider_clo.Flow.{◌>>◌}

abbrev pub tenant_machine_finalizer : String
tenant_machine_finalizer = "clouddirectortenant.infrastructure.cluster.x-k8s.io/finalizer"

abbrev pub T : Type 0 → Type 0
T = M TenantMachine

abbrev pub with_status : (TenantMachineStatus → TenantMachineStatus) → TenantMachine → TenantMachine
with_status f m = record m { status = f m.status }

module _ (W : World) where
  abbrev pub with_true : ConditionType → TenantMachine → TenantMachine
  with_true t = with_status (λ s. record s { conditions = W.mark_true t s.conditions })

  abbrev pub with_false : ConditionType → String → Severity → String → TenantMachine → TenantMachine
  with_false t reason severity message =
      with_status
        (λ s. record s { conditions = W.mark_false t reason severity message s.conditions })

  -- `conditions.MarkFalse(..., VirtualMachineReadyCondition, ...)` with an error or for information
  abbrev pub not_ready : String → String → TenantMachine → TenantMachine
  not_ready reason message =
      with_false virtual_machine_ready_condition reason severity_error message

  abbrev pub waiting : String → TenantMachine → TenantMachine
  waiting reason = with_false virtual_machine_ready_condition reason severity_info ""

  -- Marks the machine, and comes back in a minute.
  abbrev pub not_ready_retry : {A : Type 0} → String → String → GoError → T A
  not_ready_retry reason text e = do modify (not_ready reason (text <> e.message)); retry e

  abbrev pub not_member : String → TenantMachine → TenantMachine
  not_member message =
      with_false load_balancer_member_condition cloud_director_error_reason severity_error message

  -- `controllerutil.RemoveFinalizer`
  abbrev pub without_finalizer : TenantMachine → TenantMachine
  without_finalizer m = record m {
    metadata = record m.metadata {
      finalizers = W.remove_finalizer tenant_machine_finalizer m.metadata.finalizers;
    };
  }

  -- The new object of `controllerutil.AddFinalizer`.
  abbrev pub with_finalizer : TenantMachine → TenantMachine
  with_finalizer m = record m {
    metadata = record m.metadata {
      finalizers = (W.add_finalizer tenant_machine_finalizer m.metadata.finalizers).0;
    };
  }

  -- The last address of the internal type, or the empty text.
  unfoldable pub internal_ip_address : String → List MachineAddress → String
  internal_ip_address last [] = last
  internal_ip_address last (a ∷ rest) =
      internal_ip_address (if str_eq a.type W.machine_internal_ip then a.address else last) rest
