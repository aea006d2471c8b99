-- ===== src/World.antt =====
-- The outside world: what Kubernetes and Cloud Director answer, and the library functions that
-- the controllers apply to values. None of it is code of the repository, so it is a parameter:
-- an answer may depend on every call made before it.
pub mod Types
pub mod Calls
use Prim.Native.Nat.{Ordering}
use cluster_api_provider_clo.Base.{ℕ, String, Bool, Option, List}
use cluster_api_provider_clo.Api.{Machine, ℤ}
use cluster_api_provider_clo.Api.Conditions.{Condition, ConditionType, Severity}
use Types.{GoError, Answer, Addr, VcdClient}
use Calls.{Call, Reply}

-- A call, with the error that it returned.
pub record Event : Type 0 where
  pub call : Call
  pub error : Option GoError

-- The calls made so far, the newest first.
abbrev pub Trace : Type 0
Trace = List Event

pub record World : Type 0 where
  pub answer : Trace → (c : Call) → Answer (Reply c)
  -- the clock, in nanoseconds since 1970
  pub now : Trace → ℕ
  -- the keys of the expiring cache, and the token that a client holds
  pub cache_keys : Trace → List ℕ
  pub vcd_token : Trace → VcdClient → String
  -- `govcd.ContainsNotFound` and `apierrors.IsNotFound`, of an error that is not nil
  pub contains_not_found : GoError → Bool
  pub is_not_found : GoError → Bool
  -- `kerrors.NewAggregate`
  pub new_aggregate : List (Option GoError) → Option GoError
  -- package conditions of cluster-api, on the conditions of an object
  pub mark_true : ConditionType → List Condition → List Condition
  pub mark_false : ConditionType → String → Severity → String → List Condition → List Condition
  pub set_summary : List ConditionType → List Condition → List Condition
  pub is_true : ConditionType → List Condition → Bool
  -- `clusterv1.ReadyCondition`, `ControlPlaneInitializedCondition` and
  -- `WaitingForControlPlaneAvailableReason`
  pub ready_condition : ConditionType
  pub control_plane_initialized_condition : ConditionType
  pub waiting_for_control_plane_available_reason : String
  -- `types.FirewallGroupTypeIpSet`, `types.IPAllocationModePool`, `clusterv1.MachineInternalIP`
  pub firewall_group_type_ip_set : String
  pub ip_allocation_mode_pool : String
  pub machine_internal_ip : String
  -- controllerutil: the new finalizers, and for the first whether they changed
  pub add_finalizer : String → List String → List String × Bool
  pub remove_finalizer : String → List String → List String
  -- `util.IsControlPlaneMachine`
  pub is_control_plane_machine : Machine → Bool
  -- `url.Parse` of a text given by its bytes
  pub parse_url : List ℕ → Answer String
  -- `jwt.Parser.ParseUnverified` with `MapClaims`: the claims, if they are a `MapClaims`, and in
  -- them "exp" in seconds since 1970, if it is a number, as an `int64`
  pub parse_unverified : String → Answer (Option (Option ℤ))
  -- `ReplaceAllString` of the pattern `matchRequestID`
  pub replace_request_id : String → String
  -- `base64.StdEncoding.EncodeToString`, of bytes and of the bytes of a text
  pub encode_bytes : List ℕ → String
  pub encode_text : String → String
  -- `netip.ParseAddr`, and the `Compare` of addresses
  pub parse_addr : String → Answer Addr
  pub compare_addr : Addr → Addr → Ordering
