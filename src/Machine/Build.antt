-- ===== src/Machine/Build.antt =====
-- The virtual machine that a machine gets, and what it means for it to be ready.
use cluster_api_provider_clo.Machine.Kinds.{machine_rules}
use cluster_api_provider_clo.Api.Conditions.{virtual_machine_ready_condition}
use cluster_api_provider_clo.Machine.Reconcile.{reconcile_vm}
use cluster_api_provider_clo.Machine.LoadBalancer.{join_load_balancer, add_member}
use cluster_api_provider_clo.Flow.Triples.{Triple, Triple-after, Post, Triple-bind}
use cluster_api_provider_clo.Machine.Provision.{
  configure, provision, with_provider_id, with_addresses,
}
use cluster_api_provider_clo.Machine.Vm.{ensure_vm, add_vm, power_on}
use cluster_api_provider_clo.World.Calls.{Call, get_vm_by_name, power_on_vm}
use cluster_api_provider_clo.World.Types.{
  Named, error_of, Vm, ok, GoError, err, NetworkConnection, Org, Vdc,
}
use cluster_api_provider_clo.Flow.Rules.{Preserves}
use cluster_api_provider_clo.Api.{TenantCluster, TenantMachine, Machine, TenantMachineStatus}
use cluster_api_provider_clo.Machine.Object.{T, with_true, with_status}
use cluster_api_provider_clo.Flow.{
  Session, ◌>>=◌, perform, next, crash, modify, Return, Flow, done, pure, ret,
}
use cluster_api_provider_clo.World.{World, Trace, Event}
use cluster_api_provider_clo.Base.{
  ◌∷◌, String, ◌≡◌, str_eq, false, true, ◌⊎◌, ◌<>◌, arith, Option, List, inr, some, Bool, none,
  if◌then◌else◌, refl, inl, Any,
}
use cluster_api_provider_clo.Flow.{◌>>=◌, ◌>>◌}
use mathlib.Core.Path.{subst}
use cluster_api_provider_clo.Machine.Answered.{
  Whatever, Preserves-Whatever, WasAnswered, ensure_vm-Answers,
}

module _ (W : World) (cluster : TenantCluster) (v_app catalog : Named)
    (s : Session TenantMachine) where
  abbrev named : Call
  named = get_vm_by_name v_app s.object.metadata.name true

  abbrev pub looked_up : Session TenantMachine
  looked_up = record s {
    trace = (record { call = named; error = error_of (W.answer s.trace named) }) ∷ s.trace;
  }

  -- A virtual machine that is found by name is taken as it is; after "not found" one is added,
  -- and if that goes on, it is the one taken; after any other error the handler crashes.
  pub ensure_vm_lookup :
      ((vm : Vm)
        → W.answer s.trace named ≡ ok vm
        → ensure_vm W cluster v_app catalog s ≡ (next vm, looked_up))
      × ((e : GoError)
          → W.answer s.trace named ≡ err e
          → W.contains_not_found e ≡ true
          → ensure_vm W cluster v_app catalog s ≡ add_vm W cluster v_app catalog looked_up)
      × ((e : GoError)
          → W.answer s.trace named ≡ err e
          → W.contains_not_found e ≡ false
          → ensure_vm W cluster v_app catalog s ≡ (crash, looked_up))
  unfolding ensure_vm ◌>>=◌ perform
  ensure_vm_lookup = ((λ vm h. ground arith), (λ e h k. ground arith), (λ e h k. ground arith))

-- It has been switched on.
abbrev pub WasPowered : Vm → Trace → Type 0
WasPowered vm = Any (λ (e : Event). (e.call ≡ power_on_vm vm) × (e.error ≡ none))

-- The provider id was there before, or it is that of a virtual machine that was looked up and
-- switched on.
abbrev pub IsProvided : World → String → String → Trace → Type 0
IsProvided W before after t =
    ((after ≡ before) × (str_eq before "" ≡ false))
    ⊎ ((vm : Vm) × (after ≡ "vmware-cloud-director://" <> vm.id)
        × WasAnswered W vm
        × WasPowered vm t)

pub record HasProviderId (W : World) (before : String) (s : Session TenantMachine) : Type 0 where
  pub provider_id : IsProvided W before s.object.spec.provider_id s.trace

-- The handler is done, the status says ready, and there is a provider id.
pub record Finished (W : World) (before : String) (r : Return) (s : Session TenantMachine)
    : Type 0 where
  pub result : r ≡ done
  pub ready : s.object.status.ready ≡ true
  pub provided : HasProviderId W before s

module _ (W : World) (before : String) where
  HasProviderId-perform : (c : Call) → Preserves (HasProviderId W before) (perform W c)
  unfolding perform
  HasProviderId-perform c = record {
    at = λ s h. record { provider_id = later_provided s.trace h.provider_id };
  }
    where
      later_provided :
          {after : String} (t : Trace) {e : Event}
          → IsProvided W before after t
          → IsProvided W before after (e ∷ t)
      later_provided t (inl h) = inl h
      later_provided t (inr (vm, id, answered, powered)) = inr (vm, id, answered, inr powered)

  HasProviderId-modify :
      (f : TenantMachineStatus → TenantMachineStatus)
      → Preserves (HasProviderId W before) (modify (with_status f))
  unfolding ◌>>=◌
  HasProviderId-modify f = record { at = λ s h. record { provider_id = h.provider_id } }

  finished_lem :
      Triple
        (HasProviderId W before)
        (do
          modify (with_true W virtual_machine_ready_condition)
          modify (with_status (λ s. record s { ready = true }))
          pure done)
        (Finished W before)
        Whatever
  unfolding ◌>>=◌
  finished_lem = record {
    at = λ s h. record {
      result = refl;
      ready = refl;
      provided = record { provider_id = h.provider_id };
    };
  }

Post-weaken :
    {A : Type 0} (P : Session TenantMachine → Type 0) (f : Flow A) (s : Session TenantMachine)
    → P s
    → Post (λ _. P) Whatever f s
Post-weaken P (next a) s h = h
Post-weaken P (ret r) s h = record { intro = tt }
Post-weaken P crash s h = record { intro = tt }

pub weaken :
    {A : Type 0} (P : Session TenantMachine → Type 0) (m : T A)
    → Preserves P m
    → Triple P m (λ _. P) Whatever
weaken P m h = record { at = λ s p. Post-weaken P (m s).0 (m s).1 (h.at s p) }

module _ (W : World) where
  record IsPowered (vm : Vm) (s : Session TenantMachine) : Type 0 where
    powered : WasPowered vm s.trace

  power_on-IsPowered : (vm : Vm) → Triple Whatever (power_on W vm) (λ _. IsPowered vm) Whatever
  unfolding power_on ◌>>=◌ perform
  power_on-IsPowered vm = record { at = λ s h. ground arith }

  configured-HasProviderId :
      (before : String) (vm : Vm) (connections : Option (List NetworkConnection))
      → WasAnswered W vm
      → Triple
          (IsPowered vm)
          (modify (with_provider_id W vm) >> modify (with_addresses W connections))
          (λ _. HasProviderId W before)
          Whatever
  unfolding ◌>>=◌
  configured-HasProviderId before vm none answered = record {
    at = λ s h. record { provider_id = inr (vm, refl, answered, h.powered) };
  }
  configured-HasProviderId before vm (some cs) answered = record {
    at = λ s h. record { provider_id = inr (vm, refl, answered, h.powered) };
  }

  switched-HasProviderId :
      (before : String) (vm : Vm) (connections : Option (List NetworkConnection))
      → WasAnswered W vm
      → Triple Whatever
          (do power_on W vm; modify (with_provider_id W vm); modify (with_addresses W connections))
          (λ _. HasProviderId W before)
          Whatever
  switched-HasProviderId before vm connections answered =
      Triple-bind _ _ (power_on-IsPowered vm)
        λ _. configured-HasProviderId before vm connections answered

  configure-HasProviderId :
      (before : String) (cluster : TenantCluster) (owner : Machine) (v_app : Named) (vm : Vm)
      → WasAnswered W vm
      → Triple Whatever (configure W cluster owner v_app vm) (λ _. HasProviderId W before) Whatever
  unfolding configure
  configure-HasProviderId before cluster owner v_app vm answered =
      search (Triple-after, Preserves-Whatever, switched-HasProviderId, answered) depth 40

  configure-given :
      (before : String) (cluster : TenantCluster) (owner : Machine) (v_app : Named) (vm : Vm)
      → Triple
          (λ s. Whatever s × WasAnswered W vm)
          (configure W cluster owner v_app vm)
          (λ _. HasProviderId W before)
          Whatever
  configure-given before cluster owner v_app vm = record {
    at = λ s (h, answered). (configure-HasProviderId before cluster owner v_app vm answered).at s h;
  }

  provision-HasProviderId :
      (before : String) (cluster : TenantCluster) (owner : Machine) (org : Org) (v_app : Named)
      → Triple Whatever (provision W cluster owner org v_app) (λ _. HasProviderId W before) Whatever
  unfolding provision
  provision-HasProviderId before cluster owner org v_app =
      Triple-after _ _ (Preserves-Whatever _) λ name.
        Triple-after _ _ (Preserves-Whatever _) λ found.
          Triple-after _ _ (Preserves-Whatever _) λ catalog.
            Triple-bind _ _ (ensure_vm-Answers W cluster v_app catalog)
              λ vm. configure-given before cluster owner v_app vm

  join-HasProviderId :
      (before : String) (cluster : TenantCluster) (vdc : Vdc)
      → Preserves (HasProviderId W before) (join_load_balancer W cluster vdc)
  unfolding join_load_balancer add_member
  join-HasProviderId before cluster vdc =
      search (machine_rules, HasProviderId-perform, HasProviderId-modify) depth 40

  -- The end of the reconciliation.
  finished :
      (before : String) (cluster : TenantCluster) (owner : Machine) (vdc : Vdc)
      → Triple
          (HasProviderId W before)
          (do
            if W.is_control_plane_machine owner then join_load_balancer W cluster vdc else pure tt
            modify (with_true W virtual_machine_ready_condition)
            modify (with_status (λ s. record s { ready = true }))
            pure done)
          (Finished W before)
          (Whatever)
  finished before cluster owner vdc =
      Triple-bind _ _ (weaken _ _ (search (machine_rules, join-HasProviderId) depth 12))
        λ _. finished_lem W before

  provisioned :
      (before : String) (cluster : TenantCluster) (owner : Machine) (org : Org) (v_app : Named)
      (b : Bool)
      → str_eq before "" ≡ b
      → Triple
          (λ s. s.object.spec.provider_id ≡ before)
          (if b then provision W cluster owner org v_app else pure tt)
          (λ _. HasProviderId W before)
          Whatever
  unfolding ◌>>=◌
  provisioned before cluster owner org v_app true e = record {
    at = λ s h.
        (provision-HasProviderId before cluster owner org v_app).at s (record { intro = tt });
  }
  provisioned before cluster owner org v_app false e = record {
    at = λ s h. record { provider_id = inl (h, e) };
  }

  pub reconcile_vm-Finished :
      (cluster : TenantCluster) (owner : Machine) (org : Org) (vdc : Vdc) (v_app : Named)
      (s : Session TenantMachine)
      → Post
          (Finished W s.object.spec.provider_id)
          Whatever
          (reconcile_vm W cluster owner org vdc v_app s).0
          (reconcile_vm W cluster owner org vdc v_app s).1
  unfolding reconcile_vm ◌>>=◌
  reconcile_vm-Finished cluster owner org vdc v_app s =
      (Triple-bind _ _
          (provisioned s.object.spec.provider_id cluster owner org v_app
            (str_eq s.object.spec.provider_id "") refl)
          λ _. finished s.object.spec.provider_id cluster owner vdc).at
        s refl

pub Post-next :
    {A : Type 0} (Q : A → Session TenantMachine → Type 0) (f : Flow A) (t : Session TenantMachine)
    (a : A)
    → Post Q Whatever f t
    → f ≡ next a
    → Q a t
Post-next Q (next b) t a h e = subst (λ c. Post Q Whatever c t) e h
Post-next Q (ret r) t a h e = subst (λ c. Post Q Whatever c t) e h
Post-next Q crash t a h e = subst (λ c. Post Q Whatever c t) e h
