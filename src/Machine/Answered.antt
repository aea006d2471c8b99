-- ===== src/Machine/Answered.antt =====
-- The virtual machine that `Reconcile` of the machine controller goes on with is the answer of a
-- look-up by name.
use cluster_api_provider_clo.Vcdutil.{found_or_create}
use cluster_api_provider_clo.World.Calls.{get_vm_by_name}
use cluster_api_provider_clo.Flow.Triples.{Triple, Triple-after, Triple-bind}
use cluster_api_provider_clo.Base.{
  Option, String, some, none, true, ◌≡◌, refl, Bool, if◌then◌else◌, false,
}
use cluster_api_provider_clo.World.Types.{Vm, Named, Answer, ok, err}
use cluster_api_provider_clo.Api.{TenantMachine, TenantCluster}
use cluster_api_provider_clo.World.{World, Trace}
use cluster_api_provider_clo.Flow.Rules.{Preserves}
use cluster_api_provider_clo.Flow.{◌>>=◌, Session, perform, deref, or_else, pure}
use cluster_api_provider_clo.Machine.Object.{T, not_ready_retry}
use cluster_api_provider_clo.Machine.Vm.{ensure_vm, add_vm, add_named}

-- No more is asked of a session.
pub record Whatever (s : Session TenantMachine) : Type 0 where
  pub intro : Unit {0}

pub Preserves-Whatever : {A : Type 0} (m : T A) → Preserves Whatever m
Preserves-Whatever m = record { at = λ s h. record { intro = tt } }

-- A look-up by name was answered by this virtual machine.
abbrev pub WasAnswered : World → Vm → Type 0
WasAnswered W vm =
    (v_app : Named) × (name : String) × (t : Trace) × (W.answer t (get_vm_by_name v_app name true)
      ≡ ok vm)

module _ (W : World) where
  -- A step whose value has been answered.
  abbrev pub Answers : T Vm → Type 0
  Answers m = Triple Whatever m (λ vm s. Whatever s × WasAnswered W vm) Whatever

  or_else-Answers :
      (v_app : Named) (name : String) (b : Answer Vm) (reason text : String)
      → Triple
          (λ s. Whatever s × ((t : Trace) × (W.answer t (get_vm_by_name v_app name true) ≡ b)))
          (or_else b (not_ready_retry W reason text))
          (λ vm s. Whatever s × WasAnswered W vm)
          Whatever
  unfolding ◌>>=◌
  or_else-Answers v_app name (ok vm) reason text = record {
    at = λ s (h, (t, e)). (h, (v_app, name, t, e));
  }
  or_else-Answers v_app name (err x) reason text = record { at = λ s h. record { intro = tt } }

  looks_up :
      (v_app : Named) (name : String)
      → Triple Whatever
          (perform W (get_vm_by_name v_app name true))
          (λ b s. Whatever s × ((t : Trace) × (W.answer t (get_vm_by_name v_app name true) ≡ b)))
          Whatever
  unfolding perform
  looks_up v_app name = record { at = λ s h. (record { intro = tt }, (s.trace, refl)) }

  add_named-Answers :
      (cluster : TenantCluster) (v_app catalog : Named) (machine : TenantMachine)
      → Answers (add_named W cluster v_app catalog machine)
  unfolding add_named
  add_named-Answers cluster v_app catalog machine = Triple-after _ _ (Preserves-Whatever _) λ found.
      Triple-after _ _ (Preserves-Whatever _) λ template.
        Triple-after _ _ (Preserves-Whatever _) λ a. Triple-after _ _ (Preserves-Whatever _) λ task.
          Triple-after _ _ (Preserves-Whatever _) λ _.
            Triple-bind _ _ (looks_up v_app machine.metadata.name)
              λ b. or_else-Answers v_app machine.metadata.name b _ _

  add_vm-Answers :
      (cluster : TenantCluster) (v_app catalog : Named) → Answers (add_vm W cluster v_app catalog)
  unfolding add_vm
  add_vm-Answers cluster v_app catalog =
      Triple-after _ _ (Preserves-Whatever _)
        λ machine. add_named-Answers cluster v_app catalog machine

  abbrev Given : Option Vm → Session TenantMachine → Type 0
  Given none s = Whatever s
  Given (some vm) s = Whatever s × WasAnswered W vm

  deref-Answers :
      (o : Option Vm) → Triple (Given o) (deref o) (λ vm s. Whatever s × WasAnswered W vm) Whatever
  unfolding ◌>>=◌
  deref-Answers none = record { at = λ s h. h }
  deref-Answers (some vm) = record { at = λ s h. h }

  -- What the look-up found, or what has been added after "not found".
  found_or_added :
      (v_app : Named) (name : String) (a : Answer Vm) (create : T Vm)
      → Answers create
      → Triple
          (λ s. Whatever s × ((t : Trace) × (W.answer t (get_vm_by_name v_app name true) ≡ a)))
          (found_or_create W a create)
          Given
          Whatever
  unfolding ◌>>=◌
  found_or_added v_app name (ok vm) create h = record {
    at = λ s (k, (t, e)). (k, (v_app, name, t, e));
  }
  found_or_added v_app name (err x) create h = created (W.contains_not_found x)
    where
      created :
          (b : Bool)
          → Triple
              (λ s.
                Whatever s × ((t : Trace) × (W.answer t (get_vm_by_name v_app name true) ≡ err x)))
              (if b then (do a ← create; pure (some a)) else pure none)
              Given
              Whatever
      created true = record {
        at = λ s (k, _). (Triple-bind create _ h λ vm. record { at = λ u q. q }).at s k;
      }
      created false = record { at = λ s (k, _). k }

  pub ensure_vm-Answers :
      (cluster : TenantCluster) (v_app catalog : Named)
      → Answers (ensure_vm W cluster v_app catalog)
  unfolding ensure_vm
  ensure_vm-Answers cluster v_app catalog = Triple-after _ _ (Preserves-Whatever _) λ name.
      Triple-bind _ _ (looks_up v_app name) λ a.
        Triple-bind _ _ (found_or_added v_app name a _ (add_vm-Answers cluster v_app catalog))
          deref-Answers
