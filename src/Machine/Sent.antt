-- ===== src/Machine/Sent.antt =====
-- What the machine controller sends a virtual machine before it switches it on, and where that comes
-- from.
use cluster_api_provider_clo.ClientCache.{data_of}
use cluster_api_provider_clo.CloudInit.{execute_cloud_init_template}
use cluster_api_provider_clo.Machine.Provision.{bootstrap_data, or_retry}
use cluster_api_provider_clo.Flow.Triples.{Triple, Triple-bind}
use cluster_api_provider_clo.World.Types.{
  Vm, Answer, VAppNetwork, ProductSectionList, GoError, error_of, Secret, NetworkConnectionSection,
  ok, err,
}
use cluster_api_provider_clo.Api.{Machine, TenantMachine}
use cluster_api_provider_clo.Machine.Kinds.{machine_rules}
use cluster_api_provider_clo.Base.{
  true, Bool, ◌≡◌, List, String, Any, false, Option, ℕ, ◌∷◌, arith, inr, some, refl, sym, [], none,
  ap, ◌∙◌,
}
use cluster_api_provider_clo.World.Calls.{Call, power_on_vm, set_product_section_list, get_secret}
use cluster_api_provider_clo.World.{World, Event, Trace}
use cluster_api_provider_clo.Flow.{◌>>=◌, Session, perform, modify, or_else, deref, retry}
use cluster_api_provider_clo.Machine.Object.{T}
use cluster_api_provider_clo.Machine.Properties.Lookup.{lookup}
use cluster_api_provider_clo.Flow.Rules.{Preserves}

-- What the bootstrap secret of the owner holds as its value.
abbrev pub IsBootstrap : World → Machine → List ℕ → Type 0
IsBootstrap W owner value =
    (name : String) × (t : Trace) × (secret : Secret) × (owner.data_secret_name ≡ some name)
    × (W.answer t (get_secret (record { name = name; namespace = owner.namespace })) ≡ ok secret)
    × (data_of "value" secret.entries ≡ some value)

-- What the cloud-init template gives for the virtual machine.
abbrev pub IsMetadata : World → Vm → String → Type 0
IsMetadata W vm text =
    (network : VAppNetwork) × (section : NetworkConnectionSection) × (execute_cloud_init_template W
        vm network section
      ≡ ok text)

-- The call went through, and the list that it sent has the bootstrap data under the key of the user
-- data, and the text of the template under the key of the metadata.
abbrev pub Sets : World → Machine → Vm → Event → Type 0
Sets W owner vm e =
    (sections : ProductSectionList) × (value : List ℕ) × (text : String) × (e.call
      ≡ set_product_section_list vm sections)
    × (e.error ≡ none)
    × IsBootstrap W owner value
    × IsMetadata W vm text
    × (lookup "userdata" sections.property ≡ some (W.encode_bytes value))
    × (lookup "metadata" sections.property ≡ some (W.encode_text text))

-- The call does not switch a machine on, or it was configured before.
abbrev pub InOrder : World → Machine → Event → Trace → Type 0
InOrder W owner e t = (vm : Vm) → e.call ≡ power_on_vm vm → Any (Sets W owner vm) t

abbrev pub Ordered : World → Machine → Trace → Type 0
Ordered W owner [] = Unit
Ordered W owner (e ∷ t) = InOrder W owner e t × Ordered W owner t

pub record HasOrder (W : World) (owner : Machine) (s : Session TenantMachine) : Type 0 where
  pub ordered : Ordered W owner s.trace

pub record IsConfigured (W : World) (owner : Machine) (vm : Vm) (s : Session TenantMachine)
    : Type 0 where
  pub configured : Any (Sets W owner vm) s.trace

abbrev powers_on : Call → Bool
powers_on (power_on_vm vm) = true
powers_on _ = false

conflict : true ≡ false → ⊥
conflict h = ground arith

pub InOrder-other :
    (W : World) (owner : Machine) (c : Call) (e : Option GoError) (t : Trace)
    → powers_on c ≡ false
    → InOrder W owner (record { call = c; error = e }) t
InOrder-other W owner c e t h vm k = absurd (conflict (sym (ap powers_on k) ∙ h))

module _ (W : World) (owner : Machine) where
  pub HasOrder-perform :
      (c : Call) → powers_on c ≡ false → Preserves (HasOrder W owner) (perform W c)
  unfolding perform
  HasOrder-perform c h = record {
    at = λ s o. record {
      ordered = (InOrder-other W owner c (error_of (W.answer s.trace c)) _ h, o.ordered);
    };
  }

  pub HasOrder-modify :
      (f : TenantMachine → TenantMachine) → Preserves (HasOrder W owner) (modify f)
  unfolding ◌>>=◌
  HasOrder-modify f = record { at = λ s o. record { ordered = o.ordered } }

  pub IsConfigured-perform :
      (vm : Vm) (c : Call) → Preserves (IsConfigured W owner vm) (perform W c)
  unfolding perform
  IsConfigured-perform vm c = record { at = λ s o. record { configured = inr o.configured } }

  pub IsConfigured-modify :
      (vm : Vm) (f : TenantMachine → TenantMachine) → Preserves (IsConfigured W owner vm) (modify f)
  unfolding ◌>>=◌
  IsConfigured-modify vm f = record { at = λ s o. record { configured = o.configured } }

pub ruleset order_rules =
    (machine_rules, HasOrder-perform, HasOrder-modify, IsConfigured-perform, IsConfigured-modify)

-- A fact that a step has established is at hand for what follows.
pub Triple-given :
    {A F : Type 0} {P X : Session TenantMachine → Type 0} {Q : A → Session TenantMachine → Type 0}
    (m : T A)
    → (F → Triple P m Q X)
    → Triple (λ s. P s × F) m Q X
Triple-given m k = record { at = λ s h. (k h.1).at s h.0 }

module _ (W : World) (owner : Machine) where
  -- A step that keeps the order, and what is known of its value.
  abbrev pub Gives : {A : Type 0} → T A → (A → Type 0) → Type 0
  Gives m F = Triple (HasOrder W owner) m (λ a s. HasOrder W owner s × F a) (HasOrder W owner)

  Gives-perform :
      (c : Call) → powers_on c ≡ false → Gives (perform W c) (λ a. (t : Trace) × (W.answer t c ≡ a))
  unfolding perform
  Gives-perform c h = record {
    at = λ s o. ((HasOrder-perform W owner c h).at s o, (s.trace, refl));
  }

  pub Gives-or_else : {A : Type 0} (a : Answer A) → Gives (or_else a retry) (λ x. a ≡ ok x)
  unfolding ◌>>=◌
  Gives-or_else (ok x) = record { at = λ s h. (h, refl) }
  Gives-or_else (err e) = record { at = λ s h. h }

  Gives-deref : {A : Type 0} (o : Option A) → Gives (deref o) (λ x. o ≡ some x)
  unfolding ◌>>=◌
  Gives-deref none = record { at = λ s h. h }
  Gives-deref (some x) = record { at = λ s h. (h, refl) }

  Gives-or_retry :
      {A : Type 0} {F : A → Type 0} (o : Option A)
      → ((x : A) → o ≡ some x → F x)
      → Gives (or_retry o) F
  unfolding ◌>>=◌
  Gives-or_retry none k = record { at = λ s h. h }
  Gives-or_retry (some x) k = record { at = λ s h. (h, k x refl) }

  pub bootstrap_data-IsBootstrap : Gives (bootstrap_data W owner) (IsBootstrap W owner)
  unfolding bootstrap_data
  bootstrap_data-IsBootstrap = Triple-bind _ _ (Gives-deref owner.data_secret_name) λ name.
      Triple-given _ λ named.
        Triple-bind _ _
          (Gives-perform (get_secret (record { name = name; namespace = owner.namespace })) refl)
          λ a. Triple-given _ λ (t, answered). Triple-bind _ _ (Gives-or_else a) λ secret.
            Triple-given _
              λ e. Gives-or_retry _ λ value held. (name, t, secret, named, answered ∙ e, held)
