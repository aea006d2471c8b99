-- ===== src/Machine/Finalizer.antt =====
-- The finalizer of a machine and its virtual machine, in `reconcileDelete` of the machine
-- controller.
use mathlib.Core.Path.{subst}
use cluster_api_provider_clo.Flow.Triples.{Triple, Triple-after, Post}
use cluster_api_provider_clo.Vcdutil.{find, contains_not_found}
use cluster_api_provider_clo.World.Types.{Vdc, Named, Vm, ok, Answer-cases, Answer, err}
use cluster_api_provider_clo.Machine.Object.{without_finalizer}
use cluster_api_provider_clo.Machine.Delete.{
  remove_vm, remove_from_v_app, delete_from_cluster, reconcile_delete, fetch_cluster, delete_with,
}
use cluster_api_provider_clo.Machine.LoadBalancer.{leave_load_balancer}
use cluster_api_provider_clo.ClientCache.Rules.{KeptByClient, Preserves-get_vcd_client}
use cluster_api_provider_clo.Flow.Rules.{Preserves}
use cluster_api_provider_clo.Machine.Kinds.{machine_rules}
use cluster_api_provider_clo.Flow.{perform, Session, ◌>>=◌, Flow, next, ret, crash, done, Return}
use cluster_api_provider_clo.World.{World, Trace}
use cluster_api_provider_clo.World.Calls.{Call, get_vm_by_name, delete_vm, get_tenant_cluster}
use cluster_api_provider_clo.Api.{
  TenantMachine, Machine, CloudDirectorReference, TenantCluster, Cluster,
}
use cluster_api_provider_clo.Base.{
  [], ◌∷◌, String, Option, ◌≡◌, some, true, ◌⊎◌, none, ap, arith, inl, refl, inr, ◌∙◌, sym,
}

-- The object in memory is still the one given.
pub record Unchanged (m : TenantMachine) (s : Session TenantMachine) : Type 0 where
  pub object : s.object ≡ m

-- The name that a call looks up among the virtual machines of a vApp.
abbrev pub vm_lookup_of : Call → Option String
vm_lookup_of (get_vm_by_name v_app name refresh) = some name
vm_lookup_of _ = none

-- The newest call looked that name up in a vApp, and was answered by the virtual machine.
abbrev pub WasFound : World → Vm → String → Trace → Type 0
WasFound W vm name [] = ⊥
WasFound W vm name (e ∷ t) =
    (v_app : Named) × (e.call ≡ get_vm_by_name v_app name true)
    × (W.answer t (get_vm_by_name v_app name true) ≡ ok vm)

-- The newest call is a look-up by name that ended in "not found", or the deletion, which went
-- through, of the virtual machine that answered the look-up just before.
abbrev pub VmGone : World → String → Trace → Type 0
VmGone W name [] = ⊥
VmGone W name (e ∷ t) =
    ((vm_lookup_of e.call ≡ some name) × (contains_not_found W e.error ≡ true))
    ⊎ ((vm : Vm) × (e.call ≡ delete_vm vm) × (e.error ≡ none) × WasFound W vm name t)

Unchanged-perform :
    (W : World) (m : TenantMachine) (call : Call) → Preserves (Unchanged m) (perform W call)
unfolding perform
Unchanged-perform W m call = record { at = λ s h. record { object = h.object } }

Unchanged-KeptByClient : (W : World) (m : TenantMachine) → KeptByClient W (Unchanged m)
Unchanged-KeptByClient W m = record {
  secret = λ k. search Unchanged-perform;
  hit = λ k. search Unchanged-perform;
  add = λ k d t. search Unchanged-perform;
  token = λ d o t. search Unchanged-perform;
}

ruleset unchanged_rules = (machine_rules, Unchanged-perform)

module _ (W : World) (m : TenantMachine) where
  -- What removes the finalizer: no vApp was recorded, or the machine is gone.
  abbrev pub Released : Option CloudDirectorReference → Session TenantMachine → Type 0
  Released r t =
      (t.object ≡ without_finalizer W m) × ((r ≡ none) ⊎ VmGone W m.metadata.name t.trace)

  leave-Unchanged :
      (cluster : TenantCluster) (vdc : Vdc)
      → Preserves (Unchanged m) (leave_load_balancer W cluster vdc)
  unfolding leave_load_balancer
  leave-Unchanged cluster vdc = search unchanged_rules depth 30

  abbrev look_up : Named → Session TenantMachine → Call
  look_up v_app s = get_vm_by_name v_app s.object.metadata.name true

  abbrev after_look_up : Named → Session TenantMachine → Session TenantMachine
  after_look_up v_app s = (perform W (look_up v_app s) s).1

  -- Both the look-up and the deletion went through.
  remove_vm-found :
      (v_app : Named) (s : Session TenantMachine) (vm : Vm)
      → W.answer s.trace (look_up v_app s) ≡ ok vm
      → W.answer (after_look_up v_app s).trace (delete_vm vm) ≡ ok tt
      → remove_vm W v_app s ≡ (
        next done,
        record {
          object = without_finalizer W s.object;
          trace = (record { call = delete_vm vm; error = none }) ∷ (after_look_up v_app s).trace;
        },
      )
  unfolding remove_vm ◌>>=◌ find perform
  remove_vm-found v_app s vm h k = ground arith

  abbrev Removed : Option CloudDirectorReference → Flow Return × Session TenantMachine → Type 0
  Removed r p = Post (λ _. Released r) (Unchanged m) p.0 p.1

  found_released :
      (v_app : Named) (r : Option CloudDirectorReference) (s : Session TenantMachine) (vm : Vm)
      → s.object ≡ m
      → W.answer s.trace (look_up v_app s) ≡ ok vm
      → W.answer (after_look_up v_app s).trace (delete_vm vm) ≡ ok tt
      → Removed r (remove_vm W v_app s)
  unfolding perform
  found_released v_app r s vm h k d = subst (Removed r) (sym (remove_vm-found v_app s vm k d)) (
    ap (without_finalizer W) h,
    inr (
        inr (
          vm,
          refl,
          refl,
          (
            v_app,
            ap (λ (x : TenantMachine). get_vm_by_name v_app x.metadata.name true) h,
            subst
                (λ (x : TenantMachine).
                  W.answer s.trace (get_vm_by_name v_app x.metadata.name true) ≡ ok vm)
                h k,
          ),
        )),
  )

  remove_vm-VmGone :
      (v_app : Named) (r : Option CloudDirectorReference)
      → Triple (Unchanged m) (remove_vm W v_app) (λ _. Released r) (Unchanged m)
  unfolding remove_vm ◌>>=◌ find perform
  remove_vm-VmGone v_app r = record { at = λ s h. go s h.object }
    where
      go : (s : Session TenantMachine) → s.object ≡ m → Removed r (remove_vm W v_app s)
      go s h = elim (Answer-cases (W.answer s.trace (look_up v_app s))) [
        | inr (e, k) ↦ ground arith
        | inl (vm, k) ↦
            elim (Answer-cases (W.answer (after_look_up v_app s).trace (delete_vm vm))) [
              | inr (e, d) ↦ ground arith
              | inl (u, d) ↦ found_released v_app r s vm h k d
            ]
      ]

  remove_from_v_app-Released :
      (r : Option CloudDirectorReference) (vdc : Vdc)
      → Triple (Unchanged m) (remove_from_v_app W r vdc) (λ _. Released r) (Unchanged m)
  unfolding remove_from_v_app ◌>>=◌
  remove_from_v_app-Released none vdc = record {
    at = λ s h. (ap (without_finalizer W) h.object, inl refl);
  }
  remove_from_v_app-Released (some ref) vdc =
      search (Triple-after, unchanged_rules, remove_vm-VmGone) depth 30

  delete_from_cluster-Released :
      (owner : Machine) (cluster : TenantCluster)
      → Triple
          (Unchanged m)
          (delete_from_cluster W owner cluster)
          (λ _. Released cluster.status.v_app)
          (Unchanged m)
  unfolding delete_from_cluster
  delete_from_cluster-Released owner cluster =
      search
        (
          Triple-after,
          unchanged_rules,
          leave-Unchanged,
          Preserves-get_vcd_client W (Unchanged-KeptByClient W m),
          remove_from_v_app-Released,
        )
        depth 40

  Post-Released :
      {A : Type 0} (r : Option CloudDirectorReference) (f : Flow A) (t : Session TenantMachine)
      → Post (λ _. Released r) (Unchanged m) f t
      → (t.object ≡ m) ⊎ Released r t
  Post-Released r (next a) t h = inr h
  Post-Released r (ret x) t h = inl h.object
  Post-Released r crash t h = inl h.object

-- The tenant cluster was answered for the owner's infrastructure reference, and has no vApp.
abbrev pub HasNoVApp : World → Cluster → Type 0
HasNoVApp W owner_cluster =
    (name : String) × (t : Trace) × (cluster : TenantCluster) × (owner_cluster.infrastructure_ref
      ≡ some name)
    × (W.answer t (get_tenant_cluster (record { name = name; namespace = owner_cluster.namespace }))
        ≡ ok cluster)
    × (cluster.status.v_app ≡ none)

-- Deletion from a cluster that was fetched.
delete_from_cluster_finalizer :
    (W : World) (owner : Machine) (cluster : TenantCluster) (s : Session TenantMachine)
    → let t = (delete_from_cluster W owner cluster s).1 in
      (t.object ≡ s.object)
      ⊎ ((t.object ≡ without_finalizer W s.object)
          × ((cluster.status.v_app ≡ none) ⊎ VmGone W s.object.metadata.name t.trace))
delete_from_cluster_finalizer W owner cluster s =
    Post-Released W s.object cluster.status.v_app _ _
      ((delete_from_cluster-Released W s.object owner cluster).at s (record { object = refl }))

-- What lets the finalizer of a machine go.
abbrev pub Reason : World → Cluster → String → Trace → Type 0
Reason W owner_cluster name t =
    (owner_cluster.infrastructure_ref ≡ none) ⊎ (HasNoVApp W owner_cluster ⊎ VmGone W name t)

module _ (W : World) (owner : Machine) (owner_cluster : Cluster) (s : Session TenantMachine) where
  abbrev Outcome : Session TenantMachine → Type 0
  Outcome t =
      (t.object ≡ s.object)
      ⊎ ((t.object ≡ without_finalizer W s.object)
          × Reason W owner_cluster s.object.metadata.name t.trace)

  deleted_from :
      (name : String) (cluster : TenantCluster) (u : Session TenantMachine)
      → owner_cluster.infrastructure_ref ≡ some name
      → W.answer s.trace
          (get_tenant_cluster (record { name = name; namespace = owner_cluster.namespace }))
        ≡ ok cluster
      → u.object ≡ s.object
      → Outcome (delete_from_cluster W owner cluster u).1
  deleted_from name cluster u i a h = elim (delete_from_cluster_finalizer W owner cluster u) [
    | inl same ↦ inl (same ∙ h)
    | inr (off, inl none_recorded) ↦
        inr (
          off ∙ ap (without_finalizer W) h,
          inr (inl (name, s.trace, cluster, i, a, none_recorded)),
        )
    | inr (off, inr gone) ↦ inr (
      off ∙ ap (without_finalizer W) h,
      inr (
          inr (
            subst
              (λ (x : TenantMachine).
                VmGone W x.metadata.name (delete_from_cluster W owner cluster u).1.trace)
              h gone)),
    )
  ]

  delete_with_lem :
      (o : Option String)
      → owner_cluster.infrastructure_ref ≡ o
      → Outcome (delete_with W owner owner_cluster o s).1
  unfolding fetch_cluster ◌>>=◌ perform
  delete_with_lem none e = inr (refl, inl e)
  delete_with_lem (some name) e =
      fetched
        (W.answer s.trace
          (get_tenant_cluster (record { name = name; namespace = owner_cluster.namespace })))
        refl
    where
      fetched :
          (a : Answer TenantCluster)
          → W.answer s.trace
              (get_tenant_cluster (record { name = name; namespace = owner_cluster.namespace }))
            ≡ a
          → Outcome (delete_with W owner owner_cluster (some name) s).1
      fetched (err x) h = inl (ground arith)
      fetched (ok cluster) h =
          subst (λ (t : Session TenantMachine). Outcome t) (sym (ground arith))
            (deleted_from name cluster
              (perform W
                (get_tenant_cluster (record { name = name; namespace = owner_cluster.namespace }))
                s).1
              e h refl)

-- The deletion of a machine leaves its object as it was, or it has taken the finalizer off, and
-- then the owner refers to no infrastructure, or the tenant cluster fetched for that reference has
-- no vApp, or the virtual machine of that name is gone: the newest call did not find it, or the two
-- newest calls found it and deleted it.
pub machine_delete_finalizer :
    (W : World) (owner : Machine) (owner_cluster : Cluster) (s : Session TenantMachine)
    → let t = (reconcile_delete W owner owner_cluster s).1 in
      (t.object ≡ s.object)
      ⊎ ((t.object ≡ without_finalizer W s.object)
          × Reason W owner_cluster s.object.metadata.name t.trace)
unfolding reconcile_delete
machine_delete_finalizer W owner owner_cluster s =
    delete_with_lem W owner owner_cluster s owner_cluster.infrastructure_ref refl
