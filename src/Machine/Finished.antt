-- ===== src/Machine/Finished.antt =====
-- What `Reconcile` of a machine has left behind when it goes through, in
-- controllers/clouddirectortenantmachine_controller.go.
use cluster_api_provider_clo.Flow.Triples.{Triple, Triple-bind, Post}
use cluster_api_provider_clo.World.Types.{Org, Vdc, Named}
use cluster_api_provider_clo.World.Calls.{Call}
use cluster_api_provider_clo.Flow.Rules.{Preserves}
use cluster_api_provider_clo.Machine.Delete.{fetch_cluster}
use cluster_api_provider_clo.Machine.Object.{
  T, with_status, with_finalizer, tenant_machine_finalizer,
}
use cluster_api_provider_clo.ClientCache.Rules.{KeptByClient, Preserves-get_vcd_client}
use cluster_api_provider_clo.Machine.Kinds.{machine_rules}
use cluster_api_provider_clo.Api.{
  TenantMachineStatus, TenantCluster, Machine, TenantMachine, Cluster, is_zero,
}
use cluster_api_provider_clo.World.{World}
use cluster_api_provider_clo.Base.{String, Option, Bool, some, ◌≡◌, false, true, none, refl}
use mathlib.Core.Path.{subst}
use cluster_api_provider_clo.Machine.Answered.{Whatever}
use mathlib.Core.Bool.{true≢false}
use cluster_api_provider_clo.Flow.{◌>>=◌, Session, perform, modify, Return, next}
use cluster_api_provider_clo.Machine.Build.{Finished, weaken, reconcile_vm-Finished, Post-next}
use cluster_api_provider_clo.Machine.Reconcile.{
  connect, reconcile_vm, with_cluster, reconcile_normal, reconcile_object, or_waiting,
  has_bootstrap, add_finalizer_or,
}

-- The provider id is still the one from before.
pub record KeepsId (before : String) (s : Session TenantMachine) : Type 0 where
  pub kept : s.object.spec.provider_id ≡ before

module _ (W : World) (before : String) where
  KeepsId-perform : (c : Call) → Preserves (KeepsId before) (perform W c)
  unfolding perform
  KeepsId-perform c = record { at = λ s o. record { kept = o.kept } }

  KeepsId-modify :
      (f : TenantMachineStatus → TenantMachineStatus)
      → Preserves (KeepsId before) (modify (with_status f))
  unfolding ◌>>=◌
  KeepsId-modify f = record { at = λ s o. record { kept = o.kept } }

  ruleset id_rules = (machine_rules, KeepsId-perform, KeepsId-modify)

  KeepsId-KeptByClient : KeptByClient W (KeepsId before)
  KeepsId-KeptByClient = record {
    secret = λ k. search id_rules;
    hit = λ k. search id_rules;
    add = λ k c t. search id_rules;
    token = λ c o t. search id_rules;
  }

  -- It goes through to a ready machine with a provider id.
  abbrev pub Finishes : T Return → Type 0
  Finishes m = Triple (KeepsId before) m (Finished W before) Whatever

  Finishes-after :
      {A : Type 0} (m : T A) (f : A → T Return)
      → Preserves (KeepsId before) m
      → ((a : A) → Finishes (f a))
      → Finishes (m >>= f)
  Finishes-after m f h k = Triple-bind m f (weaken (KeepsId before) m h) k

  Finishes-reconcile_vm :
      (cluster : TenantCluster) (owner : Machine) (org : Org) (vdc : Vdc) (v_app : Named)
      → Finishes (reconcile_vm W cluster owner org vdc v_app)
  Finishes-reconcile_vm cluster owner org vdc v_app = record {
    at = λ s h.
        subst
          (λ id.
            Post (Finished W id) Whatever (reconcile_vm W cluster owner org vdc v_app s).0
              (reconcile_vm W cluster owner org vdc v_app s).1)
          h.kept (reconcile_vm-Finished W cluster owner org vdc v_app s);
  }

  Finishes-connect :
      (owner : Machine) (cluster : TenantCluster) → Finishes (connect W owner cluster)
  unfolding connect
  Finishes-connect owner cluster =
      search
        (
          Finishes-after,
          id_rules,
          Finishes-reconcile_vm,
          Preserves-get_vcd_client W KeepsId-KeptByClient,
        )
        depth 40

  waiting-KeepsId : {A : Type 0} (o : Option A) → Preserves (KeepsId before) (or_waiting W o)
  waiting-KeepsId none = search id_rules depth 12
  waiting-KeepsId (some a) = search id_rules depth 12

  bootstrap-KeepsId : (o : Option String) → Preserves (KeepsId before) (has_bootstrap W o)
  bootstrap-KeepsId none = search id_rules depth 12
  bootstrap-KeepsId (some a) = search id_rules depth 12

  Finishes-with_cluster :
      (owner : Machine) (owner_cluster : Cluster) → Finishes (with_cluster W owner owner_cluster)
  unfolding with_cluster fetch_cluster
  Finishes-with_cluster owner owner_cluster =
      search (Finishes-after, id_rules, Finishes-connect, waiting-KeepsId) depth 40

  Finishes-reconcile_normal :
      (owner : Machine) (owner_cluster : Cluster)
      → Finishes (reconcile_normal W owner owner_cluster)
  unfolding reconcile_normal
  Finishes-reconcile_normal owner owner_cluster =
      search (Finishes-after, id_rules, Finishes-with_cluster, bootstrap-KeepsId) depth 40

  finalizer-KeepsId : Preserves (KeepsId before) (modify (with_finalizer W))
  unfolding ◌>>=◌
  finalizer-KeepsId = record { at = λ s o. record { kept = o.kept } }

  Finishes-add_finalizer_or :
      (added : Bool) (rest : T Return)
      → added ≡ false
      → Finishes rest
      → Finishes (add_finalizer_or W added rest)
  unfolding add_finalizer_or
  Finishes-add_finalizer_or true rest e h = absurd (true≢false e)
  Finishes-add_finalizer_or false rest e h = Finishes-after _ _ finalizer-KeepsId λ _. h

module _ (W : World) (owner : Machine) (owner_cluster : Cluster) (s : Session TenantMachine) where
  object_ended :
      is_zero s.object.metadata.deletion_timestamp ≡ true
      → (W.add_finalizer tenant_machine_finalizer s.object.metadata.finalizers).1 ≡ false
      → Post
          (Finished W s.object.spec.provider_id)
          Whatever
          (reconcile_object W owner owner_cluster s).0
          (reconcile_object W owner owner_cluster s).1
  unfolding reconcile_object ◌>>=◌
  object_ended alive kept = rw (alive) (
      (Finishes-add_finalizer_or W s.object.spec.provider_id
          (W.add_finalizer tenant_machine_finalizer s.object.metadata.finalizers).1
          (reconcile_normal W owner owner_cluster) kept
          (Finishes-reconcile_normal W s.object.spec.provider_id owner owner_cluster)).at
        s (record { kept = refl }))

  -- When a machine with its finalizer that is not being deleted goes through, it is ready, and has
  -- a provider id.
  pub reconcile_object-Finished :
      (r : Return)
      → is_zero s.object.metadata.deletion_timestamp ≡ true
      → (W.add_finalizer tenant_machine_finalizer s.object.metadata.finalizers).1 ≡ false
      → (reconcile_object W owner owner_cluster s).0 ≡ next r
      → Finished W s.object.spec.provider_id r (reconcile_object W owner owner_cluster s).1
  reconcile_object-Finished r alive kept e =
      Post-next (Finished W s.object.spec.provider_id) _ _ r (object_ended alive kept) e
