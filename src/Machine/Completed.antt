-- ===== src/Machine/Completed.antt =====
-- `Reconcile` of a worker machine in such a world.
use cluster_api_provider_clo.Machine.Finished.{reconcile_object-Finished}
use mathlib.Core.Bool.{true≢false}
use mathlib.Core.Path.{subst}
use cluster_api_provider_clo.Machine.Build.{IsProvided, WasPowered}
use cluster_api_provider_clo.Machine.Configured.{Goes-reconcile_vm}
use cluster_api_provider_clo.Machine.Delete.{fetch_cluster}
use cluster_api_provider_clo.ClientCache.Reachable.{Steady-connected}
use cluster_api_provider_clo.Machine.Object.{T, tenant_machine_finalizer, with_finalizer}
use cluster_api_provider_clo.Machine.Reconcile.{
  connect, or_waiting, with_cluster, has_bootstrap, may_join, reconcile_normal, add_finalizer_or,
  reconcile_object,
}
use cluster_api_provider_clo.World.Calls.{
  get_org_by_name, get_vdc_by_name, get_v_app_by_id, get_tenant_cluster,
}
use cluster_api_provider_clo.Flow.Steady.{
  Steady, Steady-bind_to, Steady-bind, Steady-deref, Steady-gets, Steady-pure, Goes, Goes-modify,
  Goes-run,
}
use cluster_api_provider_clo.Flow.Steady.Calls.{Steady-ask, Steady-told}
use cluster_api_provider_clo.World.Types.{ok, Vm}
use cluster_api_provider_clo.Base.{
  ◌≡◌, some, Bool, if◌then◌else◌, true, refl, false, Option, arith, ap, none, ◌∙◌, String, str_eq,
  ◌<>◌, inl, sym, inr,
}
use cluster_api_provider_clo.Machine.Equipped.{Equips, Hosts}
use cluster_api_provider_clo.World.{World, Trace}
use cluster_api_provider_clo.Api.{TenantMachine, Machine, Cluster, is_zero}
use cluster_api_provider_clo.Flow.{done, pure, Return, Session, next}

module _ (W : World) (owner : Machine) (eq : Equips W owner) (owner_cluster : Cluster)
    (hosts : Hosts W owner owner_cluster) (c : TenantMachine) where
  Completes : T Return → Type 0
  Completes m = Goes c m (λ r d. (r ≡ done) × (d.status.ready ≡ true))

  Goes-connect : Completes (connect W owner hosts.cluster)
  unfolding Completes connect
  Goes-connect = Steady-connected W hosts.cluster _ _ hosts.reachable λ client.
      Steady-ask W (get_org_by_name client _) _ _ (hosts.org client _) λ org.
        Steady-ask W (get_vdc_by_name org _ true) _ _ (hosts.vdc org _ true) λ vdc.
          Steady-bind_to _ _ hosts.ref (Steady-deref _ _ hosts.recorded) (
            Steady-ask W (get_v_app_by_id vdc hosts.ref.id true) _ _
              (hosts.v_app vdc hosts.ref.id true)
              λ v_app. Goes-reconcile_vm W owner eq c hosts.cluster org vdc v_app hosts.worker)

  Steady-or_waiting :
      {A : Type 0} (o : Option A) (a : A) → o ≡ some a → Steady c (or_waiting W o) (λ _. Unit)
  Steady-or_waiting none a e = absurd (missing e)
    where
      missing : none ≡ some a → ⊥
      missing h = ground arith
  Steady-or_waiting (some x) a e = Steady-pure tt tt

  Goes-with_cluster : Completes (with_cluster W owner owner_cluster)
  unfolding Completes with_cluster fetch_cluster
  Goes-with_cluster = Steady-bind_to _ _ hosts.name (Steady-deref _ _ hosts.named) (
      Steady-bind_to _ _ hosts.cluster
        (Steady-told W
          (get_tenant_cluster (record { name = hosts.name; namespace = owner_cluster.namespace }))
          (ok hosts.cluster) _ hosts.fetched (Steady-pure _ refl))
        (Steady-bind _ _ _
          (Steady-or_waiting hosts.cluster.spec.identity_ref hosts.reachable.identity
            hosts.reachable.identity_ref)
          λ _ _. Goes-connect))

  Steady-has_bootstrap : Steady c (has_bootstrap W owner.data_secret_name) (λ _. Unit)
  Steady-has_bootstrap = rw (eq.secret_named) (Steady-pure tt tt)

  Steady-passes :
      (b : Bool) (m : T (Unit {0})) → b ≡ true → Steady c (if b then pure tt else m) (λ _. Unit)
  Steady-passes b m h = rw (h) (Steady-pure tt tt)

  may_join_lem : may_join W owner owner_cluster ≡ true
  unfolding may_join
  may_join_lem = rw (hosts.worker, hosts.initialized) refl

  Goes-reconcile_normal : Completes (reconcile_normal W owner owner_cluster)
  unfolding Completes reconcile_normal
  Goes-reconcile_normal = Steady-bind _ _ _ (Steady-passes _ _ hosts.infrastructure) λ _ _.
      Steady-bind _ _ _ Steady-has_bootstrap
        λ _ _. Steady-bind _ _ _ (Steady-passes _ _ may_join_lem) λ _ _. Goes-with_cluster

module _ (W : World) (owner : Machine) (owner_cluster : Cluster) where
  Goes-with_finalizer :
      (eq : Equips W owner) (hosts : Hosts W owner owner_cluster) (c : TenantMachine) (added : Bool)
      → added ≡ false
      → Goes c
          (add_finalizer_or W added (reconcile_normal W owner owner_cluster))
          (λ r d. (r ≡ done) × (d.status.ready ≡ true))
  unfolding add_finalizer_or Completes
  Goes-with_finalizer eq hosts c true h = absurd (true≢false h)
  Goes-with_finalizer eq hosts c false h =
      Goes-modify (with_finalizer W) _
        (Goes-reconcile_normal W owner eq owner_cluster hosts (with_finalizer W c))

  Goes-reconcile_object :
      (eq : Equips W owner) (hosts : Hosts W owner owner_cluster) (c : TenantMachine)
      → is_zero c.metadata.deletion_timestamp ≡ true
      → (W.add_finalizer tenant_machine_finalizer c.metadata.finalizers).1 ≡ false
      → Goes c
          (reconcile_object W owner owner_cluster)
          (λ r d. (r ≡ done) × (d.status.ready ≡ true))
  unfolding reconcile_object
  Goes-reconcile_object eq hosts c alive kept =
      Steady-bind_to _ _ c (Steady-gets _) (rw (alive) (Goes-with_finalizer eq hosts c _ kept))

-- What `IsProvided` says where each look-up by name is answered by the one virtual machine.
provided_by :
    (W : World) (owner : Machine) (eq : Equips W owner) (before after : String) (t : Trace)
    → IsProvided W before after t
    → str_eq before "" ≡ true
    → (after ≡ "vmware-cloud-director://" <> eq.vm.id) × WasPowered eq.vm t
provided_by W owner eq before after t (inl (same, had)) empty =
    absurd (true≢false (sym empty ∙ had))
provided_by W owner eq before after t (inr (vm, id, (v_app, name, u, answered), powered)) empty =
    let one : vm ≡ eq.vm = ok-injective (sym answered ∙ eq.found v_app name true u) in
    (
      id ∙ ap (λ (x : Vm). "vmware-cloud-director://" <> x.id) one,
      subst (λ (x : Vm). WasPowered x t) one powered,
    )
  where
    ok-injective : {x y : Vm} → ok x ≡ ok y → x ≡ y
    ok-injective e = cc

-- A worker whose virtual machine is there, perhaps left unfinished by an earlier run, that has its
-- finalizer and is not being deleted, in a world that grants what is asked for and a cluster that
-- has its vApp: one run goes through to the end and makes it ready; and if it had no provider id
-- before, it has that of the virtual machine, which has been switched on.
pub reconcile_object_completes :
    (W : World) (owner : Machine) (owner_cluster : Cluster) (s : Session TenantMachine)
    (eq : Equips W owner)
    → Hosts W owner owner_cluster
    → is_zero s.object.metadata.deletion_timestamp ≡ true
    → (W.add_finalizer tenant_machine_finalizer s.object.metadata.finalizers).1 ≡ false
    → let t = (reconcile_object W owner owner_cluster s).1 in
      ((reconcile_object W owner owner_cluster s).0 ≡ next done)
      × (t.object.status.ready ≡ true)
      × (str_eq s.object.spec.provider_id "" ≡ true
          → (t.object.spec.provider_id ≡ "vmware-cloud-director://" <> eq.vm.id)
            × WasPowered eq.vm t.trace)
reconcile_object_completes W owner owner_cluster s eq hosts alive kept =
    let (r, e, (h, q)) =
      Goes-run (reconcile_object W owner owner_cluster) s
        (Goes-reconcile_object W owner owner_cluster eq hosts s.object alive kept) in
    let finished = reconcile_object-Finished W owner owner_cluster s r alive kept e in
    (
      e ∙ ap next h,
      q,
      λ empty.
          provided_by W owner eq s.object.spec.provider_id _ _ finished.provided.provider_id empty,
    )
