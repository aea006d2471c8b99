-- ===== src/Machine/Settled.antt =====
-- The reconciliation of a machine that has a provider id.
use cluster_api_provider_clo.Api.Conditions.{virtual_machine_ready_condition}
use cluster_api_provider_clo.Machine.Provision.{provision}
use cluster_api_provider_clo.Cluster.Kinds.{creates_nothing}
use cluster_api_provider_clo.Machine.Delete.{fetch_cluster}
use cluster_api_provider_clo.World.Types.{Vdc, Org, Named}
use cluster_api_provider_clo.Machine.Object.{T, with_status, with_true}
use cluster_api_provider_clo.Flow.Rules.{Preserves, Preserves-bind, Preserves-pure}
use cluster_api_provider_clo.World.Calls.{Call}
use cluster_api_provider_clo.Machine.Reconcile.{
  reconcile_vm, connect, with_cluster, reconcile_normal, or_waiting, has_bootstrap,
}
use cluster_api_provider_clo.Base.{
  String, Option, str_eq, All, ◌≡◌, if◌then◌else◌, false, true, some, none, sym,
}
use cluster_api_provider_clo.Machine.LoadBalancer.{join_load_balancer, add_member}
use cluster_api_provider_clo.ClientCache.Rules.{KeptByClient, Preserves-get_vcd_client}
use cluster_api_provider_clo.Machine.Kinds.{machine_rules}
use cluster_api_provider_clo.Api.{
  TenantMachine, TenantMachineStatus, TenantCluster, Machine, Cluster,
}
use cluster_api_provider_clo.World.{World, Event}
use cluster_api_provider_clo.Flow.{◌>>=◌, ◌>>◌, Session, perform, modify, pure, done}
use mathlib.Core.Path.{subst}

-- The machine has a provider id, and nothing has been created or started.
pub record IsSettled (s : Session TenantMachine) : Type 0 where
  pub provided : str_eq s.object.spec.provider_id "" ≡ false
  pub calls : All (λ (e : Event). creates_nothing e.call ≡ true) s.trace

module _ (W : World) where
  IsSettled-perform : (c : Call) → creates_nothing c ≡ true → Preserves IsSettled (perform W c)
  unfolding perform
  IsSettled-perform c h = record {
    at = λ s o. record { provided = o.provided; calls = (h, o.calls) };
  }

  IsSettled-modify :
      (f : TenantMachineStatus → TenantMachineStatus) → Preserves IsSettled (modify (with_status f))
  unfolding ◌>>=◌
  IsSettled-modify f = record { at = λ s o. record { provided = o.provided; calls = o.calls } }

  ruleset settled_rules = (machine_rules, IsSettled-perform, IsSettled-modify)

  IsSettled-KeptByClient : KeptByClient W IsSettled
  IsSettled-KeptByClient = record {
    secret = λ k. search settled_rules;
    hit = λ k. search settled_rules;
    add = λ k c t. search settled_rules;
    token = λ c o t. search settled_rules;
  }

  join_load_balancer-IsSettled :
      (cluster : TenantCluster) (vdc : Vdc) → Preserves IsSettled (join_load_balancer W cluster vdc)
  unfolding join_load_balancer add_member
  join_load_balancer-IsSettled cluster vdc = search settled_rules depth 40

  -- The branch that is taken.
  skipped :
      (id : String) (m : T (Unit {0}))
      → str_eq id "" ≡ false
      → Preserves IsSettled (if str_eq id "" then m else pure tt)
  skipped id m h =
      subst (λ b. Preserves IsSettled (if b then m else pure tt)) (sym h) (Preserves-pure tt)

  finish-IsSettled :
      (cluster : TenantCluster) (owner : Machine) (vdc : Vdc)
      → Preserves IsSettled (do
        if W.is_control_plane_machine owner then join_load_balancer W cluster vdc else pure tt
        modify (with_true W virtual_machine_ready_condition)
        modify (with_status (λ s. record s { ready = true }))
        pure done)
  finish-IsSettled cluster owner vdc = search (settled_rules, join_load_balancer-IsSettled) depth 40

  reconcile_vm-IsSettled :
      (cluster : TenantCluster) (owner : Machine) (org : Org) (vdc : Vdc) (v_app : Named)
      → Preserves IsSettled (reconcile_vm W cluster owner org vdc v_app)
  unfolding reconcile_vm ◌>>=◌
  reconcile_vm-IsSettled cluster owner org vdc v_app = record {
    at = λ s o.
        (Preserves-bind _ _
            (skipped s.object.spec.provider_id (provision W cluster owner org v_app) o.provided)
            λ _. finish-IsSettled cluster owner vdc).at
          s o;
  }

  connect-IsSettled :
      (owner : Machine) (cluster : TenantCluster) → Preserves IsSettled (connect W owner cluster)
  unfolding connect
  connect-IsSettled owner cluster =
      search
        (settled_rules, reconcile_vm-IsSettled, Preserves-get_vcd_client W IsSettled-KeptByClient)
        depth 40

  waiting-IsSettled : {A : Type 0} (o : Option A) → Preserves IsSettled (or_waiting W o)
  waiting-IsSettled none = search settled_rules depth 12
  waiting-IsSettled (some a) = search settled_rules depth 12

  bootstrap-IsSettled : (o : Option String) → Preserves IsSettled (has_bootstrap W o)
  bootstrap-IsSettled none = search settled_rules depth 12
  bootstrap-IsSettled (some a) = search settled_rules depth 12

  with_cluster-IsSettled :
      (owner : Machine) (owner_cluster : Cluster)
      → Preserves IsSettled (with_cluster W owner owner_cluster)
  unfolding with_cluster fetch_cluster
  with_cluster-IsSettled owner owner_cluster =
      search (settled_rules, connect-IsSettled, waiting-IsSettled) depth 40

  normal-IsSettled :
      (owner : Machine) (owner_cluster : Cluster)
      → Preserves IsSettled (reconcile_normal W owner owner_cluster)
  unfolding reconcile_normal
  normal-IsSettled owner owner_cluster =
      search (settled_rules, with_cluster-IsSettled, bootstrap-IsSettled) depth 40

-- Once a machine has a provider id, its reconciliation creates and starts nothing in Cloud
-- Director, if the calls made before did not, and the machine keeps a provider id, however it
-- ends.
pub reconcile_normal_settled :
    (W : World) (owner : Machine) (owner_cluster : Cluster) (s : Session TenantMachine)
    → str_eq s.object.spec.provider_id "" ≡ false
    → All (λ e. creates_nothing e.call ≡ true) s.trace
    → let t = (reconcile_normal W owner owner_cluster s).1 in
      (str_eq t.object.spec.provider_id "" ≡ false)
      × All (λ e. creates_nothing e.call ≡ true) t.trace
reconcile_normal_settled W owner owner_cluster s h k =
    let o = (normal-IsSettled W owner owner_cluster).at s (record { provided = h; calls = k }) in
    (o.provided, o.calls)
