-- ===== src/Machine/Gates.antt =====
-- What a machine waits for before Cloud Director is asked for anything.
use cluster_api_provider_clo.Api.Conditions.{
  waiting_for_cluster_infrastructure_reason, waiting_for_bootstrap_data_reason,
}
use cluster_api_provider_clo.Machine.Object.{waiting}
use cluster_api_provider_clo.Base.{Option, String, ◌≡◌, if◌then◌else◌, some, none, not, arith}
use cluster_api_provider_clo.Flow.{◌>>=◌, Session, Return, ret, requeue, done}
use cluster_api_provider_clo.Api.{Machine, Cluster, TenantMachine}
use cluster_api_provider_clo.Machine.Reconcile.{reconcile_normal, may_join}
use cluster_api_provider_clo.World.{World}

-- The delay and the reason while a machine has to wait, in the order of the tests.
abbrev pub wait_of : World → Machine → Cluster → Option (Return × String)
wait_of W owner owner_cluster =
    if not owner_cluster.infrastructure_ready
    then some (requeue 60, waiting_for_cluster_infrastructure_reason)
    else elim owner.data_secret_name [
      | none ↦ some (requeue 60, waiting_for_bootstrap_data_reason)
      | some name ↦
          if may_join W owner owner_cluster
          then none
          else some (done, W.waiting_for_control_plane_available_reason)
    ]

-- A machine whose cluster has no infrastructure, that has no bootstrap data, or that would join
-- before the control plane is there, waits: it makes no call, and its condition says why.
pub reconcile_normal_waits :
    (W : World) (owner : Machine) (owner_cluster : Cluster) (s : Session TenantMachine) (r : Return)
    (reason : String)
    → wait_of W owner owner_cluster ≡ some (r, reason)
    → reconcile_normal W owner owner_cluster s
      ≡ (ret r, record s { object = waiting W reason s.object })
unfolding reconcile_normal ◌>>=◌
reconcile_normal_waits W owner owner_cluster s r reason h = ground arith
