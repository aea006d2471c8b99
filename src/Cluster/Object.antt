-- ===== src/Cluster/Object.antt =====
-- What the cluster controller does to its object in memory: conditions, finalizer, status.
use cluster_api_provider_clo.Base.{String}
use cluster_api_provider_clo.Api.{CloudDirectorReference, TenantCluster, TenantClusterStatus}
use cluster_api_provider_clo.Api.Conditions.{ConditionType, severity_error}
use cluster_api_provider_clo.World.{World}
use cluster_api_provider_clo.World.Types.{Named}

abbrev pub tenant_cluster_finalizer : String
tenant_cluster_finalizer = "cloud-director-tenant.infrastructure.cluster.x-k8s.io/finalizer"

abbrev pub with_status : (TenantClusterStatus → TenantClusterStatus) → TenantCluster → TenantCluster
with_status f c = record c { status = f c.status }

abbrev pub reference : Named → CloudDirectorReference
reference x = record { id = x.id; name = x.name }

module _ (W : World) where
  abbrev pub with_true : ConditionType → TenantCluster → TenantCluster
  with_true t = with_status (λ s. record s { conditions = W.mark_true t s.conditions })

  abbrev pub with_error : ConditionType → String → String → TenantCluster → TenantCluster
  with_error t reason message =
      with_status
        (λ s. record s { conditions = W.mark_false t reason severity_error message s.conditions })

  -- `controllerutil.RemoveFinalizer`
  abbrev pub without_finalizer : TenantCluster → TenantCluster
  without_finalizer c = record c {
    metadata = record c.metadata {
      finalizers = W.remove_finalizer tenant_cluster_finalizer c.metadata.finalizers;
    };
  }

  -- The new object of `controllerutil.AddFinalizer`.
  abbrev pub with_finalizer : TenantCluster → TenantCluster
  with_finalizer c = record c {
    metadata = record c.metadata {
      finalizers = (W.add_finalizer tenant_cluster_finalizer c.metadata.finalizers).0;
    };
  }
