-- ===== src/Examples/ClusterRuns.antt =====
-- Runs of the cluster controller.
use cluster_api_provider_clo.Cluster.Converge.{recorded, after_v_app, ensure_parts_found}
use cluster_api_provider_clo.Cluster.Crashes.{
  reconcile_delete_without_identity, ensure_parts_unknown,
}
use cluster_api_provider_clo.Cluster.Finalizer.{AllGone, reconcile_delete_finalizer}
use cluster_api_provider_clo.World.Types.{ok, err}
use cluster_api_provider_clo.World.Calls.{get_filtered_machines_for_cluster}
use cluster_api_provider_clo.Cluster.Object.{without_finalizer}
use cluster_api_provider_clo.Cluster.Calls.{reconcile_fetched_calls}
use cluster_api_provider_clo.Flow.{crash, next, done}
use cluster_api_provider_clo.Cluster.Calls.{allowed_calls}
use cluster_api_provider_clo.Cluster.Reconcile.{reconcile_fetched}
use cluster_api_provider_clo.Api.{TenantCluster}
use cluster_api_provider_clo.Cluster.Reconcile.{ensure_parts}
use cluster_api_provider_clo.Examples.Data.{
  session_of, world, new_cluster, cluster_of, deleted_cluster, client, vdc, broken_vdc, gateway,
  not_found, v_app, broken, service, pool, group, owner_cluster,
}
use cluster_api_provider_clo.Cluster.Ready.{IsRecorded, reconcile_fetched-IsRecorded}
use cluster_api_provider_clo.Cluster.Delete.{reconcile_delete}
use cluster_api_provider_clo.Cluster.Gone.{FindsById, id_or}
use cluster_api_provider_clo.Base.{
  [], ◌∷◌, All, String, none, arith, some, Bool, ◌≡◌, true, ◌⊎◌, if◌then◌else◌, ◌≢◌, str_eq, refl,
  false,
}

found_by_id : FindsById world
found_by_id = record {
  service = λ t c id. refl;
  pool = λ t c id. refl;
  group = λ t v id. refl;
  v_app = λ t v id refresh. by_test id (str_eq id "v-app-id");
}
  where
    by_test :
        (id : String) (b : Bool)
        → id_or id (if b then ok (record { id = id; name = "v-app" }) else err not_found) ≡ id
    by_test id true = refl
    by_test id false = refl

reconcile_delete_finalizer_example :
    let t = (reconcile_delete world (some owner_cluster) (session_of deleted_cluster)).1 in
    (t.object ≡ deleted_cluster)
    ⊎ ((t.object ≡ without_finalizer world deleted_cluster) × AllGone world deleted_cluster t.trace)
reconcile_delete_finalizer_example =
    reconcile_delete_finalizer world (some owner_cluster) (session_of deleted_cluster) found_by_id

new_cluster-IsRecorded : IsRecorded new_cluster
new_cluster-IsRecorded = record {
  virtual_service = λ e. ground arith;
  pool = λ e. ground arith;
  ip_set = λ e. ground arith;
  v_app = λ e. ground arith;
}

reconcile_fetched-IsRecorded_example :
    IsRecorded (reconcile_fetched world new_cluster (session_of new_cluster)).1.object
reconcile_fetched-IsRecorded_example =
    reconcile_fetched-IsRecorded world new_cluster [] new_cluster-IsRecorded

reconcile_fetched_calls_example :
    All
      (λ e. allowed_calls deleted_cluster e.call ≡ true)
      (reconcile_fetched world deleted_cluster (session_of deleted_cluster)).1.trace
reconcile_fetched_calls_example = reconcile_fetched_calls world deleted_cluster [] tt

ensure_parts_found_example : ensure_parts world client vdc gateway (session_of new_cluster) ≡ (
  next done,
  record {
    object = recorded world v_app service pool group new_cluster;
    trace = after_v_app world client vdc gateway (session_of new_cluster);
  },
)
ensure_parts_found_example =
    ensure_parts_found world client vdc gateway (session_of new_cluster) group pool service v_app
      refl refl refl refl

ensure_parts_unknown_example :
    (ensure_parts world client broken_vdc gateway (session_of new_cluster)).0 ≢ next done
ensure_parts_unknown_example =
    ensure_parts_unknown world client broken_vdc gateway (session_of new_cluster) broken done refl
      refl

abbrev anonymous_cluster : TenantCluster
anonymous_cluster = cluster_of (some 50) none true

reconcile_delete_without_identity_example :
    (reconcile_delete world (some owner_cluster) (session_of anonymous_cluster) ≡ (
      crash,
      record {
        object = anonymous_cluster;
        trace =
            (record { call = get_filtered_machines_for_cluster owner_cluster; error = none }) ∷ [];
      },
    ))
    × (reconcile_delete world none (session_of anonymous_cluster)
        ≡ (crash, session_of anonymous_cluster))
reconcile_delete_without_identity_example =
    reconcile_delete_without_identity world owner_cluster (session_of anonymous_cluster) refl refl
