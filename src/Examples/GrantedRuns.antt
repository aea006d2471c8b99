-- ===== src/Examples/GrantedRuns.antt =====
-- Runs of the cluster controller in a world that grants what it asks for.
use cluster_api_provider_clo.Cluster.Parts.{ensure_v_app}
use cluster_api_provider_clo.Api.{TenantCluster, pos}
use mathlib.Core.Bool.{true≢false}
use cluster_api_provider_clo.Cluster.Endpoint.{reconcile_fetched_endpoint}
use cluster_api_provider_clo.Cluster.Object.{without_finalizer}
use cluster_api_provider_clo.Flow.{next, done, ret, requeue}
use cluster_api_provider_clo.ClientCache.Reachable.{IsReachable}
use cluster_api_provider_clo.World.Types.{Answer, err, ok}
use cluster_api_provider_clo.Examples.Data.{
  world, vdc, new_cluster, session_of, deleted_cluster, not_found, v_app, identity, secret,
  owner_cluster,
}
use cluster_api_provider_clo.World.Calls.{Call, Reply, get_v_app_by_name, create_raw_v_app}
use cluster_api_provider_clo.Base.{
  String, inl, List, [], arith, ◌≡◌, false, true, ◌⊎◌, refl, ◌∷◌, str_eq, some, inr, All,
}
use cluster_api_provider_clo.Examples.Granting.{granting}
use cluster_api_provider_clo.Cluster.Network.{ensure_v_app-half_made, joins_nothing}
use cluster_api_provider_clo.World.{Trace, World}
use cluster_api_provider_clo.Cluster.Reconcile.{reconcile_fetched}
use cluster_api_provider_clo.Cluster.Delete.{reconcile_delete}
use cluster_api_provider_clo.Cluster.Delete.Granted.{Releases, reconcile_delete_ends}
use cluster_api_provider_clo.Cluster.Progress.{runs}
use cluster_api_provider_clo.Cluster.Progress.Runs.{runs-ready}
use cluster_api_provider_clo.ClientCache.{read_credentials}
use cluster_api_provider_clo.Cluster.Cooperation.{Cooperates}

cooperates : Cooperates granting
cooperates = record {
  owner = owner_cluster;
  control_plane = "control-plane";
  control_plane_ref = refl;
  owned = λ meta t. refl;
  org = λ client name t. (_, refl);
  vdc = λ org name refresh t. (_, refl);
  gateway = λ org name id t. (_, refl);
  address = "10.0.0.1";
  other_addresses = [];
  present = refl;
  addresses = λ gateway t. refl;
  group_named = λ vdc name kind t. inr (not_found, refl, refl);
  group = λ vdc config t. (_, refl);
  pool_named = λ client gateway name t. inr (not_found, refl, refl);
  pool = λ client config t. (_, refl);
  service_named = λ client gateway name t. inr (not_found, refl, refl);
  engines = λ client name filter t. (_, refl);
  service = λ client config t. (_, refl);
  v_app_named = λ vdc name refresh t. inr (not_found, refl, refl);
  v_app = λ vdc name text t. (_, refl);
  network = λ vdc name refresh t. (_, refl);
  connected = λ v_app network retain t. (_, refl);
  powered = λ v_app t. (_, refl);
  patched = λ a b owned t. (_, refl);
  finalizer_added = λ f fs. added_twice f fs;
  finalizer_kept = λ f fs. kept f fs;
}
  where
    added_twice :
        (f : String) (fs : List String)
        → (granting.add_finalizer f (granting.add_finalizer f fs).0).1 ≡ false
    added_twice f [] = refl
    added_twice f (g ∷ gs) = refl

    kept :
        (f : String) (fs : List String)
        → (granting.add_finalizer f fs).1 ≡ false
        → (granting.add_finalizer f fs).0 ≡ fs
    kept f [] h = absurd (true≢false h)
    kept f (g ∷ gs) h = refl

-- A cluster as it is created, without a finalizer and an endpoint.
abbrev hostless_cluster : TenantCluster
hostless_cluster = record new_cluster {
  metadata = record new_cluster.metadata { finalizers = [] };
  spec = record new_cluster.spec { control_plane_endpoint = record { host = ""; port = 0 } };
}

reachable : (c : TenantCluster) → c.spec.identity_ref ≡ some identity → IsReachable granting c
unfolding read_credentials
reachable c h = record {
  identity = identity;
  identity_ref = h;
  secret = secret;
  read = λ t. refl;
  credentials = record {
    endpoint = 1 ∷ [];
    href = "https://cloud/api";
    api_token = 2 ∷ [];
    organization = 3 ∷ [];
  };
  complete = refl;
  token = "token";
  login = λ t. refl;
  expiration = pos 200;
  dated = refl;
}

runs-ready_example : (runs granting 3 (hostless_cluster, [])).0.status.ready ≡ true
runs-ready_example =
    runs-ready granting hostless_cluster [] 3 cooperates refl (reachable hostless_cluster refl)
      (omega arith)

releases : Releases granting
releases = record {
  machines = λ owner t. refl;
  org = λ client name t. (_, refl);
  vdc = λ org name refresh t. (_, refl);
  service = λ client id t. inl (_, refl);
  service_deleted = λ service t. (_, refl);
  pool = λ client id t. inl (_, refl);
  pool_deleted = λ pool t. (_, refl);
  group = λ vdc id t. inl (_, refl);
  group_empty = λ vdc id group t e. ground arith;
  group_deleted = λ group t. (_, refl);
  v_app = λ vdc id refresh t. inl (_, refl);
  status = λ v_app t. (_, refl);
  undeployed = λ v_app t. (_, refl);
  v_app_deleted = λ v_app t. (_, refl);
  waited = λ task t. (_, refl);
}

reconcile_delete_ends_example :
    ((reconcile_delete granting (some owner_cluster) (session_of deleted_cluster)).0 ≡ next done)
    × ((reconcile_delete granting (some owner_cluster) (session_of deleted_cluster)).1.object
        ≡ without_finalizer granting deleted_cluster)
reconcile_delete_ends_example =
    reconcile_delete_ends granting owner_cluster (session_of deleted_cluster) releases
      (reachable deleted_cluster refl)

reconcile_fetched_endpoint_example :
    let after =
      (reconcile_fetched granting hostless_cluster (session_of hostless_cluster)).1.object in
    (after.spec.control_plane_endpoint ≡ hostless_cluster.spec.control_plane_endpoint)
    ⊎ ((str_eq hostless_cluster.spec.control_plane_endpoint.host "" ≡ true)
        × (after.spec.control_plane_endpoint.port ≡ 6443))
reconcile_fetched_endpoint_example = reconcile_fetched_endpoint granting hostless_cluster []

-- The vApp is found once it has been created; the network is not found.
abbrev half_answer : Trace → (c : Call) → Answer (Reply c)
half_answer [] (get_v_app_by_name v name refresh) = err not_found
half_answer (e ∷ t) (get_v_app_by_name v name refresh) = ok v_app
half_answer t (create_raw_v_app v name text) = ok v_app
half_answer t c = err not_found

abbrev half : World
half = record world { answer = half_answer }

ensure_v_app-half_made_example :
    let first = ensure_v_app half vdc (session_of new_cluster) in
    let second = ensure_v_app half vdc first.1 in
    (first.0 ≡ ret (requeue 60))
    × (second.0 ≡ next v_app)
    × All (λ e. joins_nothing e.call ≡ true) second.1.trace
ensure_v_app-half_made_example =
    ensure_v_app-half_made half vdc (session_of new_cluster) not_found not_found v_app v_app refl
      refl refl refl refl tt
