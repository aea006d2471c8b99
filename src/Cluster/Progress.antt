-- ===== src/Cluster/Progress.antt =====
-- Repeated reconciliation of a cluster that is not being deleted.
pub mod Normal
pub mod Stages
pub mod Runs
use cluster_api_provider_clo.Flow.Triples.{Post}
use mathlib.Core.Path.{subst}
use cluster_api_provider_clo.Api.Conditions.{external_ip_address_ready, Condition}
use cluster_api_provider_clo.World.Calls.{
  get_unused_external_ip_addresses, get_org_by_name, get_vdc_by_name, get_edge_gateway,
  get_owner_cluster,
}
use cluster_api_provider_clo.Cluster.Parts.Granted.{
  Steady-ensure_firewall_group, Steady-ensure_alb_pool, Steady-ensure_virtual_service,
  Steady-ensure_v_app,
}
use cluster_api_provider_clo.Flow.Steady.{
  Goes, Steady-bind, Goes-modify, Goes-weaken, Steady-bind_to, Steady-pure, Goes-pure,
  Steady-or_done, not_ok, Steady-gets, IsOk,
}
use cluster_api_provider_clo.Flow.Steady.Calls.{Steady-told, Steady-ask}
use cluster_api_provider_clo.Cluster.Object.{
  tenant_cluster_finalizer, with_true, with_finalizer, with_status,
}
use cluster_api_provider_clo.World.Types.{
  Named, VcdClient, Vdc, FirewallGroup, Answer, ok, GoError, err, error_of,
}
use cluster_api_provider_clo.ClientCache.Reachable.{IsReachable, Steady-connected}
use cluster_api_provider_clo.Cluster.Patch.{newest_error}
use cluster_api_provider_clo.Cluster.Reconcile.{
  record_parts, ensure_parts, reconcile_fetched, allocate_endpoint, with_endpoint, reconcile_normal,
  add_finalizer_or, reconcile_object, patch_tenant_cluster,
}
use cluster_api_provider_clo.Cluster.Cooperation.{Cooperates}
use cluster_api_provider_clo.Base.{
  ℕ, if◌then◌else◌, ◌≡◌, true, ltb, suc, ◌≤◌, ◌∙◌, Option, zero, false, ◌≢◌, str_eq, none, some, ap,
  refl, Bool, arith, sym, ◌∷◌, List, String,
}
use cluster_api_provider_clo.Api.{TenantCluster, is_zero, TenantClusterSpec, ObjectMeta}
use cluster_api_provider_clo.World.{World, Trace}
use cluster_api_provider_clo.Flow.{
  ◌>>=◌, Session, Return, retry, Flow, defer, perform, next, ret, crash,
}

-- The stage after a run.
abbrev pub following : ℕ → ℕ
following n = if ltb n 3 then suc n else n

module _ (W : World) where
  -- The object that the next run is given: the patched one, or the old one if the patch failed.
  abbrev pub stored : TenantCluster → Session TenantCluster → TenantCluster
  stored c s = elim (newest_error s.trace) [ none ↦ s.object | some e ↦ c ]

  abbrev pub run : TenantCluster × Trace → TenantCluster × Trace
  run (c, t) =
      let s = (reconcile_fetched W c (record { object = c; trace = t })).1 in (stored c s, s.trace)

  abbrev pub runs : ℕ → TenantCluster × Trace → TenantCluster × Trace
  runs zero x = x
  runs (suc n) x = runs n (run x)

  -- How far a cluster has come: the finalizer, the endpoint, the parts.
  pub record Stage (n : ℕ) (c : TenantCluster) : Type 0 where
    pub alive : is_zero c.metadata.deletion_timestamp ≡ true
    pub reachable : IsReachable W c
    pub finalized :
        1 ≤ n → (W.add_finalizer tenant_cluster_finalizer c.metadata.finalizers).1 ≡ false
    pub hosted : 2 ≤ n → str_eq c.spec.control_plane_endpoint.host "" ≡ false
    pub ready : 3 ≤ n → c.status.ready ≡ true
