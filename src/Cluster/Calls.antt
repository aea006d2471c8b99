-- ===== src/Cluster/Calls.antt =====
-- Which calls the two halves of the cluster controller can make.
use cluster_api_provider_clo.Cluster.Object.{tenant_cluster_finalizer}
use cluster_api_provider_clo.World.Calls.{Call, patch_cluster, get_owner_cluster}
use cluster_api_provider_clo.Base.{
  false, Option, ◌≡◌, refl, String, All, Bool, List, if◌then◌else◌, not, true,
}
use cluster_api_provider_clo.Api.{TenantCluster, Cluster, is_zero, ObjectMeta}
use cluster_api_provider_clo.World.{World, Trace}
use cluster_api_provider_clo.World.Types.{VcdClient, Vdc, Named, FirewallGroup}
use cluster_api_provider_clo.Flow.{Session, ◌>>=◌, perform, Return, or_else, defer, fail}
use cluster_api_provider_clo.Flow.Rules.{
  Preserves, OnlyCalls, Preserves-bind, OnlyCalls-modify, OnlyCalls-perform, Preserves-gets,
  Preserves-or_else, Preserves-return,
}
use cluster_api_provider_clo.ClientCache.Rules.{Preserves-get_vcd_client}
use cluster_api_provider_clo.Cluster.Parts.{
  C, ensure_firewall_group, ensure_alb_pool, ensure_virtual_service, ensure_v_app,
}
use cluster_api_provider_clo.Cluster.Delete.{
  remove_virtual_service, remove_alb_pool, remove_firewall_group, remove_v_app, remove_parts,
  reconcile_delete,
}
use cluster_api_provider_clo.Cluster.Reconcile.{
  record_parts, ensure_parts, reconcile_normal, allocate_endpoint, with_endpoint, add_finalizer_or,
  patch_tenant_cluster, reconcile_object, reconcile_fetched,
}
use cluster_api_provider_clo.Cluster.Kinds.{
  creates_nothing, removes_nothing, creates_nothing-KeptByClient, removes_nothing-KeptByClient,
  cluster_rules,
}

module _ (W : World) where
  virtual_service_creates_nothing :
      (client : VcdClient) → Preserves (OnlyCalls creates_nothing) (remove_virtual_service W client)
  unfolding remove_virtual_service
  virtual_service_creates_nothing client = search cluster_rules depth 12

  pool_creates_nothing :
      (client : VcdClient) → Preserves (OnlyCalls creates_nothing) (remove_alb_pool W client)
  unfolding remove_alb_pool
  pool_creates_nothing client = search cluster_rules depth 12

  firewall_group_creates_nothing :
      (vdc : Vdc) → Preserves (OnlyCalls creates_nothing) (remove_firewall_group W vdc)
  unfolding remove_firewall_group
  firewall_group_creates_nothing vdc = search cluster_rules depth 12

  v_app_creates_nothing : (vdc : Vdc) → Preserves (OnlyCalls creates_nothing) (remove_v_app W vdc)
  unfolding remove_v_app
  v_app_creates_nothing vdc = search cluster_rules depth 30

  deletion_creates_nothing :
      (owner : Option Cluster) → Preserves (OnlyCalls creates_nothing) (reconcile_delete W owner)
  unfolding reconcile_delete remove_parts
  deletion_creates_nothing owner =
      search
        (
          cluster_rules,
          virtual_service_creates_nothing,
          pool_creates_nothing,
          firewall_group_creates_nothing,
          v_app_creates_nothing,
          Preserves-get_vcd_client W (creates_nothing-KeptByClient W),
        )
        depth 40

  firewall_group_removes_nothing :
      (vdc : Vdc) (gateway : Named)
      → Preserves (OnlyCalls removes_nothing) (ensure_firewall_group W vdc gateway)
  unfolding ensure_firewall_group
  firewall_group_removes_nothing vdc gateway = search cluster_rules depth 12

  pool_removes_nothing :
      (client : VcdClient) (gateway : Named) (group : Option FirewallGroup)
      → Preserves (OnlyCalls removes_nothing) (ensure_alb_pool W client gateway group)
  unfolding ensure_alb_pool
  pool_removes_nothing client gateway group = search cluster_rules depth 12

  virtual_service_removes_nothing :
      (client : VcdClient) (gateway : Named) (pool : Option Named)
      → Preserves (OnlyCalls removes_nothing) (ensure_virtual_service W client gateway pool)
  unfolding ensure_virtual_service
  virtual_service_removes_nothing client gateway pool = search cluster_rules depth 24

  v_app_removes_nothing : (vdc : Vdc) → Preserves (OnlyCalls removes_nothing) (ensure_v_app W vdc)
  unfolding ensure_v_app
  v_app_removes_nothing vdc = search cluster_rules depth 30

  record_removes_nothing :
      (v_app service : Named) (pool : Option Named) (group : Option FirewallGroup)
      → Preserves (OnlyCalls removes_nothing) (record_parts W v_app service pool group)
  unfolding record_parts
  record_removes_nothing v_app service pool group = search cluster_rules depth 30

  parts_removes_nothing :
      (client : VcdClient) (vdc : Vdc) (gateway : Named)
      → Preserves (OnlyCalls removes_nothing) (ensure_parts W client vdc gateway)
  unfolding ensure_parts
  parts_removes_nothing client vdc gateway =
      search
        (
          cluster_rules, firewall_group_removes_nothing, pool_removes_nothing,
          virtual_service_removes_nothing, v_app_removes_nothing, record_removes_nothing,
        )
        depth 12

  endpoint_removes_nothing :
      (gateway : Named) → Preserves (OnlyCalls removes_nothing) (allocate_endpoint W gateway)
  unfolding allocate_endpoint
  endpoint_removes_nothing gateway = search cluster_rules depth 12

  with_endpoint-removes_nothing :
      (owner : Option Cluster) (client : VcdClient) (vdc : Vdc) (gateway : Named)
      → Preserves (OnlyCalls removes_nothing) (with_endpoint W owner client vdc gateway)
  unfolding with_endpoint
  with_endpoint-removes_nothing owner client vdc gateway =
      search (cluster_rules, parts_removes_nothing) depth 12

  normal_removes_nothing :
      (owner : Option Cluster) → Preserves (OnlyCalls removes_nothing) (reconcile_normal W owner)
  unfolding reconcile_normal
  normal_removes_nothing owner =
      search
        (
          cluster_rules,
          endpoint_removes_nothing,
          with_endpoint-removes_nothing,
          Preserves-get_vcd_client W (removes_nothing-KeptByClient W),
        )
        depth 30

  finalizer_removes_nothing :
      (added : Bool) (rest : C Return)
      → Preserves (OnlyCalls removes_nothing) rest
      → Preserves (OnlyCalls removes_nothing) (add_finalizer_or W added rest)
  unfolding add_finalizer_or
  finalizer_removes_nothing true rest h = search cluster_rules
  finalizer_removes_nothing false rest h = Preserves-bind _ _ (search cluster_rules) λ _. h

  patch_only_patches :
      (test : Call → Bool) (original : TenantCluster)
      → ((a b : TenantCluster) (owned : List String) → test (patch_cluster a b owned) ≡ true)
      → Preserves (OnlyCalls test) (patch_tenant_cluster W original)
  unfolding patch_tenant_cluster
  patch_only_patches test original h = Preserves-bind _ _ (OnlyCalls-modify test _) λ _.
      Preserves-bind _ _ (Preserves-gets _)
        λ c. OnlyCalls-perform W test (patch_cluster original c _) (h _ _ _)

-- What a reconciliation of this object may call.
abbrev pub allowed_calls : TenantCluster → Call → Bool
allowed_calls c =
    if not (is_zero c.metadata.deletion_timestamp) then creates_nothing else removes_nothing

deleting_calls :
    (W : World) (cluster : TenantCluster) (deleting : Bool) (owner : Option Cluster)
    → Preserves (OnlyCalls (if deleting then creates_nothing else removes_nothing)) (
        if deleting
        then reconcile_delete W owner
        else add_finalizer_or W
            (W.add_finalizer tenant_cluster_finalizer cluster.metadata.finalizers).1
            (reconcile_normal W owner))
deleting_calls W cluster true owner = deletion_creates_nothing W owner
deleting_calls W cluster false owner =
    finalizer_removes_nothing W _ _ (normal_removes_nothing W owner)

allowed_calls-owner :
    (deleting : Bool) (meta : ObjectMeta)
    → (if deleting then creates_nothing else removes_nothing) (get_owner_cluster meta) ≡ true
allowed_calls-owner true meta = refl
allowed_calls-owner false meta = refl

allowed_calls-patch :
    (deleting : Bool) (a b : TenantCluster) (owned : List String)
    → (if deleting then creates_nothing else removes_nothing) (patch_cluster a b owned) ≡ true
allowed_calls-patch true a b owned = refl
allowed_calls-patch false a b owned = refl

object_calls :
    (W : World) (s : Session TenantCluster)
    → OnlyCalls (allowed_calls s.object) s
    → OnlyCalls (allowed_calls s.object) (reconcile_object W s).1
unfolding reconcile_object ◌>>=◌
object_calls W s h =
    (Preserves-bind {P = OnlyCalls (allowed_calls s.object)}
        (perform W (get_owner_cluster s.object.metadata)) _
        (OnlyCalls-perform W (allowed_calls s.object) (get_owner_cluster s.object.metadata) (
          allowed_calls-owner (not (is_zero s.object.metadata.deletion_timestamp))
            s.object.metadata))
        λ a.
          Preserves-bind (or_else a fail) _ (Preserves-or_else a _ λ e. Preserves-return _) λ owner.
            deleting_calls W s.object (not (is_zero s.object.metadata.deletion_timestamp)) owner).at
      s h

-- A reconciliation of a cluster that is being deleted creates and starts nothing in Cloud
-- Director; of any other, it deletes and stops nothing. So all the calls are of the allowed
-- kind if those made before are; its patch and its client are included.
pub reconcile_fetched_calls :
    (W : World) (cluster : TenantCluster) (t : Trace)
    → All (λ e. allowed_calls cluster e.call ≡ true) t
    → All
        (λ e. allowed_calls cluster e.call ≡ true)
        (reconcile_fetched W cluster (record { object = cluster; trace = t })).1.trace
unfolding reconcile_fetched defer
reconcile_fetched_calls W cluster t h =
    ((patch_only_patches W _ cluster (allowed_calls-patch _)).at _
      (object_calls W (record { object = cluster; trace = t }) (record { all = h }))).all
