-- ===== src/Cluster/Ready.antt =====
-- The ready flag of a cluster and its recorded parts, whose ids the machine controller reads
-- without a test.
use cluster_api_provider_clo.Cluster.Object.{tenant_cluster_finalizer}
use cluster_api_provider_clo.Cluster.Delete.{
  remove_virtual_service, remove_alb_pool, remove_firewall_group, remove_v_app, reconcile_delete,
  remove_parts,
}
use cluster_api_provider_clo.World.Types.{Vdc, VcdClient, Named, FirewallGroup}
use cluster_api_provider_clo.Flow.Rules.{Preserves, Preserves-bind, Preserves-gets, Preserves-defer}
use cluster_api_provider_clo.Cluster.Reconcile.{
  ensure_parts, allocate_endpoint, with_endpoint, reconcile_normal, add_finalizer_or, record_parts,
  reconcile_object, patch_tenant_cluster, reconcile_fetched,
}
use cluster_api_provider_clo.Cluster.Parts.{
  ensure_firewall_group, ensure_alb_pool, ensure_virtual_service, ensure_v_app, C,
}
use cluster_api_provider_clo.ClientCache.Rules.{KeptByClient, Preserves-get_vcd_client}
use cluster_api_provider_clo.World.Calls.{Call, patch_cluster}
use cluster_api_provider_clo.Base.{
  ◌≡◌, Bool, true, Option, arith, ◌≢◌, none, false, some, if◌then◌else◌, refl,
}
use cluster_api_provider_clo.Cluster.Kinds.{cluster_rules}
use cluster_api_provider_clo.World.{World, Trace}
use cluster_api_provider_clo.Flow.{Session, perform, ◌>>=◌, Return, modify}
use cluster_api_provider_clo.Api.{TenantCluster, CloudDirectorReference, Cluster}

-- Both what is recorded and the flag that relies on it.
pub record IsRecorded (c : TenantCluster) : Type 0 where
  pub virtual_service : c.status.ready ≡ true → c.status.virtual_service ≢ none
  pub pool : c.status.ready ≡ true → c.status.pool ≢ none
  pub ip_set : c.status.ready ≡ true → c.status.ip_set ≢ none
  pub v_app : c.status.ready ≡ true → c.status.v_app ≢ none

pub record HoldsRecorded (s : Session TenantCluster) : Type 0 where
  pub object : IsRecorded s.object

-- The parts of the status that count here.
abbrev core :
    TenantCluster
    → Bool
      × Option CloudDirectorReference
      × Option CloudDirectorReference
      × Option CloudDirectorReference
      × Option CloudDirectorReference
core c = (c.status.ready, c.status.virtual_service, c.status.pool, c.status.ip_set, c.status.v_app)

IsRecorded-core : (c d : TenantCluster) → core d ≡ core c → IsRecorded c → IsRecorded d
IsRecorded-core c d e h = ground (arith, h.virtual_service, h.pool, h.ip_set, h.v_app)

HoldsRecorded-perform : (W : World) (c : Call) → Preserves HoldsRecorded (perform W c)
unfolding perform
HoldsRecorded-perform W c = record { at = λ s h. record { object = h.object } }

HoldsRecorded-modify :
    (f : TenantCluster → TenantCluster)
    → ((c : TenantCluster) → core (f c) ≡ core c)
    → Preserves HoldsRecorded (modify f)
unfolding ◌>>=◌
HoldsRecorded-modify f same = record {
  at = λ s h. record { object = IsRecorded-core _ _ (same s.object) h.object };
}

HoldsRecorded-KeptByClient : (W : World) → KeptByClient W HoldsRecorded
HoldsRecorded-KeptByClient W = record {
  secret = λ k. search HoldsRecorded-perform;
  hit = λ k. search HoldsRecorded-perform;
  add = λ k d t. search HoldsRecorded-perform;
  token = λ d o t. search HoldsRecorded-perform;
}

ruleset recorded_rules = (cluster_rules, HoldsRecorded-perform, HoldsRecorded-modify)

module _ (W : World) where
  record_parts-HoldsRecorded :
      (v_app service : Named) (pool : Option Named) (group : Option FirewallGroup)
      → Preserves HoldsRecorded (record_parts W v_app service pool group)
  unfolding record_parts ◌>>=◌
  record_parts-HoldsRecorded v_app service none group = record {
    at = λ s h. record {
      object =
          ground (arith, h.object.virtual_service, h.object.pool, h.object.ip_set, h.object.v_app);
    };
  }
  record_parts-HoldsRecorded v_app service (some pool) none = record {
    at = λ s h. record {
      object =
          ground (arith, h.object.virtual_service, h.object.pool, h.object.ip_set, h.object.v_app);
    };
  }
  record_parts-HoldsRecorded v_app service (some pool) (some group) = record {
    at = λ s h. record { object = ground arith };
  }

  group-HoldsRecorded :
      (vdc : Vdc) (gateway : Named) → Preserves HoldsRecorded (ensure_firewall_group W vdc gateway)
  unfolding ensure_firewall_group
  group-HoldsRecorded vdc gateway = search recorded_rules depth 12

  pool-HoldsRecorded :
      (client : VcdClient) (gateway : Named) (group : Option FirewallGroup)
      → Preserves HoldsRecorded (ensure_alb_pool W client gateway group)
  unfolding ensure_alb_pool
  pool-HoldsRecorded client gateway group = search recorded_rules depth 12

  service-HoldsRecorded :
      (client : VcdClient) (gateway : Named) (pool : Option Named)
      → Preserves HoldsRecorded (ensure_virtual_service W client gateway pool)
  unfolding ensure_virtual_service
  service-HoldsRecorded client gateway pool = search recorded_rules depth 24

  v_app-HoldsRecorded : (vdc : Vdc) → Preserves HoldsRecorded (ensure_v_app W vdc)
  unfolding ensure_v_app
  v_app-HoldsRecorded vdc = search recorded_rules depth 30

  parts-HoldsRecorded :
      (client : VcdClient) (vdc : Vdc) (gateway : Named)
      → Preserves HoldsRecorded (ensure_parts W client vdc gateway)
  unfolding ensure_parts
  parts-HoldsRecorded client vdc gateway =
      search
        (
          cluster_rules, group-HoldsRecorded, pool-HoldsRecorded, service-HoldsRecorded,
          v_app-HoldsRecorded, record_parts-HoldsRecorded,
        )
        depth 12

  endpoint-HoldsRecorded : (gateway : Named) → Preserves HoldsRecorded (allocate_endpoint W gateway)
  unfolding allocate_endpoint
  endpoint-HoldsRecorded gateway = search recorded_rules depth 12

  with_endpoint-HoldsRecorded :
      (owner : Option Cluster) (client : VcdClient) (vdc : Vdc) (gateway : Named)
      → Preserves HoldsRecorded (with_endpoint W owner client vdc gateway)
  unfolding with_endpoint
  with_endpoint-HoldsRecorded owner client vdc gateway =
      search (recorded_rules, parts-HoldsRecorded) depth 12

  normal-HoldsRecorded :
      (owner : Option Cluster) → Preserves HoldsRecorded (reconcile_normal W owner)
  unfolding reconcile_normal
  normal-HoldsRecorded owner =
      search
        (
          recorded_rules,
          endpoint-HoldsRecorded,
          with_endpoint-HoldsRecorded,
          Preserves-get_vcd_client W (HoldsRecorded-KeptByClient W),
        )
        depth 30

  finalizer-HoldsRecorded :
      (added : Bool) (rest : C Return)
      → Preserves HoldsRecorded rest
      → Preserves HoldsRecorded (add_finalizer_or W added rest)
  unfolding add_finalizer_or
  finalizer-HoldsRecorded true rest h = search recorded_rules
  finalizer-HoldsRecorded false rest h = Preserves-bind _ _ (search recorded_rules) λ _. h

  service-removal-HoldsRecorded :
      (client : VcdClient) → Preserves HoldsRecorded (remove_virtual_service W client)
  unfolding remove_virtual_service
  service-removal-HoldsRecorded client = search recorded_rules depth 12

  pool-removal-HoldsRecorded :
      (client : VcdClient) → Preserves HoldsRecorded (remove_alb_pool W client)
  unfolding remove_alb_pool
  pool-removal-HoldsRecorded client = search recorded_rules depth 12

  group-removal-HoldsRecorded : (vdc : Vdc) → Preserves HoldsRecorded (remove_firewall_group W vdc)
  unfolding remove_firewall_group
  group-removal-HoldsRecorded vdc = search recorded_rules depth 12

  v_app-removal-HoldsRecorded : (vdc : Vdc) → Preserves HoldsRecorded (remove_v_app W vdc)
  unfolding remove_v_app
  v_app-removal-HoldsRecorded vdc = search recorded_rules depth 30

  deletion-HoldsRecorded :
      (owner : Option Cluster) → Preserves HoldsRecorded (reconcile_delete W owner)
  unfolding reconcile_delete remove_parts
  deletion-HoldsRecorded owner =
      search
        (
          recorded_rules,
          service-removal-HoldsRecorded,
          pool-removal-HoldsRecorded,
          group-removal-HoldsRecorded,
          v_app-removal-HoldsRecorded,
          Preserves-get_vcd_client W (HoldsRecorded-KeptByClient W),
        )
        depth 40

  branch-HoldsRecorded :
      (deleting : Bool) (cluster : TenantCluster) (owner : Option Cluster)
      → Preserves HoldsRecorded (
          if deleting
          then reconcile_delete W owner
          else add_finalizer_or W
              (W.add_finalizer tenant_cluster_finalizer cluster.metadata.finalizers).1
              (reconcile_normal W owner))
  branch-HoldsRecorded true cluster owner = deletion-HoldsRecorded owner
  branch-HoldsRecorded false cluster owner =
      finalizer-HoldsRecorded _ _ (normal-HoldsRecorded owner)

  object-HoldsRecorded : Preserves HoldsRecorded (reconcile_object W)
  unfolding reconcile_object
  object-HoldsRecorded = search (recorded_rules, branch-HoldsRecorded) depth 12

  patch-HoldsRecorded :
      (original : TenantCluster) → Preserves HoldsRecorded (patch_tenant_cluster W original)
  unfolding patch_tenant_cluster
  patch-HoldsRecorded original = Preserves-bind _ _ (HoldsRecorded-modify _ λ c. refl) λ _.
      Preserves-bind _ _ (Preserves-gets _)
        λ c. HoldsRecorded-perform W (patch_cluster original c _)

-- If the status says ready only with all four parts recorded, then so does the status after a
-- reconciliation, whether it returns or crashes, and whatever the world answers.
pub reconcile_fetched-IsRecorded :
    (W : World) (cluster : TenantCluster) (t : Trace)
    → IsRecorded cluster
    → IsRecorded (reconcile_fetched W cluster (record { object = cluster; trace = t })).1.object
unfolding reconcile_fetched
reconcile_fetched-IsRecorded W cluster t h =
    ((Preserves-defer W _ _ (patch-HoldsRecorded W cluster) (object-HoldsRecorded W)).at
      (record { object = cluster; trace = t }) (record { object = h })).object
