-- ===== src/Cluster/Made.antt =====
-- What the cluster controller makes, part by part.
use cluster_api_provider_clo.Api.{TenantCluster, Cluster}
use cluster_api_provider_clo.Cluster.Reconcile.{
  record_parts, allocate_endpoint, patch_tenant_cluster, ensure_parts, with_endpoint,
  reconcile_normal, reconcile_object, reconcile_fetched, reconcile, add_finalizer_or,
}
use cluster_api_provider_clo.Cluster.Delete.{
  remove_virtual_service, remove_alb_pool, remove_firewall_group, remove_v_app, reconcile_delete,
  remove_parts,
}
use cluster_api_provider_clo.World.Calls.{
  get_firewall_group_by_name, get_alb_pool_by_name, get_virtual_service_by_name, get_v_app_by_name,
  get_secret, cache_get, cache_add, set_api_token, create_firewall_group,
  get_service_engine_group_assignment, create_raw_v_app, create_alb_pool, create_virtual_service,
  patch_cluster, get_tenant_cluster, new_cluster_patch_helper,
}
use cluster_api_provider_clo.Flow.Rules.{
  Preserves, Preserves-bind, Preserves-gets, Preserves-deref, Preserves-defer, Preserves-or_else,
}
use cluster_api_provider_clo.Base.{refl, Option, true, String}
use cluster_api_provider_clo.World.Types.{
  Vdc, VcdClient, Named, FirewallGroup, FirewallGroupConfig, ObjectKey,
}
use cluster_api_provider_clo.Cluster.Parts.{
  ensure_firewall_group, ensure_alb_pool, ensure_virtual_service, ensure_v_app, create_group,
  create_pool, create_service, create_v_app,
}
use cluster_api_provider_clo.ClientCache.Rules.{KeptByClient, Preserves-get_vcd_client}
use cluster_api_provider_clo.Inventory.Rules.{
  Once-perform, Awaits-perform, Once-modify, Awaits-modify, Once, Makes, Makes-perform, Makes-bind,
}
use cluster_api_provider_clo.Inventory.Seek.{Once-found_or_create_last, Once-find_or_create}
use cluster_api_provider_clo.World.{World}
use cluster_api_provider_clo.Cluster.Kinds.{cluster_rules}
use cluster_api_provider_clo.Flow.{failed}
use cluster_api_provider_clo.Inventory.{group, pool, service, v_app, Remembers}

ruleset once_rules = (cluster_rules, Once-perform, Once-modify)

ruleset awaits_rules = (cluster_rules, Awaits-perform, Awaits-modify)

pub Once-KeptByClient : (W : World) {O : Type 0} → KeptByClient W {O = O} Once
Once-KeptByClient W = record {
  secret = λ k. Once-perform W (get_secret k) refl;
  hit = λ k. Once-perform W (cache_get k) refl;
  add = λ k c t. Once-perform W (cache_add k c t) refl;
  token = λ c o t. Once-perform W (set_api_token c o t) refl;
}

module _ (W : World) (remembers : Remembers W) where
  Makes-create_group :
      (vdc : Vdc) (config : FirewallGroupConfig)
      → Makes (group vdc config.name config.type_value) (create_group W vdc config)
  unfolding create_group
  Makes-create_group vdc config =
      Makes-perform W _ (create_firewall_group vdc config) _ refl λ a. search once_rules

  Once-ensure_firewall_group :
      (vdc : Vdc) (gateway : Named) → Preserves Once (ensure_firewall_group W vdc gateway)
  unfolding ensure_firewall_group
  Once-ensure_firewall_group vdc gateway = Preserves-bind _ _ (Preserves-gets _) λ name.
      Once-found_or_create_last W remembers _
        (get_firewall_group_by_name vdc name W.firewall_group_type_ip_set) _
        (Makes-create_group vdc _) refl refl

  Makes-create_pool :
      (client : VcdClient) (gateway : Named) (members : Option FirewallGroup) (name : String)
      → Makes (pool gateway.id name) (create_pool W client gateway members name)
  unfolding create_pool
  Makes-create_pool client gateway members name =
      Makes-bind _ _ _ (Preserves-deref members)
        λ m. Makes-perform W _ (create_alb_pool client _) _ refl λ a. search once_rules

  Once-ensure_alb_pool :
      (client : VcdClient) (gateway : Named) (members : Option FirewallGroup)
      → Preserves Once (ensure_alb_pool W client gateway members)
  unfolding ensure_alb_pool
  Once-ensure_alb_pool client gateway members = Preserves-bind _ _ (Preserves-gets _) λ name.
      Once-found_or_create_last W remembers _ (get_alb_pool_by_name client gateway.id name) _
        (Makes-create_pool client gateway members name) refl refl

  Makes-create_service :
      (client : VcdClient) (gateway : Named) (members : Option Named) (name : String)
      → Makes (service gateway.id name) (create_service W client gateway members name)
  unfolding create_service
  Makes-create_service client gateway members name = Makes-bind _ _ _ (Preserves-gets _) λ cluster.
      Makes-bind _ _ _ (Awaits-perform W _ (get_service_engine_group_assignment client _ _) refl)
        λ a. Makes-bind _ _ _ (search awaits_rules) λ engines.
          Makes-bind _ _ _ (Preserves-deref members)
            λ m. Makes-perform W _ (create_virtual_service client _) _ refl λ b. search once_rules

  Once-ensure_virtual_service :
      (client : VcdClient) (gateway : Named) (members : Option Named)
      → Preserves Once (ensure_virtual_service W client gateway members)
  unfolding ensure_virtual_service
  Once-ensure_virtual_service client gateway members = Preserves-bind _ _ (Preserves-gets _) λ name.
      Once-find_or_create W remembers _ (get_virtual_service_by_name client gateway.id name) _
        (Makes-create_service client gateway members name) failed refl refl

  Makes-create_v_app :
      (vdc : Vdc) (name : String) → Makes (v_app vdc name) (create_v_app W vdc name)
  unfolding create_v_app
  Makes-create_v_app vdc name =
      Makes-perform W _ (create_raw_v_app vdc name "") _ refl λ a. search once_rules depth 40

  Once-ensure_v_app : (vdc : Vdc) → Preserves Once (ensure_v_app W vdc)
  unfolding ensure_v_app
  Once-ensure_v_app vdc = Preserves-bind _ _ (Preserves-gets _) λ name.
      Once-find_or_create W remembers _ (get_v_app_by_name vdc name true) _
        (Makes-create_v_app vdc name) failed refl refl

module _ (W : World) where
  Once-remove_virtual_service :
      (client : VcdClient) → Preserves Once (remove_virtual_service W client)
  unfolding remove_virtual_service
  Once-remove_virtual_service client = search once_rules depth 12

  Once-remove_alb_pool : (client : VcdClient) → Preserves Once (remove_alb_pool W client)
  unfolding remove_alb_pool
  Once-remove_alb_pool client = search once_rules depth 12

  Once-remove_firewall_group : (vdc : Vdc) → Preserves Once (remove_firewall_group W vdc)
  unfolding remove_firewall_group
  Once-remove_firewall_group vdc = search once_rules depth 12

  Once-remove_v_app : (vdc : Vdc) → Preserves Once (remove_v_app W vdc)
  unfolding remove_v_app
  Once-remove_v_app vdc = search once_rules depth 30

  Once-reconcile_delete : (owner : Option Cluster) → Preserves Once (reconcile_delete W owner)
  unfolding reconcile_delete remove_parts
  Once-reconcile_delete owner =
      search
        (
          once_rules,
          Once-remove_virtual_service,
          Once-remove_alb_pool,
          Once-remove_firewall_group,
          Once-remove_v_app,
          Preserves-get_vcd_client W (Once-KeptByClient W),
        )
        depth 40

  Once-record_parts :
      (a s : Named) (p : Option Named) (g : Option FirewallGroup)
      → Preserves Once (record_parts W a s p g)
  unfolding record_parts
  Once-record_parts a s p g = search once_rules depth 30

  Once-allocate_endpoint : (gateway : Named) → Preserves Once (allocate_endpoint W gateway)
  unfolding allocate_endpoint
  Once-allocate_endpoint gateway = search once_rules depth 12

  Once-patch_tenant_cluster :
      (original : TenantCluster) → Preserves Once (patch_tenant_cluster W original)
  unfolding patch_tenant_cluster
  Once-patch_tenant_cluster original = Preserves-bind _ _ (Once-modify _) λ _.
      Preserves-bind _ _ (Preserves-gets _) λ c. Once-perform W (patch_cluster original c _) refl

module _ (W : World) (remembers : Remembers W) where
  Once-ensure_parts :
      (client : VcdClient) (vdc : Vdc) (gateway : Named)
      → Preserves Once (ensure_parts W client vdc gateway)
  unfolding ensure_parts
  Once-ensure_parts client vdc gateway =
      search
        (
          once_rules,
          Once-ensure_firewall_group W remembers,
          Once-ensure_alb_pool W remembers,
          Once-ensure_virtual_service W remembers,
          Once-ensure_v_app W remembers,
          Once-record_parts W,
        )
        depth 12

  Once-with_endpoint :
      (owner : Option Cluster) (client : VcdClient) (vdc : Vdc) (gateway : Named)
      → Preserves Once (with_endpoint W owner client vdc gateway)
  unfolding with_endpoint
  Once-with_endpoint owner client vdc gateway = search (once_rules, Once-ensure_parts) depth 12

  Once-reconcile_normal : (owner : Option Cluster) → Preserves Once (reconcile_normal W owner)
  unfolding reconcile_normal
  Once-reconcile_normal owner =
      search
        (
          once_rules,
          Once-allocate_endpoint W,
          Once-with_endpoint,
          Preserves-get_vcd_client W (Once-KeptByClient W),
        )
        depth 30

  Once-reconcile_object : Preserves Once (reconcile_object W)
  unfolding reconcile_object add_finalizer_or
  Once-reconcile_object =
      search (once_rules, Once-reconcile_delete W, Once-reconcile_normal) depth 30

  Once-reconcile_fetched :
      (original : TenantCluster) → Preserves Once (reconcile_fetched W original)
  unfolding reconcile_fetched
  Once-reconcile_fetched original =
      Preserves-defer W _ _ (Once-patch_tenant_cluster W original) Once-reconcile_object

  -- The handler of a request.
  pub Once-reconcile : (key : ObjectKey) → Preserves Once (reconcile W key)
  unfolding reconcile
  Once-reconcile key = Preserves-bind _ _ (Once-perform W (get_tenant_cluster key) refl) λ a.
      Preserves-bind _ _ (Preserves-or_else a _ λ e. search once_rules) λ cluster.
        Preserves-bind _ _ (Once-perform W (new_cluster_patch_helper cluster) refl) λ b.
          Preserves-bind _ _ (Preserves-or_else b _ λ e. search once_rules) λ _. record {
            at = λ s o. record {
              once =
                  ((Once-reconcile_fetched cluster).at
                    (record { object = cluster; trace = s.trace }) (record { once = o.once })).once;
            };
          }
