-- ===== src/Cluster/Parts/Granted.antt =====
-- Each part of a cluster in a world that grants what is asked for.
use cluster_api_provider_clo.World.Calls.{
  create_raw_v_app, create_firewall_group, get_firewall_group_by_name, create_alb_pool,
  get_alb_pool_by_name, get_service_engine_group_assignment, get_org_vdc_network,
  get_virtual_service_by_name, get_v_app_by_name, create_virtual_service, add_org_network,
  power_on_v_app, wait_task_completion,
}
use cluster_api_provider_clo.Flow.Steady.{
  Steady, Steady-bind, Steady-deref, Steady-gets, IsOk, IsFound, Steady-or_else, Steady-or_create,
  Steady-pure,
}
use cluster_api_provider_clo.Flow.Steady.Calls.{
  Steady-ask, Steady-perform, Steady-find, Steady-found_or_create, Steady-any,
}
use cluster_api_provider_clo.Base.{String, ◌≢◌, Option, some, none, true, false, refl}
use cluster_api_provider_clo.World.Types.{Vdc, VcdClient, FirewallGroupConfig, Named, FirewallGroup}
use cluster_api_provider_clo.Api.{TenantCluster}
use cluster_api_provider_clo.Cluster.Cooperation.{Cooperates}
use cluster_api_provider_clo.World.{World}
use cluster_api_provider_clo.Flow.{retry, fail}
use cluster_api_provider_clo.Cluster.Parts.{
  create_group, create_pool, create_service, create_v_app, ensure_firewall_group, ensure_alb_pool,
  ensure_virtual_service, ensure_v_app,
}

module _ (W : World) (coop : Cooperates W) {c : TenantCluster} where
  Steady-create_group :
      (vdc : Vdc) (config : FirewallGroupConfig) → Steady c (create_group W vdc config) (λ _. Unit)
  unfolding create_group
  Steady-create_group vdc config =
      Steady-bind _ _ _
        (Steady-perform W (create_firewall_group vdc config) IsOk (coop.group vdc config))
        λ a o. Steady-or_else a retry o

  pub Steady-ensure_firewall_group :
      (vdc : Vdc) (gateway : Named) → Steady c (ensure_firewall_group W vdc gateway) (λ o. o ≢ none)
  unfolding ensure_firewall_group
  Steady-ensure_firewall_group vdc gateway = Steady-bind _ _ _ (Steady-gets _) λ name _.
      Steady-bind _ _ _
        (Steady-perform W (get_firewall_group_by_name vdc name W.firewall_group_type_ip_set)
          (IsFound W) (coop.group_named vdc name _))
        λ a f. Steady-found_or_create W a _ f (Steady-create_group vdc _)

  Steady-create_pool :
      (client : VcdClient) (gateway : Named) (group : FirewallGroup) (name : String)
      → Steady c (create_pool W client gateway (some group) name) (λ _. Unit)
  unfolding create_pool
  Steady-create_pool client gateway group name =
      Steady-bind _ _ _ (Steady-deref _ group refl) λ members _.
        Steady-bind _ _ _ (Steady-perform W (create_alb_pool client _) IsOk (coop.pool client _))
          λ a o. Steady-or_else a retry o

  pub Steady-ensure_alb_pool :
      (client : VcdClient) (gateway : Named) (group : Option FirewallGroup)
      → group ≢ none
      → Steady c (ensure_alb_pool W client gateway group) (λ o. o ≢ none)
  unfolding ensure_alb_pool
  Steady-ensure_alb_pool client gateway none h = absurd (h refl)
  Steady-ensure_alb_pool client gateway (some group) h = Steady-bind _ _ _ (Steady-gets _) λ name _.
      Steady-bind _ _ _
        (Steady-perform W (get_alb_pool_by_name client gateway.id name) (IsFound W)
          (coop.pool_named client gateway.id name))
        λ a f. Steady-found_or_create W a _ f (Steady-create_pool client gateway group name)

  Steady-create_service :
      (client : VcdClient) (gateway pool : Named) (name : String)
      → Steady c (create_service W client gateway (some pool) name) (λ _. Unit)
  unfolding create_service
  Steady-create_service client gateway pool name = Steady-bind _ _ _ (Steady-gets _) λ cluster _.
      Steady-ask W (get_service_engine_group_assignment client _ _) retry _
        (coop.engines client _ _)
        λ group. Steady-bind _ _ _ (Steady-deref _ pool refl) λ members _.
          Steady-bind _ _ _
            (Steady-perform W (create_virtual_service client _) IsOk (coop.service client _))
            λ a o. Steady-or_else a _ o

  pub Steady-ensure_virtual_service :
      (client : VcdClient) (gateway : Named) (pool : Option Named)
      → pool ≢ none
      → Steady c (ensure_virtual_service W client gateway pool) (λ _. Unit)
  unfolding ensure_virtual_service
  Steady-ensure_virtual_service client gateway none h = absurd (h refl)
  Steady-ensure_virtual_service client gateway (some pool) h =
      Steady-bind _ _ _ (Steady-gets _) λ name _.
        Steady-bind _ _ _
          (Steady-find W (get_virtual_service_by_name client gateway.id name) fail
            (coop.service_named client gateway.id name))
          λ found _. Steady-or_create found _ (Steady-create_service client gateway pool name)

  Steady-create_v_app : (vdc : Vdc) (name : String) → Steady c (create_v_app W vdc name) (λ _. Unit)
  unfolding create_v_app
  Steady-create_v_app vdc name =
      Steady-ask W (create_raw_v_app vdc name "") _ _ (coop.v_app vdc name "") λ v_app.
        Steady-bind _ _ _ (Steady-gets _) λ network_name _.
          Steady-ask W (get_org_vdc_network vdc network_name true) retry _
            (coop.network vdc network_name true)
            λ network.
              Steady-ask W (add_org_network v_app network false) retry _
                (coop.connected v_app network false)
                λ _.
                  Steady-ask W (power_on_v_app v_app) retry _ (coop.powered v_app)
                    λ task. Steady-any W (wait_task_completion task) _ λ _. Steady-pure _ tt

  pub Steady-ensure_v_app : (vdc : Vdc) → Steady c (ensure_v_app W vdc) (λ _. Unit)
  unfolding ensure_v_app
  Steady-ensure_v_app vdc = Steady-bind _ _ _ (Steady-gets _) λ name _.
      Steady-bind _ _ _
        (Steady-find W (get_v_app_by_name vdc name true) fail (coop.v_app_named vdc name true))
        λ found _. Steady-or_create found _ (Steady-create_v_app vdc name)
