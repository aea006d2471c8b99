-- ===== src/Cluster/Parts.antt =====
-- The parts of a cluster in Cloud Director, each looked up by name and created if it is missing:
-- the middle of `Reconcile` in controllers/clouddirectortenantcluster_controller.go.
pub mod Granted
use cluster_api_provider_clo.Base.{String, ◌<>◌, true, false, Option, [], ◌∷◌}
use cluster_api_provider_clo.Api.{TenantCluster}
use cluster_api_provider_clo.Api.Conditions.{
  virtual_service_ready_condition, virtual_service_create_failed_reason, v_app_ready_condition,
  v_app_create_failed_reason,
}
use cluster_api_provider_clo.World.{World}
use cluster_api_provider_clo.World.Types.{VcdClient, Vdc, Named, FirewallGroup, FirewallGroupConfig}
use cluster_api_provider_clo.World.Calls.{
  get_firewall_group_by_name, create_firewall_group, get_alb_pool_by_name, create_alb_pool,
  get_virtual_service_by_name, get_service_engine_group_assignment, create_virtual_service,
  get_v_app_by_name, create_raw_v_app, get_org_vdc_network, add_org_network, power_on_v_app,
  wait_task_completion,
}
use cluster_api_provider_clo.Flow.{
  M, pure, gets, modify, ◌>>=◌, ◌>>◌, deref, perform, or_else, retry, fail,
}
use cluster_api_provider_clo.Vcdutil.{find, found_or_create, or_create}
use cluster_api_provider_clo.Names.{resource_name, resource_name_with_use, use_control_plane}
use cluster_api_provider_clo.Cluster.Object.{with_error}

abbrev pub C : Type 0 → Type 0
C = M TenantCluster

module _ (W : World) where
  unfoldable pub create_group : Vdc → FirewallGroupConfig → C FirewallGroup
  create_group vdc config = do a ← perform W (create_firewall_group vdc config); or_else a retry

  unfoldable pub ensure_firewall_group : Vdc → Named → C (Option FirewallGroup)
  unfolding create_group
  ensure_firewall_group vdc gateway = do
    name ← gets (λ c. resource_name_with_use c use_control_plane)
    a ← perform W (get_firewall_group_by_name vdc name W.firewall_group_type_ip_set)
    found_or_create W a (
        create_group vdc
          (record { name = name; type_value = W.firewall_group_type_ip_set; owner_ref = gateway }))

  unfoldable pub create_pool : VcdClient → Named → Option FirewallGroup → String → C Named
  create_pool client gateway group name = do
    members ← deref group
    a ← perform W (
        create_alb_pool client (record {
          name = name;
          default_port = 6443;
          gateway_ref = gateway;
          member_group_ref = record { id = members.id; name = members.name };
          health_monitors = "TCP" ∷ [];
        }))
    or_else a retry

  unfoldable pub ensure_alb_pool : VcdClient → Named → Option FirewallGroup → C (Option Named)
  unfolding create_pool
  ensure_alb_pool client gateway group = do
    name ← gets (λ c. resource_name_with_use c use_control_plane)
    a ← perform W (get_alb_pool_by_name client gateway.id name)
    found_or_create W a (create_pool client gateway group name)

  unfoldable pub create_service : VcdClient → Named → Option Named → String → C Named
  create_service client gateway pool name = do
    cluster ← gets (λ c. c)
    a ← perform W (
        get_service_engine_group_assignment client cluster.spec.service_engine_group
          ("gatewayRef.id==" <> gateway.id))
    group ← or_else a retry
    members ← deref pool
    b ← perform W (
        create_virtual_service client (record {
          name = name;
          enabled = true;
          gateway_ref = gateway;
          load_balancer_pool_ref = members;
          service_engine_group_ref = group;
          virtual_ip_address = cluster.spec.control_plane_endpoint.host;
          port_start = cluster.spec.control_plane_endpoint.port;
          profile_type = "TCP_PROXY";
          application_profile = "L4";
        }))
    or_else b λ e. do
      modify (
          with_error W virtual_service_ready_condition virtual_service_create_failed_reason
            (W.replace_request_id e.message))
      retry e

  unfoldable pub ensure_virtual_service : VcdClient → Named → Option Named → C Named
  unfolding create_service
  ensure_virtual_service client gateway pool = do
    name ← gets (λ c. resource_name_with_use c use_control_plane)
    found ← find W (get_virtual_service_by_name client gateway.id name) fail
    or_create found (create_service client gateway pool name)

  -- The error of the task is logged only.
  unfoldable pub create_v_app : Vdc → String → C Named
  create_v_app vdc name = do
    a ← perform W (create_raw_v_app vdc name "")
    v_app ← or_else a λ e. do
      modify (with_error W v_app_ready_condition v_app_create_failed_reason e.message)
      retry e
    network_name ← gets (λ c. c.spec.network)
    b ← perform W (get_org_vdc_network vdc network_name true)
    network ← or_else b retry
    c ← perform W (add_org_network v_app network false)
    or_else c retry
    d ← perform W (power_on_v_app v_app)
    task ← or_else d retry
    perform W (wait_task_completion task)
    pure v_app

  unfoldable pub ensure_v_app : Vdc → C Named
  unfolding create_v_app
  ensure_v_app vdc = do
    name ← gets resource_name
    found ← find W (get_v_app_by_name vdc name true) fail
    or_create found (create_v_app vdc name)
