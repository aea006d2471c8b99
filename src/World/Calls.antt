-- ===== src/World/Calls.antt =====
-- The calls that the program makes to Kubernetes, to its client cache and to Cloud Director, and
-- the type of the value that each returns.
use cluster_api_provider_clo.Base.{ℕ, String, Bool, Option, List}
use cluster_api_provider_clo.Api.{ℤ, ObjectMeta, TenantCluster, TenantMachine, Cluster, Machine}
use cluster_api_provider_clo.Api.Conditions.{ConditionType}
use cluster_api_provider_clo.World.Types.{
  ObjectKey, Secret, VcdClient, SessionInfo, Org, Vdc, Task, Named, FirewallGroup,
  FirewallGroupConfig, AlbPoolConfig, VirtualServiceConfig, VAppNetwork, NetworkConnectionSection,
  GuestCustomizationSection, ProductSectionList, VmSpecSection, Vm,
}

pub data Call : Type 0 where
  get_tenant_cluster get_tenant_machine get_secret : ObjectKey → Call
  get_owner_cluster get_owner_machine : ObjectMeta → Call
  get_cluster_from_metadata : Machine → Call
  get_filtered_machines_for_cluster : Cluster → Call
  new_cluster_patch_helper : TenantCluster → Call
  new_machine_patch_helper : TenantMachine → Call
  -- the object when the helper was made, the object now, and the owned conditions
  patch_cluster : TenantCluster → TenantCluster → List ConditionType → Call
  patch_machine : TenantMachine → TenantMachine → List ConditionType → Call
  -- an error is a miss
  cache_get : ℕ → Call
  cache_add : ℕ → VcdClient → ℤ → Call
  set_api_token : VcdClient → List ℕ → List ℕ → Call
  get_session_info : VcdClient → Call
  get_org_by_name : VcdClient → String → Call
  get_vdc_by_name : Org → String → Bool → Call
  get_edge_gateway : Org → String → String → Call
  get_unused_external_ip_addresses : Named → ℕ → Call
  get_firewall_group_by_name : Vdc → String → String → Call
  get_firewall_group_by_id : Vdc → String → Call
  create_firewall_group : Vdc → FirewallGroupConfig → Call
  update_firewall_group : FirewallGroup → Call
  delete_firewall_group : FirewallGroup → Call
  get_alb_pool_by_name : VcdClient → String → String → Call
  get_alb_pool_by_id : VcdClient → String → Call
  create_alb_pool : VcdClient → AlbPoolConfig → Call
  delete_alb_pool : Named → Call
  get_virtual_service_by_name : VcdClient → String → String → Call
  get_virtual_service_by_id : VcdClient → String → Call
  get_service_engine_group_assignment : VcdClient → String → String → Call
  create_virtual_service : VcdClient → VirtualServiceConfig → Call
  delete_virtual_service : Named → Call
  get_v_app_by_name : Vdc → String → Bool → Call
  get_v_app_by_id : Vdc → String → Bool → Call
  create_raw_v_app : Vdc → String → String → Call
  get_org_vdc_network : Vdc → String → Bool → Call
  add_org_network : Named → Named → Bool → Call
  power_on_v_app get_v_app_status undeploy_v_app delete_v_app : Named → Call
  wait_task_completion : Task → Call
  get_catalog_by_name : Org → String → Bool → Call
  get_v_app_template : Named → String → Call
  get_vm_by_name : Named → String → Bool → Call
  add_new_vm : Named → String → Named → NetworkConnectionSection → Bool → Call
  get_v_app_network : Named → String → Bool → Call
  get_network_connection_section get_guest_customization_section : Vm → Call
  set_guest_customization_section : Vm → GuestCustomizationSection → Call
  get_product_section_list : Vm → Call
  set_product_section_list : Vm → ProductSectionList → Call
  update_vm_spec_section : Vm → VmSpecSection → String → Call
  power_on_vm delete_vm : Vm → Call

abbrev pub Reply : Call → Type 0
Reply (get_tenant_cluster key) = TenantCluster
Reply (get_tenant_machine key) = TenantMachine
Reply (get_secret key) = Secret
Reply (get_owner_cluster meta) = Option Cluster
Reply (get_owner_machine meta) = Option Machine
Reply (get_cluster_from_metadata machine) = Cluster
Reply (get_filtered_machines_for_cluster cluster) = List Machine
Reply (cache_get sum) = VcdClient
Reply (set_api_token client org token) = String
Reply (get_session_info client) = SessionInfo
Reply (get_org_by_name client name) = Org
Reply (get_vdc_by_name org name refresh) = Vdc
Reply (get_edge_gateway org name owner) = Named
Reply (get_unused_external_ip_addresses gateway n) = List String
Reply (get_firewall_group_by_name vdc name kind) = FirewallGroup
Reply (get_firewall_group_by_id vdc id) = FirewallGroup
Reply (create_firewall_group vdc config) = FirewallGroup
Reply (update_firewall_group group) = FirewallGroup
Reply (get_alb_pool_by_name client gateway name) = Named
Reply (get_alb_pool_by_id client id) = Named
Reply (create_alb_pool client config) = Named
Reply (get_virtual_service_by_name client gateway name) = Named
Reply (get_virtual_service_by_id client id) = Named
Reply (get_service_engine_group_assignment client name filter) = Named
Reply (create_virtual_service client config) = Named
Reply (get_v_app_by_name vdc name refresh) = Named
Reply (get_v_app_by_id vdc id refresh) = Named
Reply (create_raw_v_app vdc name description) = Named
Reply (get_org_vdc_network vdc name refresh) = Named
Reply (power_on_v_app v_app) = Task
Reply (get_v_app_status v_app) = String
Reply (undeploy_v_app v_app) = Task
Reply (delete_v_app v_app) = Task
Reply (get_catalog_by_name org name refresh) = Named
Reply (get_v_app_template catalog name) = Named
Reply (get_vm_by_name v_app name refresh) = Vm
Reply (add_new_vm v_app name template section powered) = Task
Reply (get_v_app_network v_app name refresh) = VAppNetwork
Reply (get_network_connection_section vm) = NetworkConnectionSection
Reply (get_guest_customization_section vm) = GuestCustomizationSection
Reply (get_product_section_list vm) = ProductSectionList
Reply (power_on_vm vm) = Task
Reply _ = Unit
