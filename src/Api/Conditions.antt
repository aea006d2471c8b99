-- ===== src/Api/Conditions.antt =====
-- api/v1alpha1/condition_consts.go: condition types and reasons. A condition is the library's
-- `clusterv1.Condition` without its time stamp.
use cluster_api_provider_clo.Base.{String, Bool}

abbrev pub ConditionType : Type 0
ConditionType = String

pub data Severity : Type 0 where
  severity_error severity_warning severity_info : Severity

pub record Condition : Type 0 where
  pub type : ConditionType
  pub is_true : Bool
  pub severity : Severity
  pub reason : String
  pub message : String

abbrev pub virtual_service_ready_condition : ConditionType
virtual_service_ready_condition = "VirtualServiceReady"

abbrev pub virtual_service_create_failed_reason : String
virtual_service_create_failed_reason = "VirtualServiceCreateFailed"

abbrev pub pool_ready_condition : ConditionType
pool_ready_condition = "PoolReady"

abbrev pub ip_set_ready_condition : ConditionType
ip_set_ready_condition = "IPSetReady"

abbrev pub v_app_ready_condition : ConditionType
v_app_ready_condition = "VAppReady"

abbrev pub v_app_create_failed_reason : String
v_app_create_failed_reason = "VAppCreateFailed"

abbrev pub external_ip_address_ready : ConditionType
external_ip_address_ready = "ExternalIPAddressReady"

abbrev pub external_ip_address_get_unused_failed_reason : String
external_ip_address_get_unused_failed_reason = "ExternalIPAddressGetUnusedFailed"

abbrev pub virtual_machine_ready_condition : ConditionType
virtual_machine_ready_condition = "VirtualMachineReady"

abbrev pub waiting_for_cluster_infrastructure_reason : String
waiting_for_cluster_infrastructure_reason = "WaitingForClusterInfrastructure"

abbrev pub waiting_for_bootstrap_data_reason : String
waiting_for_bootstrap_data_reason = "WaitingForBootstrapData"

abbrev pub catalog_not_found_reason : String
catalog_not_found_reason = "CatalogNotFound"

abbrev pub template_not_found_reason : String
template_not_found_reason = "TemplateNotFound"

abbrev pub cloud_director_error_reason : String
cloud_director_error_reason = "CloudDirectorError"

abbrev pub add_virtual_machine_error_reason : String
add_virtual_machine_error_reason = "AddVirtualMachineError"

abbrev pub update_virtual_machine_spec_section_error_reason : String
update_virtual_machine_spec_section_error_reason = "UpdateVirtualMachineSpecSectionError"

abbrev pub virtual_machine_power_on_error_reason : String
virtual_machine_power_on_error_reason = "VirtualMachinePowerOnError"

abbrev pub load_balancer_member_condition : ConditionType
load_balancer_member_condition = "LoadBalancerMember"
