-- ===== src/Examples/Data.antt =====
-- A world in which what the examples look up is found, and the objects of the examples. A call
-- without a clause ends in "not found", and a data center called "broken" fails.
use cluster_api_provider_clo.Flow.{Session}
use cluster_api_provider_clo.World.Calls.{
  Call, Reply, get_tenant_machine, get_secret, get_owner_cluster, get_filtered_machines_for_cluster,
  cache_get, get_org_by_name, get_vdc_by_name, get_firewall_group_by_name, get_alb_pool_by_name,
  get_virtual_service_by_name, get_virtual_service_by_id, delete_virtual_service, get_v_app_by_name,
  get_v_app_by_id, get_v_app_status, delete_v_app, wait_task_completion, get_catalog_by_name,
  get_vm_by_name, get_v_app_network, get_network_connection_section,
  get_guest_customization_section, set_guest_customization_section, get_product_section_list,
  set_product_section_list, update_vm_spec_section, power_on_vm, delete_vm, update_firewall_group,
}
use cluster_api_provider_clo.Api.{
  IdentityRef, TenantCluster, Cluster, Machine, TenantMachine, pos, ObjectMeta,
}
use cluster_api_provider_clo.Base.{
  String, Option, ◌∷◌, some, true, List, str_eq, ℕ, none, [], Bool, false, if◌then◌else◌,
}
use cluster_api_provider_clo.World.{Trace, World}
use cluster_api_provider_clo.World.Types.{
  GoError, VcdClient, Org, Vdc, Named, FirewallGroup, Secret, DiskSettings, VmSpecSection, Vm,
  NetworkConnection, NetworkConnectionSection, IpScope, VAppNetwork, Answer, ok, err,
}
use Prim.Native.Nat.{Ordering}

abbrev pub not_found : GoError
not_found = record { message = "not found" }

abbrev pub broken : GoError
broken = record { message = "broken" }

abbrev pub client : VcdClient
client = record { href = "https://cloud/api"; organization = 3 ∷ []; api_token = 2 ∷ [] }

abbrev pub org : Org
org = record { id = "org" }

abbrev pub vdc : Vdc
vdc = record { id = "vdc" }

abbrev pub broken_vdc : Vdc
broken_vdc = record { id = "broken" }

abbrev pub gateway : Named
gateway = record { id = "gateway-id"; name = "gateway" }

abbrev pub pool : Named
pool = record { id = "pool-id"; name = "pool" }

abbrev pub service : Named
service = record { id = "service-id"; name = "service" }

abbrev pub v_app : Named
v_app = record { id = "v-app-id"; name = "v-app" }

abbrev pub catalog : Named
catalog = record { id = "catalog-id"; name = "catalog" }

abbrev pub group : FirewallGroup
group = record { id = "group-id"; name = "group"; ip_addresses = "10.0.0.2" ∷ [] }

abbrev pub secret : Secret
secret = record {
  entries =
      ("url", 1 ∷ []) ∷ ("apiToken", 2 ∷ []) ∷ ("organization", 3 ∷ []) ∷ ("value", 4 ∷ []) ∷ [];
}

abbrev pub first_disk : DiskSettings
first_disk = record {
  adapter_type = "5";
  bus_number = 0;
  unit_number = 0;
  size_mb = pos 1024;
  thin_provisioned = none;
}

abbrev pub spec_section : VmSpecSection
spec_section = record {
  memory_resource_mb = some (pos 512);
  num_cpus = some (pos 2);
  disk_section = some (record { disk_settings = first_disk ∷ [] });
}

abbrev pub vm : Vm
vm = record { id = "urn:vm"; name = "machine"; vm_spec_section = some spec_section }

abbrev pub connection : NetworkConnection
connection = record {
  network = "network";
  network_connection_index = 0;
  is_connected = true;
  ip_address_allocation_mode = "POOL";
  network_adapter_type = "VMXNET3";
  ip_address = "10.0.0.5";
  mac_address = "00:50:56:00:00:01";
}

abbrev pub section : NetworkConnectionSection
section = record { network_connection = some (connection ∷ []) }

abbrev pub scope : IpScope
scope = record {
  gateway = "10.0.0.1";
  dns1 = "10.0.0.53";
  subnet_prefix_length = "24";
  ip_ranges = some ((record { start_address = "10.0.0.2"; end_address = "10.0.0.9" }) ∷ []);
}

abbrev pub network : VAppNetwork
network = record { ip_scopes = scope ∷ [] }

-- The answers, with the client that the cache holds.
abbrev pub answer_with : VcdClient → Trace → (c : Call) → Answer (Reply c)
answer_with cached t (get_tenant_machine key) = err not_found
answer_with cached t (get_secret key) = ok secret
answer_with cached t (get_owner_cluster meta) = ok none
answer_with cached t (get_filtered_machines_for_cluster cluster) = ok []
answer_with cached t (cache_get sum) = ok cached
answer_with cached t (get_org_by_name c name) = ok org
answer_with cached t (get_vdc_by_name o name refresh) = ok vdc
answer_with cached t (get_firewall_group_by_name v name kind) =
    if str_eq v.id "broken" then err broken else ok group
answer_with cached t (get_alb_pool_by_name c g name) = ok pool
answer_with cached t (get_virtual_service_by_name c g name) = ok service
answer_with cached t (get_virtual_service_by_id c id) = ok (record { id = id; name = "service" })
answer_with cached t (delete_virtual_service x) = ok tt
answer_with cached t (get_v_app_by_name v name refresh) = ok v_app
answer_with cached t (get_v_app_by_id v id refresh) =
    if str_eq id "v-app-id" then ok (record { id = id; name = "v-app" }) else err not_found
answer_with cached t (get_v_app_status x) = ok "POWERED_OFF"
answer_with cached t (delete_v_app x) = ok (record { id = "task" })
answer_with cached t (wait_task_completion task) = ok tt
answer_with cached t (get_catalog_by_name o name refresh) = ok catalog
answer_with cached t (get_vm_by_name x name refresh) = ok vm
answer_with cached t (get_v_app_network x name refresh) = ok network
answer_with cached t (get_network_connection_section x) = ok section
answer_with cached t (get_guest_customization_section x) = ok (record { computer_name = "" })
answer_with cached t (set_guest_customization_section x y) = ok tt
answer_with cached t (get_product_section_list x) = ok (record { property = [] })
answer_with cached t (set_product_section_list x y) = ok tt
answer_with cached t (update_vm_spec_section x y text) = ok tt
answer_with cached t (power_on_vm x) = ok (record { id = "task" })
answer_with cached t (delete_vm x) = ok tt
answer_with cached t (update_firewall_group x) = ok x
answer_with cached t c = err not_found

abbrev add : String → List String → List String × Bool
add finalizer [] = (finalizer ∷ [], true)
add finalizer (f ∷ rest) = (f ∷ rest, false)

abbrev pub world : World
world = record {
  answer = answer_with client;
  now = λ t. 100000000000;
  cache_keys = λ t. 7 ∷ [];
  vcd_token = λ t c. "token";
  contains_not_found = λ e. str_eq e.message "not found";
  is_not_found = λ e. str_eq e.message "not found";
  new_aggregate = λ es. some broken;
  mark_true = λ t cs. cs;
  mark_false = λ t reason severity message cs. cs;
  set_summary = λ ts cs. cs;
  is_true = λ t cs. false;
  ready_condition = "Ready";
  control_plane_initialized_condition = "ControlPlaneInitialized";
  waiting_for_control_plane_available_reason = "WaitingForControlPlaneAvailable";
  firewall_group_type_ip_set = "IP_SET";
  ip_allocation_mode_pool = "POOL";
  machine_internal_ip = "InternalIP";
  add_finalizer = add;
  remove_finalizer = λ f fs. [];
  is_control_plane_machine = λ m. str_eq m.name "control-plane";
  parse_url = λ bytes. ok "https://cloud/api";
  parse_unverified = λ token. ok (some (some (pos 200)));
  replace_request_id = λ text. text;
  encode_bytes = λ bytes. "data";
  encode_text = λ text. text;
  parse_addr = λ text. ok (record { text = text });
  compare_addr = λ a b. Ordering.eq;
}

abbrev pub identity : IdentityRef
identity = record { kind = "Secret"; name = "identity" }

abbrev metadata : Option ℕ → ObjectMeta
metadata deleted = record {
  name = "demo";
  namespace = "default";
  uid = "uid";
  deletion_timestamp = deleted;
  finalizers = "finalizer" ∷ [];
}

abbrev pub cluster_of : Option ℕ → Option IdentityRef → Bool → TenantCluster
cluster_of deleted who made = record {
  metadata = metadata deleted;
  spec = record {
    control_plane_endpoint = record { host = "10.0.0.1"; port = 6443 };
    organization = "org";
    virtual_data_center = "vdc";
    edge_gateway = "gateway";
    network = "network";
    service_engine_group = "engines";
    identity_ref = who;
    use_uid_for_names = false;
  };
  status = record {
    ready = made;
    virtual_service = if made then some (record { id = "service-id"; name = "service" }) else none;
    v_app = if made then some (record { id = "v-app-id"; name = "v-app" }) else none;
    ip_set = if made then some (record { id = "group-id"; name = "group" }) else none;
    pool = if made then some (record { id = "pool-id"; name = "pool" }) else none;
    conditions = [];
  };
}

abbrev pub new_cluster : TenantCluster
new_cluster = cluster_of none (some identity) false

abbrev pub made_cluster : TenantCluster
made_cluster = cluster_of none (some identity) true

abbrev pub deleted_cluster : TenantCluster
deleted_cluster = cluster_of (some 50) (some identity) true

abbrev pub owner_cluster : Cluster
owner_cluster = record {
  name = "demo";
  namespace = "default";
  infrastructure_ref = some "demo";
  control_plane_ref = some "control-plane";
  infrastructure_ready = true;
  conditions = [];
}

abbrev pub worker : Machine
worker = record {
  name = "worker";
  namespace = "default";
  labels = [];
  data_secret_name = some "bootstrap";
}

abbrev pub machine_of : String → Option ℕ → TenantMachine
machine_of provider_id deleted = record {
  metadata = metadata deleted;
  spec = record {
    provider_id = provider_id;
    catalog = "catalog";
    template = "template";
    network_adapter_type = "VMXNET3";
    memory_resource_mib = pos 2048;
    num_cpus = pos 2;
    disk_resource_mib = pos 4096;
    additional_disks = (record { name = "data"; size_mib = pos 100 }) ∷ [];
  };
  status = record { ready = false; addresses = []; conditions = [] };
}

abbrev pub new_machine : TenantMachine
new_machine = machine_of "" none

abbrev pub made_machine : TenantMachine
made_machine = machine_of "vmware-cloud-director://urn:vm" none

abbrev pub deleted_machine : TenantMachine
deleted_machine = machine_of "vmware-cloud-director://urn:vm" (some 50)

abbrev pub session_of : TenantCluster → Session TenantCluster
session_of c = record { object = c; trace = [] }

abbrev pub machine_session : TenantMachine → Session TenantMachine
machine_session m = record { object = m; trace = [] }
