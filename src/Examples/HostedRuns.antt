-- ===== src/Examples/HostedRuns.antt =====
-- A run of the machine controller for a worker that an earlier run has left unfinished.
use cluster_api_provider_clo.Machine.Build.{WasPowered}
use cluster_api_provider_clo.Machine.LoadBalancer.Members.{Updated, leave_members}
use cluster_api_provider_clo.Machine.LoadBalancer.{leave_load_balancer, contains, add_member}
use cluster_api_provider_clo.Machine.Delete.Granted.{Frees, reconcile_delete_drops}
use cluster_api_provider_clo.Machine.Delete.{reconcile_delete}
use cluster_api_provider_clo.Machine.Object.{without_finalizer, internal_ip_address}
use cluster_api_provider_clo.Api.{pos, TenantMachine}
use cluster_api_provider_clo.Machine.Completed.{reconcile_object_completes}
use cluster_api_provider_clo.Flow.{◌>>=◌, next, done, perform, Session}
use cluster_api_provider_clo.CloudInit.Text.{render_ethernet, render_head}
use cluster_api_provider_clo.Base.{true, ◌≡◌, ◌∷◌, [], refl, inl, List, String, false, str_eq, ◌<>◌}
use cluster_api_provider_clo.World.Types.{Answer, ok, FirewallGroup}
use cluster_api_provider_clo.Machine.Equipped.{Hosts, Equips}
use cluster_api_provider_clo.World.Calls.{
  Call, Reply, get_tenant_cluster, set_api_token, get_v_app_by_id, get_firewall_group_by_id,
}
use cluster_api_provider_clo.Examples.Data.{
  worker, world, owner_cluster, made_cluster, machine_session, identity, new_machine, secret, v_app,
  vm, answer_with, spec_section, client, first_disk, network, section, deleted_machine, group,
  made_machine, vdc,
}
use cluster_api_provider_clo.ClientCache.{read_credentials}
use cluster_api_provider_clo.CloudInit.{
  execute_cloud_init_template, find_ethernets, scan_scopes, scan_ranges, render_ethernets,
}
use cluster_api_provider_clo.World.{Trace, World}
use cluster_api_provider_clo.Machine.Reconcile.{reconcile_object}

-- The cluster has its vApp, and the virtual machine is found.
abbrev hosting_answer : Trace → (c : Call) → Answer (Reply c)
hosting_answer t (get_tenant_cluster key) = ok made_cluster
hosting_answer t (set_api_token c organization token) = ok "token"
hosting_answer t (get_v_app_by_id v id refresh) = ok v_app
hosting_answer t c = answer_with client t c

abbrev hosting : World
hosting = record world { answer = hosting_answer; is_true = λ t cs. true }

equips : Equips hosting worker
unfolding execute_cloud_init_template find_ethernets scan_scopes scan_ranges render_ethernets
    render_ethernet render_head
equips = record {
  secret_name = "bootstrap";
  secret_named = refl;
  secret = secret;
  value = 4 ∷ [];
  read = λ t. refl;
  held = refl;
  catalog = λ org name refresh t. (_, refl);
  vm = vm;
  found = λ v_app name refresh t. refl;
  section = spec_section;
  has_section = refl;
  memory = pos 512;
  has_memory = refl;
  cpus = pos 2;
  has_cpus = refl;
  first_disk = first_disk;
  other_disks = [];
  has_disks = refl;
  network = network;
  networked = λ v_app name refresh t. refl;
  connections = section;
  connected = λ t. refl;
  rendered = (_, refl);
  customization = λ t. (_, refl);
  customized = λ x t. (_, refl);
  properties = λ t. (_, refl);
  set_properties = λ list t. (_, refl);
  sized = λ x text t. (_, refl);
  powered = λ t. (_, refl);
  waited = λ task t. (_, refl);
}

hosts : Hosts hosting worker owner_cluster
unfolding read_credentials
hosts = record {
  worker = refl;
  infrastructure = refl;
  initialized = refl;
  name = "demo";
  named = refl;
  cluster = made_cluster;
  fetched = λ t. refl;
  reachable = record {
    identity = identity;
    identity_ref = refl;
    secret = secret;
    read = λ t. refl;
    credentials = record {
      endpoint = 1 ∷ [];
      href = "https://cloud/api";
      api_token = 2 ∷ [];
      organization = 3 ∷ [];
    };
    complete = refl;
    token = "token";
    login = λ t. refl;
    expiration = pos 200;
    dated = refl;
  };
  org = λ client name t. (_, refl);
  vdc = λ org name refresh t. (_, refl);
  ref = record { id = "v-app-id"; name = "v-app" };
  recorded = refl;
  v_app = λ vdc id refresh t. (_, refl);
}

reconcile_object_completes_example :
    let t = (reconcile_object hosting worker owner_cluster (machine_session new_machine)).1 in
    ((reconcile_object hosting worker owner_cluster (machine_session new_machine)).0 ≡ next done)
    × (t.object.status.ready ≡ true)
    × (str_eq "" "" ≡ true
        → (t.object.spec.provider_id ≡ "vmware-cloud-director://" <> equips.vm.id)
          × WasPowered equips.vm t.trace)
reconcile_object_completes_example =
    reconcile_object_completes hosting worker owner_cluster (machine_session new_machine) equips
      hosts refl refl

-- The firewall group of the cluster is found by its identifier too.
abbrev freeing_answer : Trace → (c : Call) → Answer (Reply c)
freeing_answer t (get_firewall_group_by_id v id) = ok group
freeing_answer t c = hosting_answer t c

abbrev freeing : World
freeing = record world { answer = freeing_answer }

frees : Frees freeing owner_cluster
unfolding read_credentials
frees = record {
  name = "demo";
  named = refl;
  cluster = made_cluster;
  fetched = λ t. refl;
  reachable = record {
    identity = identity;
    identity_ref = refl;
    secret = secret;
    read = λ t. refl;
    credentials = record {
      endpoint = 1 ∷ [];
      href = "https://cloud/api";
      api_token = 2 ∷ [];
      organization = 3 ∷ [];
    };
    complete = refl;
    token = "token";
    login = λ t. refl;
    expiration = pos 200;
    dated = refl;
  };
  org = λ client name t. (_, refl);
  vdc = λ org name refresh t. (_, refl);
  members = record { id = "group-id"; name = "group" };
  recorded = refl;
  group = λ vdc id t. (_, refl);
  updated = λ group t. (_, refl);
  v_app = λ vdc id refresh t. (_, refl);
  vm = λ v_app name refresh t. inl (_, refl);
  deleted = λ vm t. (_, refl);
}

reconcile_delete_drops_example :
    ((reconcile_delete freeing worker owner_cluster (machine_session deleted_machine)).0
      ≡ next done)
    × ((reconcile_delete freeing worker owner_cluster (machine_session deleted_machine)).1.object
        ≡ without_finalizer freeing deleted_machine)
reconcile_delete_drops_example =
    reconcile_delete_drops freeing worker owner_cluster (machine_session deleted_machine) frees

-- A control plane machine with its address.
abbrev addressed : TenantMachine
addressed = record made_machine {
  status = record made_machine.status {
    addresses = (record { type = "InternalIP"; address = "10.0.0.2" }) ∷ [];
  };
}

leave_load_balancer_run :
    (leave_load_balancer freeing made_cluster vdc (machine_session addressed)).0 ≡ next tt
unfolding leave_load_balancer perform internal_ip_address ◌>>=◌
leave_load_balancer_run = refl

leave_members_example :
    let address = internal_ip_address freeing "" addressed.status.addresses in
    (members : List String) × Updated group members
      (leave_load_balancer freeing made_cluster vdc (machine_session addressed)).1.trace
    × (contains address members ≡ false)
    × ((other : String)
        → str_eq address other ≡ false
        → contains other members ≡ contains other group.ip_addresses)
    × ((before : FirewallGroup) (u : Session TenantMachine)
        → contains address before.ip_addresses ≡ false
        → (add_member freeing before address u).0 ≡ next tt
        → Updated before group.ip_addresses (add_member freeing before address u).1.trace
        → members ≡ before.ip_addresses)
unfolding internal_ip_address
leave_members_example =
    leave_members freeing made_cluster vdc (machine_session addressed)
      (record { id = "group-id"; name = "group" }) group refl refl refl leave_load_balancer_run
