-- ===== src/Machine/Equipped.antt =====
-- A world in which a machine's virtual machine is there and every request about it is granted.
use cluster_api_provider_clo.ClientCache.Reachable.{IsReachable}
use cluster_api_provider_clo.CloudInit.{execute_cloud_init_template}
use cluster_api_provider_clo.Machine.Vm.{settings_of}
use cluster_api_provider_clo.Flow.Steady.{IsOk}
use cluster_api_provider_clo.ClientCache.{data_of}
use cluster_api_provider_clo.World.Calls.{
  get_secret, get_catalog_by_name, get_vm_by_name, get_v_app_network,
  get_network_connection_section, get_guest_customization_section, set_guest_customization_section,
  get_product_section_list, set_product_section_list, update_vm_spec_section, power_on_vm,
  wait_task_completion, get_tenant_cluster, get_org_by_name, get_vdc_by_name, get_v_app_by_id,
}
use cluster_api_provider_clo.World.Types.{
  Secret, ok, Org, Vm, Named, VmSpecSection, DiskSettings, VAppNetwork, NetworkConnectionSection,
  GuestCustomizationSection, ProductSectionList, Task, VcdClient, Vdc,
}
use cluster_api_provider_clo.Base.{String, ◌≡◌, some, List, ℕ, Bool, ◌∷◌, false, true}
use cluster_api_provider_clo.Api.{Machine, ℤ, Cluster, TenantCluster, CloudDirectorReference}
use cluster_api_provider_clo.World.{World, Trace}

-- The virtual machine is found under the machine's name, perhaps not configured yet.
pub record Equips (W : World) (owner : Machine) : Type 0 where
  pub secret_name : String
  pub secret_named : owner.data_secret_name ≡ some secret_name
  pub secret : Secret
  pub value : List ℕ
  pub read :
      (t : Trace)
      → W.answer t (get_secret (record { name = secret_name; namespace = owner.namespace }))
        ≡ ok secret
  pub held : data_of "value" secret.entries ≡ some value
  pub catalog :
      (org : Org) (name : String) (refresh : Bool) (t : Trace)
      → IsOk (W.answer t (get_catalog_by_name org name refresh))
  pub vm : Vm
  pub found :
      (v_app : Named) (name : String) (refresh : Bool) (t : Trace)
      → W.answer t (get_vm_by_name v_app name refresh) ≡ ok vm
  -- what the sizing reads of it
  pub section : VmSpecSection
  pub has_section : vm.vm_spec_section ≡ some section
  pub memory : ℤ
  pub has_memory : section.memory_resource_mb ≡ some memory
  pub cpus : ℤ
  pub has_cpus : section.num_cpus ≡ some cpus
  pub first_disk : DiskSettings
  pub other_disks : List DiskSettings
  pub has_disks : settings_of section.disk_section ≡ first_disk ∷ other_disks
  -- what the metadata is made from
  pub network : VAppNetwork
  pub networked :
      (v_app : Named) (name : String) (refresh : Bool) (t : Trace)
      → W.answer t (get_v_app_network v_app name refresh) ≡ ok network
  pub connections : NetworkConnectionSection
  pub connected : (t : Trace) → W.answer t (get_network_connection_section vm) ≡ ok connections
  pub rendered : IsOk (execute_cloud_init_template W vm network connections)
  -- the rest is granted
  pub customization : (t : Trace) → IsOk (W.answer t (get_guest_customization_section vm))
  pub customized :
      (section : GuestCustomizationSection) (t : Trace)
      → IsOk (W.answer t (set_guest_customization_section vm section))
  pub properties : (t : Trace) → IsOk (W.answer t (get_product_section_list vm))
  pub set_properties :
      (list : ProductSectionList) (t : Trace) → IsOk (W.answer t (set_product_section_list vm list))
  pub sized :
      (section : VmSpecSection) (text : String) (t : Trace)
      → IsOk (W.answer t (update_vm_spec_section vm section text))
  pub powered : (t : Trace) → IsOk (W.answer t (power_on_vm vm))
  pub waited : (task : Task) (t : Trace) → IsOk (W.answer t (wait_task_completion task))

-- The cluster of the worker is there: its infrastructure is ready, its control plane initialized,
-- and its organization, data center and vApp are found.
pub record Hosts (W : World) (owner : Machine) (owner_cluster : Cluster) : Type 0 where
  pub worker : W.is_control_plane_machine owner ≡ false
  pub infrastructure : owner_cluster.infrastructure_ready ≡ true
  pub initialized : W.is_true W.control_plane_initialized_condition owner_cluster.conditions ≡ true
  pub name : String
  pub named : owner_cluster.infrastructure_ref ≡ some name
  pub cluster : TenantCluster
  pub fetched :
      (t : Trace)
      → W.answer t
          (get_tenant_cluster (record { name = name; namespace = owner_cluster.namespace }))
        ≡ ok cluster
  pub reachable : IsReachable W cluster
  pub org :
      (client : VcdClient) (name : String) (t : Trace)
      → IsOk (W.answer t (get_org_by_name client name))
  pub vdc :
      (org : Org) (name : String) (refresh : Bool) (t : Trace)
      → IsOk (W.answer t (get_vdc_by_name org name refresh))
  pub ref : CloudDirectorReference
  pub recorded : cluster.status.v_app ≡ some ref
  pub v_app :
      (vdc : Vdc) (id : String) (refresh : Bool) (t : Trace)
      → IsOk (W.answer t (get_v_app_by_id vdc id refresh))
