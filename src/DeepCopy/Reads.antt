-- ===== src/DeepCopy/Reads.antt =====
-- How the resources in memory are read, as the resources of Api.

use cluster_api_provider_clo.Api.{
  ObjectMeta, TenantClusterSpec, TenantClusterStatus, TenantCluster, TenantMachineSpec,
  TenantMachineStatus, TenantMachine, MachineTemplateResource, MachineTemplateSpec, MachineTemplate,
  ListMeta, ResourceList,
}
use cluster_api_provider_clo.Base.{◌≡◌}
use cluster_api_provider_clo.DeepCopy.Memory.{Reading, Act, Framed, Copies}
use cluster_api_provider_clo.DeepCopy.Objects.{
  ClusterSpec, ClusterStatus, ClusterObject, MachineSpec, MachineStatus, MachineObject,
  TemplateResource, TemplateSpec, TemplateObject, Items, Cell, reference, identity,
  condition_arrays, address_arrays, disk_arrays,
}
use cluster_api_provider_clo.DeepCopy.Parts.{reads_pointer, reads_value}
use cluster_api_provider_clo.DeepCopy.Slices.{reads_slice, Arrays}
use cluster_api_provider_clo.Api.Conditions.{Condition}

-- What the libraries promise for the metadata and the conditions: deep copies.
pub record DeepCopies {Meta L X : Type 0} (copy_meta : Meta → Act (Cell Meta X) Meta)
    (copy_list_meta : L → Act (Cell Meta X) L)
    (copy_condition : Condition → Act (Cell Meta X) Condition) : Type 1 where
  pub reads_meta : Reading (Cell Meta X) Meta ObjectMeta
  pub reads_list_meta : Reading (Cell Meta X) L ListMeta
  pub meta : Copies reads_meta copy_meta
  pub meta_framed : Framed reads_meta
  pub list_meta : Copies reads_list_meta copy_list_meta
  pub list_meta_framed : Framed reads_list_meta
  pub condition : Copies reads_value copy_condition

module _ {Meta L X : Type 0} {copy_meta : Meta → Act (Cell Meta X) Meta}
    {copy_list_meta : L → Act (Cell Meta X) L}
    {copy_condition : Condition → Act (Cell Meta X) Condition}
    (library : DeepCopies copy_meta copy_list_meta copy_condition) where
  abbrev pub reads_cluster_spec : Reading (Cell Meta X) ClusterSpec TenantClusterSpec
  reads_cluster_spec lo hi h s a =
      (s.control_plane_endpoint ≡ a.control_plane_endpoint)
      × (s.organization ≡ a.organization)
      × (s.virtual_data_center ≡ a.virtual_data_center)
      × (s.edge_gateway ≡ a.edge_gateway)
      × (s.network ≡ a.network)
      × (s.service_engine_group ≡ a.service_engine_group)
      × (s.use_uid_for_names ≡ a.use_uid_for_names)
      × reads_pointer identity lo hi h s.identity_ref a.identity_ref

  abbrev pub reads_cluster_status : Reading (Cell Meta X) ClusterStatus TenantClusterStatus
  reads_cluster_status lo hi h s a =
      (s.ready ≡ a.ready)
      × (reads_pointer reference lo hi h s.virtual_service a.virtual_service
          × (reads_pointer reference lo hi h s.v_app a.v_app
              × (reads_pointer reference lo hi h s.ip_set a.ip_set
                  × (reads_pointer reference lo hi h s.pool a.pool
                      × reads_slice condition_arrays reads_value lo hi h s.conditions
                          a.conditions))))

  abbrev pub reads_cluster : Reading (Cell Meta X) (ClusterObject Meta) TenantCluster
  reads_cluster lo hi h c a =
      library.reads_meta lo hi h c.metadata a.metadata
      × (reads_cluster_spec lo hi h c.spec a.spec × reads_cluster_status lo hi h c.status a.status)

  abbrev pub reads_machine_spec : Reading (Cell Meta X) MachineSpec TenantMachineSpec
  reads_machine_spec lo hi h s a =
      (s.provider_id ≡ a.provider_id)
      × (s.catalog ≡ a.catalog)
      × (s.template ≡ a.template)
      × (s.network_adapter_type ≡ a.network_adapter_type)
      × (s.memory_resource_mib ≡ a.memory_resource_mib)
      × (s.num_cpus ≡ a.num_cpus)
      × (s.disk_resource_mib ≡ a.disk_resource_mib)
      × reads_slice disk_arrays reads_value lo hi h s.additional_disks a.additional_disks

  abbrev pub reads_machine_status : Reading (Cell Meta X) MachineStatus TenantMachineStatus
  reads_machine_status lo hi h s a =
      (s.ready ≡ a.ready)
      × (reads_slice address_arrays reads_value lo hi h s.addresses a.addresses
          × reads_slice condition_arrays reads_value lo hi h s.conditions a.conditions)

  abbrev pub reads_machine : Reading (Cell Meta X) (MachineObject Meta) TenantMachine
  reads_machine lo hi h m a =
      library.reads_meta lo hi h m.metadata a.metadata
      × (reads_machine_spec lo hi h m.spec a.spec × reads_machine_status lo hi h m.status a.status)

  abbrev pub reads_template_resource :
      Reading (Cell Meta X) (TemplateResource Meta) MachineTemplateResource
  reads_template_resource lo hi h r a =
      library.reads_meta lo hi h r.metadata a.metadata × reads_machine_spec lo hi h r.spec a.spec

  abbrev pub reads_template_spec : Reading (Cell Meta X) (TemplateSpec Meta) MachineTemplateSpec
  reads_template_spec lo hi h s a = reads_template_resource lo hi h s.template a.template

  abbrev pub reads_template : Reading (Cell Meta X) (TemplateObject Meta) MachineTemplate
  reads_template lo hi h t a =
      library.reads_meta lo hi h t.metadata a.metadata × reads_template_spec lo hi h t.spec a.spec

  -- A list of resources, by the reading of each.
  abbrev pub reads_list :
      {S A : Type 0}
      → Arrays (Cell Meta X) S
      → Reading (Cell Meta X) S A
      → Reading (Cell Meta X) (Items L) (ResourceList A)
  reads_list arrays reads lo hi h s a =
      library.reads_list_meta lo hi h s.metadata a.metadata
      × reads_slice arrays reads lo hi h s.items a.items
