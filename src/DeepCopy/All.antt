-- ===== src/DeepCopy/All.antt =====
-- `DeepCopy` of every type of the API, and what it yields.
use cluster_api_provider_clo.DeepCopy.Exact.{
  Exact-cluster, Exact-cluster_spec, Exact-cluster_status, Exact-machine, Exact-machine_spec,
  Exact-machine_status,
}
use cluster_api_provider_clo.DeepCopy.Lists.{
  reads_nilable, deep_copy-Apart, Exact-list, Exact-template, Exact-template_resource,
  Exact-template_spec,
}
use cluster_api_provider_clo.DeepCopy.Parts.{reads_value, Apart, Exact-value}
use cluster_api_provider_clo.DeepCopy.Reads.{
  DeepCopies, reads_cluster, reads_list, reads_cluster_spec, reads_cluster_status, reads_machine,
  reads_machine_spec, reads_machine_status, reads_template, reads_template_resource,
  reads_template_spec,
}
use cluster_api_provider_clo.DeepCopy.Copy.{
  deep_copy, copy_disk, copy_reference, copy_cluster, copy_cluster_list, copy_cluster_spec,
  copy_cluster_status, copy_identity, copy_machine, copy_machine_list, copy_machine_spec,
  copy_machine_status, copy_template, copy_template_list, copy_template_resource,
  copy_template_spec,
}
use cluster_api_provider_clo.Api.Conditions.{Condition}
use cluster_api_provider_clo.DeepCopy.Objects.{
  Cell, ClusterObject, Items, ClusterSpec, ClusterStatus, MachineObject, MachineSpec, MachineStatus,
  TemplateObject, TemplateResource, TemplateSpec, cluster_arrays, machine_arrays, template_arrays,
}
use cluster_api_provider_clo.Api.{
  AdditionalDisk, CloudDirectorReference, TenantCluster, IdentityRef, ResourceList,
  TenantClusterSpec, TenantClusterStatus, TenantMachine, TenantMachineSpec, TenantMachineStatus,
  MachineTemplate, MachineTemplateResource, MachineTemplateSpec,
}
use cluster_api_provider_clo.Base.{Option}
use cluster_api_provider_clo.DeepCopy.Memory.{Memory, Act, Agree, Reading}

-- The types that have a `DeepCopy`.
pub data Copyable : Type 0 where
  disk cloud_director_reference tenant_cluster tenant_cluster_list cluster_spec cluster_status
        identity_ref tenant_machine tenant_machine_list machine_spec machine_status machine_template
        machine_template_list template_resource template_spec :
      Copyable

-- How a type is laid out in memory, and what it is read as.
abbrev pub Struct : Type 0 → Type 0 → Copyable → Type 0
Struct Meta L disk = AdditionalDisk
Struct Meta L cloud_director_reference = CloudDirectorReference
Struct Meta L tenant_cluster = ClusterObject Meta
Struct Meta L tenant_cluster_list = Items L
Struct Meta L cluster_spec = ClusterSpec
Struct Meta L cluster_status = ClusterStatus
Struct Meta L identity_ref = IdentityRef
Struct Meta L tenant_machine = MachineObject Meta
Struct Meta L tenant_machine_list = Items L
Struct Meta L machine_spec = MachineSpec
Struct Meta L machine_status = MachineStatus
Struct Meta L machine_template = TemplateObject Meta
Struct Meta L machine_template_list = Items L
Struct Meta L template_resource = TemplateResource Meta
Struct Meta L template_spec = TemplateSpec Meta

abbrev pub Value : Copyable → Type 0
Value disk = AdditionalDisk
Value cloud_director_reference = CloudDirectorReference
Value tenant_cluster = TenantCluster
Value tenant_cluster_list = ResourceList TenantCluster
Value cluster_spec = TenantClusterSpec
Value cluster_status = TenantClusterStatus
Value identity_ref = IdentityRef
Value tenant_machine = TenantMachine
Value tenant_machine_list = ResourceList TenantMachine
Value machine_spec = TenantMachineSpec
Value machine_status = TenantMachineStatus
Value machine_template = MachineTemplate
Value machine_template_list = ResourceList MachineTemplate
Value template_resource = MachineTemplateResource
Value template_spec = MachineTemplateSpec

module _ {Meta L X : Type 0} (copy_meta : Meta → Act (Cell Meta X) Meta)
    (copy_condition : Condition → Act (Cell Meta X) Condition)
    (copy_list_meta : L → Act (Cell Meta X) L) where
  abbrev pub deep_copy_disk : Option AdditionalDisk → Act (Cell Meta X) (Option AdditionalDisk)
  deep_copy_disk = deep_copy copy_disk

  abbrev pub deep_copy_cloud_director_reference :
      Option CloudDirectorReference → Act (Cell Meta X) (Option CloudDirectorReference)
  deep_copy_cloud_director_reference = deep_copy copy_reference

  abbrev pub deep_copy_tenant_cluster :
      Option (ClusterObject Meta) → Act (Cell Meta X) (Option (ClusterObject Meta))
  deep_copy_tenant_cluster = deep_copy (copy_cluster copy_meta copy_condition)

  abbrev pub deep_copy_tenant_cluster_list : Option (Items L) → Act (Cell Meta X) (Option (Items L))
  deep_copy_tenant_cluster_list =
      deep_copy (copy_cluster_list copy_meta copy_condition copy_list_meta)

  abbrev pub deep_copy_cluster_spec : Option ClusterSpec → Act (Cell Meta X) (Option ClusterSpec)
  deep_copy_cluster_spec = deep_copy copy_cluster_spec

  abbrev pub deep_copy_cluster_status :
      Option ClusterStatus → Act (Cell Meta X) (Option ClusterStatus)
  deep_copy_cluster_status = deep_copy (copy_cluster_status copy_condition)

  abbrev pub deep_copy_identity_ref : Option IdentityRef → Act (Cell Meta X) (Option IdentityRef)
  deep_copy_identity_ref = deep_copy copy_identity

  abbrev pub deep_copy_tenant_machine :
      Option (MachineObject Meta) → Act (Cell Meta X) (Option (MachineObject Meta))
  deep_copy_tenant_machine = deep_copy (copy_machine copy_meta copy_condition)

  abbrev pub deep_copy_tenant_machine_list : Option (Items L) → Act (Cell Meta X) (Option (Items L))
  deep_copy_tenant_machine_list =
      deep_copy (copy_machine_list copy_meta copy_condition copy_list_meta)

  abbrev pub deep_copy_machine_spec : Option MachineSpec → Act (Cell Meta X) (Option MachineSpec)
  deep_copy_machine_spec = deep_copy copy_machine_spec

  abbrev pub deep_copy_machine_status :
      Option MachineStatus → Act (Cell Meta X) (Option MachineStatus)
  deep_copy_machine_status = deep_copy (copy_machine_status copy_condition)

  abbrev pub deep_copy_machine_template :
      Option (TemplateObject Meta) → Act (Cell Meta X) (Option (TemplateObject Meta))
  deep_copy_machine_template = deep_copy (copy_template copy_meta)

  abbrev pub deep_copy_machine_template_list :
      Option (Items L) → Act (Cell Meta X) (Option (Items L))
  deep_copy_machine_template_list = deep_copy (copy_template_list copy_meta copy_list_meta)

  abbrev pub deep_copy_template_resource :
      Option (TemplateResource Meta) → Act (Cell Meta X) (Option (TemplateResource Meta))
  deep_copy_template_resource = deep_copy (copy_template_resource copy_meta)

  abbrev pub deep_copy_template_spec :
      Option (TemplateSpec Meta) → Act (Cell Meta X) (Option (TemplateSpec Meta))
  deep_copy_template_spec = deep_copy (copy_template_spec copy_meta)

  abbrev pub deep_copy_of :
      (k : Copyable) → Option (Struct Meta L k) → Act (Cell Meta X) (Option (Struct Meta L k))
  deep_copy_of disk = deep_copy_disk
  deep_copy_of cloud_director_reference = deep_copy_cloud_director_reference
  deep_copy_of tenant_cluster = deep_copy_tenant_cluster
  deep_copy_of tenant_cluster_list = deep_copy_tenant_cluster_list
  deep_copy_of cluster_spec = deep_copy_cluster_spec
  deep_copy_of cluster_status = deep_copy_cluster_status
  deep_copy_of identity_ref = deep_copy_identity_ref
  deep_copy_of tenant_machine = deep_copy_tenant_machine
  deep_copy_of tenant_machine_list = deep_copy_tenant_machine_list
  deep_copy_of machine_spec = deep_copy_machine_spec
  deep_copy_of machine_status = deep_copy_machine_status
  deep_copy_of machine_template = deep_copy_machine_template
  deep_copy_of machine_template_list = deep_copy_machine_template_list
  deep_copy_of template_resource = deep_copy_template_resource
  deep_copy_of template_spec = deep_copy_template_spec

module _ {Meta L X : Type 0} {copy_meta : Meta → Act (Cell Meta X) Meta}
    {copy_list_meta : L → Act (Cell Meta X) L}
    {copy_condition : Condition → Act (Cell Meta X) Condition}
    (library : DeepCopies copy_meta copy_list_meta copy_condition) where
  abbrev pub reads_of : (k : Copyable) → Reading (Cell Meta X) (Struct Meta L k) (Value k)
  reads_of disk = reads_value
  reads_of cloud_director_reference = reads_value
  reads_of tenant_cluster = reads_cluster library
  reads_of tenant_cluster_list = reads_list library cluster_arrays (reads_cluster library)
  reads_of cluster_spec = reads_cluster_spec library
  reads_of cluster_status = reads_cluster_status library
  reads_of identity_ref = reads_value
  reads_of tenant_machine = reads_machine library
  reads_of tenant_machine_list = reads_list library machine_arrays (reads_machine library)
  reads_of machine_spec = reads_machine_spec library
  reads_of machine_status = reads_machine_status library
  reads_of machine_template = reads_template library
  reads_of machine_template_list = reads_list library template_arrays (reads_template library)
  reads_of template_resource = reads_template_resource library
  reads_of template_spec = reads_template_spec library

  Apart-of :
      (k : Copyable)
      → Apart (reads_nilable (reads_of k)) (deep_copy_of copy_meta copy_condition copy_list_meta k)
  unfolding copy_cluster_list copy_machine_list copy_template_list
  Apart-of disk = deep_copy-Apart Exact-value
  Apart-of cloud_director_reference = deep_copy-Apart Exact-value
  Apart-of tenant_cluster = deep_copy-Apart (Exact-cluster library)
  Apart-of tenant_cluster_list =
      deep_copy-Apart (Exact-list library cluster_arrays (Exact-cluster library))
  Apart-of cluster_spec = deep_copy-Apart (Exact-cluster_spec library)
  Apart-of cluster_status = deep_copy-Apart (Exact-cluster_status library)
  Apart-of identity_ref = deep_copy-Apart Exact-value
  Apart-of tenant_machine = deep_copy-Apart (Exact-machine library)
  Apart-of tenant_machine_list =
      deep_copy-Apart (Exact-list library machine_arrays (Exact-machine library))
  Apart-of machine_spec = deep_copy-Apart (Exact-machine_spec library)
  Apart-of machine_status = deep_copy-Apart (Exact-machine_status library)
  Apart-of machine_template = deep_copy-Apart (Exact-template library)
  Apart-of machine_template_list =
      deep_copy-Apart (Exact-list library template_arrays (Exact-template library))
  Apart-of template_resource = deep_copy-Apart (Exact-template_resource library)
  Apart-of template_spec = deep_copy-Apart (Exact-template_spec library)

  -- If the libraries' copies of metadata and conditions are deep, so is the copy of a value of any
  -- type of the API: it reads as the same value, in memory that was free; the original reads as
  -- before in any memory that keeps the old addresses, whatever is written into the copy, and the
  -- copy in any memory that keeps its own, whatever is written into the original. A nil pointer has
  -- a nil copy.
  pub deep_copy-reads :
      (k : Copyable) (s : Option (Struct Meta L k)) (a : Option (Value k))
      (h h1 h2 : Memory (Cell Meta X))
      → reads_nilable (reads_of k) 0 h.next h s a
      → let (s', h') = deep_copy_of copy_meta copy_condition copy_list_meta k s h in
        Agree 0 h.next h' h1
        → Agree h.next h'.next h' h2
        → reads_nilable (reads_of k) h.next h'.next h' s' a
          × (reads_nilable (reads_of k) 0 h.next h1 s a
              × reads_nilable (reads_of k) h.next h'.next h2 s' a)
  deep_copy-reads k s a h h1 h2 r e1 e2 =
      let (same, apart) = Apart-of k s a h r in (same, ((apart h1).0 e1, (apart h2).1 e2))
