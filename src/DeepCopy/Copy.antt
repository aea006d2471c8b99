-- ===== src/DeepCopy/Copy.antt =====
-- `DeepCopyInto` and `DeepCopy` of each type.
use cluster_api_provider_clo.Api.{AdditionalDisk, CloudDirectorReference, IdentityRef}
use cluster_api_provider_clo.Api.Conditions.{Condition}
use cluster_api_provider_clo.Base.{Option, some, none}
use cluster_api_provider_clo.DeepCopy.Memory.{Act, ◌>>=◌, give}
use cluster_api_provider_clo.DeepCopy.Objects.{
  ClusterSpec, ClusterStatus, ClusterObject, MachineSpec, MachineStatus, MachineObject,
  TemplateResource, TemplateSpec, TemplateObject, Items, Cell, condition_arrays, address_arrays,
  disk_arrays, cluster_arrays, machine_arrays, template_arrays,
}
use cluster_api_provider_clo.DeepCopy.Parts.{copy_pointer}
use cluster_api_provider_clo.DeepCopy.Slices.{copy_slice}

-- `DeepCopyInto`, with those of the libraries for the metadata and the conditions.
module _ {Meta X : Type 0} where
  -- `*out = *in`
  abbrev pub copy_disk : AdditionalDisk → Act (Cell Meta X) AdditionalDisk
  copy_disk = give

  abbrev pub copy_reference : CloudDirectorReference → Act (Cell Meta X) CloudDirectorReference
  copy_reference = give

  abbrev pub copy_identity : IdentityRef → Act (Cell Meta X) IdentityRef
  copy_identity = give

  unfoldable pub copy_cluster_spec : ClusterSpec → Act (Cell Meta X) ClusterSpec
  copy_cluster_spec s = do
    identity_ref ← copy_pointer s.identity_ref
    give (record s { identity_ref = identity_ref })

  unfoldable pub copy_machine_spec : MachineSpec → Act (Cell Meta X) MachineSpec
  copy_machine_spec s = do
    additional_disks ← copy_slice disk_arrays give s.additional_disks
    give (record s { additional_disks = additional_disks })

module _ {Meta X : Type 0} (copy_condition : Condition → Act (Cell Meta X) Condition) where
  unfoldable pub copy_cluster_status : ClusterStatus → Act (Cell Meta X) ClusterStatus
  copy_cluster_status s = do
    virtual_service ← copy_pointer s.virtual_service
    v_app ← copy_pointer s.v_app
    ip_set ← copy_pointer s.ip_set
    pool ← copy_pointer s.pool
    cs ← copy_slice condition_arrays copy_condition s.conditions
    give (record s {
      virtual_service = virtual_service;
      v_app = v_app;
      ip_set = ip_set;
      pool = pool;
      conditions = cs;
    })

  unfoldable pub copy_machine_status : MachineStatus → Act (Cell Meta X) MachineStatus
  copy_machine_status s = do
    xs ← copy_slice address_arrays give s.addresses
    cs ← copy_slice condition_arrays copy_condition s.conditions
    give (record s { addresses = xs; conditions = cs })

module _ {Meta X : Type 0} (copy_meta : Meta → Act (Cell Meta X) Meta) where
  unfoldable pub copy_template_resource :
      TemplateResource Meta → Act (Cell Meta X) (TemplateResource Meta)
  copy_template_resource r = do
    metadata ← copy_meta r.metadata
    spec ← copy_machine_spec r.spec
    give (record { metadata = metadata; spec = spec })

  unfoldable pub copy_template_spec : TemplateSpec Meta → Act (Cell Meta X) (TemplateSpec Meta)
  copy_template_spec s = do
    template ← copy_template_resource s.template
    give (record { template = template })

  unfoldable pub copy_template : TemplateObject Meta → Act (Cell Meta X) (TemplateObject Meta)
  copy_template t = do
    metadata ← copy_meta t.metadata
    spec ← copy_template_spec t.spec
    give (record { metadata = metadata; spec = spec })

module _ {Meta X : Type 0} (copy_meta : Meta → Act (Cell Meta X) Meta)
    (copy_condition : Condition → Act (Cell Meta X) Condition) where
  unfoldable pub copy_cluster : ClusterObject Meta → Act (Cell Meta X) (ClusterObject Meta)
  copy_cluster c = do
    metadata ← copy_meta c.metadata
    spec ← copy_cluster_spec c.spec
    status ← copy_cluster_status copy_condition c.status
    give (record { metadata = metadata; spec = spec; status = status })

  unfoldable pub copy_machine : MachineObject Meta → Act (Cell Meta X) (MachineObject Meta)
  copy_machine m = do
    metadata ← copy_meta m.metadata
    spec ← copy_machine_spec m.spec
    status ← copy_machine_status copy_condition m.status
    give (record { metadata = metadata; spec = spec; status = status })

module _ {Meta L X : Type 0} (copy_meta : Meta → Act (Cell Meta X) Meta)
    (copy_condition : Condition → Act (Cell Meta X) Condition)
    (copy_list_meta : L → Act (Cell Meta X) L) where
  unfoldable pub copy_cluster_list : Items L → Act (Cell Meta X) (Items L)
  copy_cluster_list xs = do
    metadata ← copy_list_meta xs.metadata
    items ← copy_slice cluster_arrays (copy_cluster copy_meta copy_condition) xs.items
    give (record { metadata = metadata; items = items })

  unfoldable pub copy_machine_list : Items L → Act (Cell Meta X) (Items L)
  copy_machine_list xs = do
    metadata ← copy_list_meta xs.metadata
    items ← copy_slice machine_arrays (copy_machine copy_meta copy_condition) xs.items
    give (record { metadata = metadata; items = items })

module _ {Meta L X : Type 0} (copy_meta : Meta → Act (Cell Meta X) Meta)
    (copy_list_meta : L → Act (Cell Meta X) L) where
  unfoldable pub copy_template_list : Items L → Act (Cell Meta X) (Items L)
  copy_template_list xs = do
    metadata ← copy_list_meta xs.metadata
    items ← copy_slice template_arrays (copy_template copy_meta) xs.items
    give (record { metadata = metadata; items = items })

-- `DeepCopy`: a nil receiver has a nil copy.
unfoldable pub deep_copy : {C S : Type 0} → (S → Act C S) → Option S → Act C (Option S)
deep_copy copy none = give none
deep_copy copy (some s) = do s' ← copy s; give (some s')

-- `DeepCopyObject` makes an object of what `DeepCopy` returns, if that is not nil.
unfoldable pub deep_copy_object : {C S : Type 0} → (S → Act C S) → Option S → Act C (Option S)
deep_copy_object copy s = do
  c ← deep_copy copy s
  elim c [ none ↦ give none | some c' ↦ give (some c') ]
