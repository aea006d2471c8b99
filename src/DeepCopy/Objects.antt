-- ===== src/DeepCopy/Objects.antt =====
-- The resources in memory: a pointer and a slice are addresses, and `none` is nil. Type metadata is
-- left out. `Meta` and `L` are the metadata of an object and of a list.
use cluster_api_provider_clo.Api.{
  ℤ, ApiEndpoint, IdentityRef, CloudDirectorReference, AdditionalDisk, MachineAddress,
}
use cluster_api_provider_clo.Api.Conditions.{Condition}
use cluster_api_provider_clo.Base.{ℕ, Bool, Option, String, List, [], refl}
use cluster_api_provider_clo.DeepCopy.Slices.{Arrays}

pub record ClusterSpec : Type 0 where
  pub control_plane_endpoint : ApiEndpoint
  pub organization : String
  pub virtual_data_center : String
  pub edge_gateway : String
  pub network : String
  pub service_engine_group : String
  pub identity_ref : Option ℕ
  pub use_uid_for_names : Bool

pub record ClusterStatus : Type 0 where
  pub ready : Bool
  pub virtual_service : Option ℕ
  pub v_app : Option ℕ
  pub ip_set : Option ℕ
  pub pool : Option ℕ
  pub conditions : Option ℕ

pub record ClusterObject (Meta : Type 0) : Type 0 where
  pub metadata : Meta
  pub spec : ClusterSpec
  pub status : ClusterStatus

pub record MachineSpec : Type 0 where
  pub provider_id : String
  pub catalog : String
  pub template : String
  pub network_adapter_type : String
  pub memory_resource_mib : ℤ
  pub num_cpus : ℤ
  pub disk_resource_mib : ℤ
  pub additional_disks : Option ℕ

pub record MachineStatus : Type 0 where
  pub ready : Bool
  pub addresses : Option ℕ
  pub conditions : Option ℕ

pub record MachineObject (Meta : Type 0) : Type 0 where
  pub metadata : Meta
  pub spec : MachineSpec
  pub status : MachineStatus

pub record TemplateResource (Meta : Type 0) : Type 0 where
  pub metadata : Meta
  pub spec : MachineSpec

pub record TemplateSpec (Meta : Type 0) : Type 0 where
  pub template : TemplateResource Meta

pub record TemplateObject (Meta : Type 0) : Type 0 where
  pub metadata : Meta
  pub spec : TemplateSpec Meta

-- A list of resources.
pub record Items (L : Type 0) : Type 0 where
  pub metadata : L
  pub items : Option ℕ

-- The content of an address. `X` is what the metadata points to.
pub data Cell (Meta X : Type 0) : Type 0 where
  reference : CloudDirectorReference → Cell Meta X
  identity : IdentityRef → Cell Meta X
  conditions : List Condition → Cell Meta X
  addresses : List MachineAddress → Cell Meta X
  disks : List AdditionalDisk → Cell Meta X
  clusters : List (ClusterObject Meta) → Cell Meta X
  machines : List (MachineObject Meta) → Cell Meta X
  templates : List (TemplateObject Meta) → Cell Meta X
  other : X → Cell Meta X

module _ {Meta X : Type 0} where
  abbrev pub condition_arrays : Arrays (Cell Meta X) Condition
  condition_arrays = record {
    array = conditions;
    items = λ c. elim c [ conditions cs ↦ cs | _ ↦ [] ];
    items-array = λ cs. refl;
  }

  abbrev pub address_arrays : Arrays (Cell Meta X) MachineAddress
  address_arrays = record {
    array = addresses;
    items = λ c. elim c [ addresses xs ↦ xs | _ ↦ [] ];
    items-array = λ xs. refl;
  }

  abbrev pub disk_arrays : Arrays (Cell Meta X) AdditionalDisk
  disk_arrays = record {
    array = disks;
    items = λ c. elim c [ disks xs ↦ xs | _ ↦ [] ];
    items-array = λ xs. refl;
  }

  abbrev pub cluster_arrays : Arrays (Cell Meta X) (ClusterObject Meta)
  cluster_arrays = record {
    array = clusters;
    items = λ c. elim c [ clusters xs ↦ xs | _ ↦ [] ];
    items-array = λ xs. refl;
  }

  abbrev pub machine_arrays : Arrays (Cell Meta X) (MachineObject Meta)
  machine_arrays = record {
    array = machines;
    items = λ c. elim c [ machines xs ↦ xs | _ ↦ [] ];
    items-array = λ xs. refl;
  }

  abbrev pub template_arrays : Arrays (Cell Meta X) (TemplateObject Meta)
  template_arrays = record {
    array = templates;
    items = λ c. elim c [ templates xs ↦ xs | _ ↦ [] ];
    items-array = λ xs. refl;
  }
