-- ===== src/Api.antt =====
-- The resources of api/v1alpha1, and the parts of the cluster-api resources that the controllers
-- read. Type metadata is left out.
pub mod Conditions
use cluster_api_provider_clo.Base.{ℕ, String, Bool, true, Option, none, some, List, ◌==◌}
use Conditions.{Condition}

-- A signed 64-bit integer of the API, by sign: `negsuc n` is -(n + 1).
pub data ℤ : Type 0 where
  pos : ℕ → ℤ
  negsuc : ℕ → ℤ

pub record ObjectMeta : Type 0 where
  pub name : String
  pub namespace : String
  pub uid : String
  pub deletion_timestamp : Option ℕ
  pub finalizers : List String

-- `metav1.Time.IsZero`: a nil pointer or the zero time.
abbrev pub is_zero : Option ℕ → Bool
is_zero none = true
is_zero (some t) = t == 0

pub record ApiEndpoint : Type 0 where
  pub host : String
  pub port : ℕ

pub record IdentityRef : Type 0 where
  pub kind : String
  pub name : String

pub record CloudDirectorReference : Type 0 where
  pub id : String
  pub name : String

pub record TenantClusterSpec : Type 0 where
  pub control_plane_endpoint : ApiEndpoint
  pub organization : String
  pub virtual_data_center : String
  pub edge_gateway : String
  pub network : String
  pub service_engine_group : String
  pub identity_ref : Option IdentityRef
  pub use_uid_for_names : Bool

pub record TenantClusterStatus : Type 0 where
  pub ready : Bool
  pub virtual_service : Option CloudDirectorReference
  pub v_app : Option CloudDirectorReference
  pub ip_set : Option CloudDirectorReference
  pub pool : Option CloudDirectorReference
  pub conditions : List Condition

pub record TenantCluster : Type 0 where
  pub metadata : ObjectMeta
  pub spec : TenantClusterSpec
  pub status : TenantClusterStatus

pub record AdditionalDisk : Type 0 where
  pub name : String
  pub size_mib : ℤ

pub record TenantMachineSpec : Type 0 where
  pub provider_id : String
  pub catalog : String
  pub template : String
  pub network_adapter_type : String
  pub memory_resource_mib : ℤ
  pub num_cpus : ℤ
  pub disk_resource_mib : ℤ
  pub additional_disks : List AdditionalDisk

-- `clusterv1.MachineAddress`, whose type is a text such as "InternalIP".
pub record MachineAddress : Type 0 where
  pub type : String
  pub address : String

pub record TenantMachineStatus : Type 0 where
  pub ready : Bool
  pub addresses : List MachineAddress
  pub conditions : List Condition

pub record TenantMachine : Type 0 where
  pub metadata : ObjectMeta
  pub spec : TenantMachineSpec
  pub status : TenantMachineStatus

pub record MachineTemplateResource : Type 0 where
  pub metadata : ObjectMeta
  pub spec : TenantMachineSpec

pub record MachineTemplateSpec : Type 0 where
  pub template : MachineTemplateResource

pub record MachineTemplate : Type 0 where
  pub metadata : ObjectMeta
  pub spec : MachineTemplateSpec

-- `metav1.ListMeta`, and a list of resources.
pub record ListMeta : Type 0 where
  pub resource_version : String
  pub continue_token : String
  pub remaining_item_count : Option ℤ

pub record ResourceList (A : Type 0) : Type 0 where
  pub metadata : ListMeta
  pub items : List A

-- What the controllers read of `clusterv1.Cluster` and `clusterv1.Machine`. A reference to
-- another object is kept as that object's name.
pub record Cluster : Type 0 where
  pub name : String
  pub namespace : String
  pub infrastructure_ref : Option String
  pub control_plane_ref : Option String
  pub infrastructure_ready : Bool
  pub conditions : List Condition

pub record Machine : Type 0 where
  pub name : String
  pub namespace : String
  pub labels : List String
  pub data_secret_name : Option String
