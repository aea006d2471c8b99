-- ===== src/World/Types.antt =====
-- The values that the controllers exchange with Cloud Director (package govcd and its types),
-- with the fields that the code reads or writes, and Kubernetes secrets.
use cluster_api_provider_clo.Base.{
  ℕ, String, Bool, Option, none, some, List, ◌≡◌, ◌⊎◌, inl, inr, refl,
}
use cluster_api_provider_clo.Api.{ℤ}

-- A value of Go's `error` that is not nil.
pub record GoError : Type 0 where
  pub message : String

-- What a call that may fail returns: a value with a nil error, or a nil value with an error.
pub data Answer {ℓ} (A : Type ℓ) : Type ℓ where
  ok : A → Answer A
  err : GoError → Answer A

abbrev pub error_of {ℓ} : {A : Type ℓ} → Answer A → Option GoError
error_of (ok a) = none
error_of (err e) = some e

abbrev pub value_of {ℓ} : {A : Type ℓ} → Answer A → Option A
value_of (ok a) = some a
value_of (err e) = none

pub Answer-cases {ℓ} :
    {A : Type ℓ} (a : Answer A) → ((x : A) × (a ≡ ok x)) ⊎ ((e : GoError) × (a ≡ err e))
Answer-cases (ok x) = inl (x, refl)
Answer-cases (err e) = inr (e, refl)

pub record ObjectKey : Type 0 where
  pub name : String
  pub namespace : String

-- Data by key; a value is a list of bytes.
pub record Secret : Type 0 where
  pub entries : List (String × List ℕ)

pub record VcdClient : Type 0 where
  pub href : String
  pub organization : List ℕ
  pub api_token : List ℕ

-- `GetSessionInfo`: the organization of the session, by its name.
pub record SessionInfo : Type 0 where
  pub org_name : String

pub record Org : Type 0 where
  pub id : String

pub record Vdc : Type 0 where
  pub id : String

pub record Task : Type 0 where
  pub id : String

-- An object known by an id and a name: an edge gateway, a pool, a virtual service, a vApp, a
-- virtual machine, a network, a reference of the API.
pub record Named : Type 0 where
  pub id : String
  pub name : String

pub record FirewallGroup : Type 0 where
  pub id : String
  pub name : String
  pub ip_addresses : List String

pub record FirewallGroupConfig : Type 0 where
  pub name : String
  pub type_value : String
  pub owner_ref : Named

pub record AlbPoolConfig : Type 0 where
  pub name : String
  pub default_port : ℕ
  pub gateway_ref : Named
  pub member_group_ref : Named
  pub health_monitors : List String

pub record VirtualServiceConfig : Type 0 where
  pub name : String
  pub enabled : Bool
  pub gateway_ref : Named
  pub load_balancer_pool_ref : Named
  pub service_engine_group_ref : Named
  pub virtual_ip_address : String
  pub port_start : ℕ
  pub profile_type : String
  pub application_profile : String

-- A parsed `netip.Addr`, by its canonical text.
pub record Addr : Type 0 where
  pub text : String

pub record IpRange : Type 0 where
  pub start_address : String
  pub end_address : String

pub record IpScope : Type 0 where
  pub gateway : String
  pub dns1 : String
  pub subnet_prefix_length : String
  pub ip_ranges : Option (List IpRange)

pub record VAppNetwork : Type 0 where
  pub ip_scopes : List IpScope

pub record NetworkConnection : Type 0 where
  pub network : String
  pub network_connection_index : ℕ
  pub is_connected : Bool
  pub ip_address_allocation_mode : String
  pub network_adapter_type : String
  pub ip_address : String
  pub mac_address : String

-- The list is nil when a section comes without it.
pub record NetworkConnectionSection : Type 0 where
  pub network_connection : Option (List NetworkConnection)

pub record GuestCustomizationSection : Type 0 where
  pub computer_name : String

pub record Property : Type 0 where
  pub type : String
  pub key : String
  pub label : String
  pub default_value : String

pub record ProductSectionList : Type 0 where
  pub property : List Property

-- `unit_number` is the bit pattern of a 64-bit `int`.
pub record DiskSettings : Type 0 where
  pub adapter_type : String
  pub bus_number : ℕ
  pub unit_number : ℕ
  pub size_mb : ℤ
  pub thin_provisioned : Option Bool

pub record DiskSection : Type 0 where
  pub disk_settings : List DiskSettings

-- The configured memory and the number of processors are pointers in the library.
pub record VmSpecSection : Type 0 where
  pub memory_resource_mb : Option ℤ
  pub num_cpus : Option ℤ
  pub disk_section : Option DiskSection

pub record Vm : Type 0 where
  pub id : String
  pub name : String
  pub vm_spec_section : Option VmSpecSection
