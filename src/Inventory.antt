-- ===== src/Inventory.antt =====
-- What the controllers have made in Cloud Director, read off the trace of their calls.
pub mod Rules
pub mod Seek
use cluster_api_provider_clo.Cluster.Kinds.{is_removal}
use cluster_api_provider_clo.Base.{String, Option, ◌∷◌, ◌≡◌, some, false, true, [], ◌⊎◌, ◌≢◌, none}
use cluster_api_provider_clo.World.{Event, Trace, World}
use cluster_api_provider_clo.World.Calls.{
  Call, create_firewall_group, get_firewall_group_by_name, create_alb_pool, get_alb_pool_by_name,
  create_virtual_service, get_virtual_service_by_name, create_raw_v_app, get_v_app_by_name,
  add_new_vm, get_vm_by_name,
}
use cluster_api_provider_clo.World.Types.{Vdc, GoError, Named, err}

-- A thing, by the call that looks it up: a firewall group, a load balancer pool, a virtual service,
-- a vApp, a virtual machine.
pub data Thing : Type 0 where
  group : Vdc → String → String → Thing
  pool service : String → String → Thing
  v_app : Vdc → String → Thing
  vm : Named → String → Thing

-- What a call makes, and what it looks up.
abbrev pub thing_of : Call → Option Thing
thing_of (create_firewall_group vdc config) = some (group vdc config.name config.type_value)
thing_of (create_alb_pool client config) = some (pool config.gateway_ref.id config.name)
thing_of (create_virtual_service client config) = some (service config.gateway_ref.id config.name)
thing_of (create_raw_v_app vdc name description) = some (v_app vdc name)
thing_of (add_new_vm parent name template section powered) = some (vm parent name)
thing_of _ = none

abbrev pub sought_by : Call → Option Thing
sought_by (get_firewall_group_by_name vdc name kind) = some (group vdc name kind)
sought_by (get_alb_pool_by_name client gateway name) = some (pool gateway name)
sought_by (get_virtual_service_by_name client gateway name) = some (service gateway name)
sought_by (get_v_app_by_name vdc name refresh) = some (v_app vdc name)
sought_by (get_vm_by_name parent name refresh) = some (vm parent name)
sought_by _ = none

-- A creation that failed makes nothing.
abbrev pub made_by : Event → Option Thing
made_by e = elim e.error [ none ↦ thing_of e.call | some failure ↦ none ]

-- The thing has been made, and nothing has been removed since.
abbrev pub Made : Thing → Trace → Type 0
Made x [] = ⊥
Made x (e ∷ t) = (is_removal e.call ≡ false) × ((made_by e ≡ some x) ⊎ Made x t)

-- Since the last removal, the thing has not been made.
abbrev pub Unmade : Thing → Trace → Type 0
Unmade x [] = Unit
Unmade x (e ∷ t) = (is_removal e.call ≡ true) ⊎ ((made_by e ≢ some x) × Unmade x t)

-- Whatever was made had not been made since the last removal before.
abbrev pub MadeOnce : Trace → Type 0
MadeOnce [] = Unit
MadeOnce (e ∷ t) = ((x : Thing) → made_by e ≡ some x → Unmade x t) × MadeOnce t

-- Cloud Director never says "not found" to a look-up of a thing that has been made, as long as
-- nothing has been removed since; the look-up may fail otherwise.
pub record Remembers (W : World) : Type 0 where
  pub found :
      (t : Trace) (c : Call) (x : Thing) (e : GoError)
      → sought_by c ≡ some x
      → Made x t
      → W.answer t c ≡ err e
      → W.contains_not_found e ≡ false
