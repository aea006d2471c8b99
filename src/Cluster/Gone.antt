-- ===== src/Cluster/Gone.antt =====
-- What a trace shows to be gone from Cloud Director: a look-up by id that ended in "not found",
-- or a deletion that went through. The deletion of a vApp is a task that is waited for.
use cluster_api_provider_clo.Base.{String, Option, none, some, [], ◌∷◌, Bool, true, false, ◌≡◌, ◌⊎◌}
use cluster_api_provider_clo.World.{World, Event, Trace}
use cluster_api_provider_clo.World.Types.{Answer, ok, err, VcdClient, Vdc, Named, FirewallGroup}
use cluster_api_provider_clo.World.Calls.{
  Call, get_virtual_service_by_id, get_alb_pool_by_id, get_firewall_group_by_id, get_v_app_by_id,
  delete_virtual_service, delete_alb_pool, delete_firewall_group, delete_v_app,
  wait_task_completion,
}
use cluster_api_provider_clo.Vcdutil.{contains_not_found}

pub data Part : Type 0 where
  virtual_service_part pool_part ip_set_part v_app_part : Part

-- The part, and the id, that a call looks up.
abbrev pub lookup_of : Call → Option (Part × String)
lookup_of (get_virtual_service_by_id client id) = some (virtual_service_part, id)
lookup_of (get_alb_pool_by_id client id) = some (pool_part, id)
lookup_of (get_firewall_group_by_id vdc id) = some (ip_set_part, id)
lookup_of (get_v_app_by_id vdc id refresh) = some (v_app_part, id)
lookup_of _ = none

-- The part, and the id, that a call deletes at once.
abbrev pub deletion_of : Call → Option (Part × String)
deletion_of (delete_virtual_service service) = some (virtual_service_part, service.id)
deletion_of (delete_alb_pool pool) = some (pool_part, pool.id)
deletion_of (delete_firewall_group group) = some (ip_set_part, group.id)
deletion_of _ = none

abbrev pub is_wait : Call → Bool
is_wait (wait_task_completion task) = true
is_wait _ = false

abbrev pub v_app_deletion : Call → Option String
v_app_deletion (delete_v_app v_app) = some v_app.id
v_app_deletion _ = none

-- The call before a wait that went through started the deletion of the vApp.
abbrev pub AwaitedDeletion : String → Event → Trace → Type 0
AwaitedDeletion id e [] = ⊥
AwaitedDeletion id e (f ∷ t) =
    (is_wait e.call ≡ true)
    × (e.error ≡ none)
    × (v_app_deletion f.call ≡ some id)
    × (f.error ≡ none)

-- The id of what was found.
abbrev pub id_or : String → Answer Named → String
id_or id (ok x) = x.id
id_or id (err e) = id

abbrev pub group_id_or : String → Answer FirewallGroup → String
group_id_or id (ok x) = x.id
group_id_or id (err e) = id

module _ (W : World) where
  -- What the newest call shows by itself.
  abbrev pub Shows : Part → String → Event → Type 0
  Shows p id e =
      ((lookup_of e.call ≡ some (p, id)) × (contains_not_found W e.error ≡ true))
      ⊎ ((deletion_of e.call ≡ some (p, id)) × (e.error ≡ none))

  abbrev pub Gone : Part → String → Trace → Type 0
  Gone p id [] = ⊥
  Gone p id (e ∷ t) = Shows p id e ⊎ ((p ≡ v_app_part) × AwaitedDeletion id e t) ⊎ Gone p id t

  -- A look-up by id finds an object with that id.
  pub record FindsById : Type 0 where
    pub service :
        (t : Trace) (client : VcdClient) (id : String)
        → id_or id (W.answer t (get_virtual_service_by_id client id)) ≡ id
    pub pool :
        (t : Trace) (client : VcdClient) (id : String)
        → id_or id (W.answer t (get_alb_pool_by_id client id)) ≡ id
    pub group :
        (t : Trace) (vdc : Vdc) (id : String)
        → group_id_or id (W.answer t (get_firewall_group_by_id vdc id)) ≡ id
    pub v_app :
        (t : Trace) (vdc : Vdc) (id : String) (refresh : Bool)
        → id_or id (W.answer t (get_v_app_by_id vdc id refresh)) ≡ id
