-- ===== src/Machine/LoadBalancer/Members.antt =====
-- The members of the firewall group as machines join and leave.
use cluster_api_provider_clo.Machine.Object.{internal_ip_address}
use cluster_api_provider_clo.Api.{TenantMachine, TenantCluster, CloudDirectorReference}
use cluster_api_provider_clo.World.Calls.{update_firewall_group, Call, get_firewall_group_by_id}
use cluster_api_provider_clo.Flow.{Session, ◌>>=◌, next, perform}
use cluster_api_provider_clo.World.{World, Trace}
use cluster_api_provider_clo.World.Types.{FirewallGroup, Vdc, ok}
use cluster_api_provider_clo.Base.{
  String, List, ◌++◌, ◌≡◌, str_eq, ◌∷◌, false, arith, eq_iff, [], refl, ◌∙◌, true, ap, none, ◌⊎◌,
  Bool-cases, inl, inr, sym, some,
}
use cluster_api_provider_clo.Machine.LoadBalancer.{
  delete, contains, add_member, leave_load_balancer,
}
use mathlib.Core.List.{append-nil}

delete-others :
    (address : String) (members others : List String)
    → delete address (members ++ others) ≡ delete address members ++ delete address others
unfolding delete
delete-others address [] others = refl
delete-others address (m ∷ members) others = ground (arith, delete-others address members others)

delete-absent :
    (address : String) (members : List String)
    → contains address members ≡ false
    → delete address members ≡ members
unfolding delete contains
delete-absent address [] h = refl
delete-absent address (m ∷ members) h = ground (arith, delete-absent address members)

delete-contains :
    (address : String) (members : List String) → contains address (delete address members) ≡ false
unfolding delete contains
delete-contains address [] = refl
delete-contains address (m ∷ members) = ground (arith, delete-contains address members)

contains-delete :
    (address other : String) (members : List String)
    → str_eq address other ≡ false
    → contains other (delete address members) ≡ contains other members
unfolding delete contains
contains-delete address other [] h = refl
contains-delete address other (m ∷ members) h = ground (
  arith,
  contains-delete address other members,
  eq_iff m address,
  eq_iff m other,
  eq_iff address other,
)

delete_self :
    (address : String) (members : List String) → members ++ delete address (address ∷ []) ≡ members
unfolding delete
delete_self address members = ground (arith, eq_iff address address, append-nil members)

delete-added :
    (address : String) (members : List String)
    → contains address members ≡ false
    → delete address (members ++ (address ∷ [])) ≡ members
delete-added address members h =
    delete-others address members (address ∷ [])
    ∙ ap (λ xs. xs ++ delete address (address ∷ [])) (delete-absent address members h)
    ∙ delete_self address members

contains-last :
    (address : String) (members : List String) → contains address (members ++ (address ∷ [])) ≡ true
unfolding contains
contains-last address [] = ground (arith, eq_iff address address)
contains-last address (m ∷ members) = ground (arith, contains-last address members)

contains-append :
    (address : String) (members others : List String)
    → contains address members ≡ true
    → contains address (members ++ others) ≡ true
unfolding contains
contains-append address [] others h = ground arith
contains-append address (m ∷ members) others h =
    ground (arith, contains-append address members others)

-- The newest call is an update of the group that went through, to these members.
abbrev pub Updated : FirewallGroup → List String → Trace → Type 0
Updated group members [] = ⊥
Updated group members (e ∷ t) =
    (e.call ≡ update_firewall_group (record group { ip_addresses = members })) × (e.error ≡ none)

module _ (W : World) (group : FirewallGroup) (address : String) (s : Session TenantMachine) where
  add_member-found :
      contains address group.ip_addresses ≡ true → (add_member W group address s).1.trace ≡ s.trace
  unfolding add_member ◌>>=◌ perform
  add_member-found y = ground arith

  add_member-Updated :
      contains address group.ip_addresses ≡ false
      → (add_member W group address s).0 ≡ next tt
      → Updated group (group.ip_addresses ++ (address ∷ [])) (add_member W group address s).1.trace
  unfolding add_member ◌>>=◌ perform
  add_member-Updated n h = ground arith

-- When a machine has been added to a group, it was a member before and no call was made, or the
-- group has been updated to members that include it and all the earlier ones.
pub add_member_members :
    (W : World) (group : FirewallGroup) (address : String) (s : Session TenantMachine)
    → (add_member W group address s).0 ≡ next tt
    → ((contains address group.ip_addresses ≡ true)
        × ((add_member W group address s).1.trace ≡ s.trace))
      ⊎ ((members : List String) × Updated group members (add_member W group address s).1.trace
          × (contains address members ≡ true)
          × ((other : String)
              → contains other group.ip_addresses ≡ true
              → contains other members ≡ true))
add_member_members W group address s h = elim (Bool-cases (contains address group.ip_addresses)) [
  | inl y ↦ inl (y, add_member-found W group address s y)
  | inr n ↦ inr (
    group.ip_addresses ++ (address ∷ []),
    add_member-Updated W group address s n h,
    contains-last address _,
    λ other k. contains-append other _ _ k,
  )
]

-- The members that a call sends.
abbrev members_of : Call → List String
members_of (update_firewall_group group) = group.ip_addresses
members_of _ = []

Updated-unique :
    (group : FirewallGroup) (xs ys : List String) (t : Trace)
    → Updated group xs t
    → Updated group ys t
    → xs ≡ ys
Updated-unique group xs ys [] h k = absurd h
Updated-unique group xs ys (e ∷ t) h k = sym (ap members_of h.0) ∙ ap members_of k.0

module _ (W : World) (cluster : TenantCluster) (vdc : Vdc) (s : Session TenantMachine)
    (ref : CloudDirectorReference) (group : FirewallGroup) where
  abbrev own_address : String
  own_address = internal_ip_address W "" s.object.status.addresses

  leave-Updated :
      cluster.status.ip_set ≡ some ref
      → str_eq own_address "" ≡ false
      → W.answer s.trace (get_firewall_group_by_id vdc ref.id) ≡ ok group
      → (leave_load_balancer W cluster vdc s).0 ≡ next tt
      → Updated group
          (delete own_address group.ip_addresses)
          (leave_load_balancer W cluster vdc s).1.trace
  unfolding leave_load_balancer ◌>>=◌ perform
  leave-Updated r a g h = ground arith

-- When a machine that has an address leaves the group, the group has been updated to members
-- without that address and with every other one of its members; and if the group was as the
-- joining of the machine had left it, they are the members from before that.
pub leave_members :
    (W : World) (cluster : TenantCluster) (vdc : Vdc) (s : Session TenantMachine)
    (ref : CloudDirectorReference) (group : FirewallGroup)
    → cluster.status.ip_set ≡ some ref
    → str_eq (internal_ip_address W "" s.object.status.addresses) "" ≡ false
    → W.answer s.trace (get_firewall_group_by_id vdc ref.id) ≡ ok group
    → (leave_load_balancer W cluster vdc s).0 ≡ next tt
    → let address = internal_ip_address W "" s.object.status.addresses in
      (members : List String) × Updated group members (leave_load_balancer W cluster vdc s).1.trace
      × (contains address members ≡ false)
      × ((other : String)
          → str_eq address other ≡ false
          → contains other members ≡ contains other group.ip_addresses)
      × ((before : FirewallGroup) (u : Session TenantMachine)
          → contains address before.ip_addresses ≡ false
          → (add_member W before address u).0 ≡ next tt
          → Updated before group.ip_addresses (add_member W before address u).1.trace
          → members ≡ before.ip_addresses)
leave_members W cluster vdc s ref group r a g h =
    let address = internal_ip_address W "" s.object.status.addresses in
    (
      delete address group.ip_addresses,
      leave-Updated W cluster vdc s ref group r a g h,
      delete-contains address group.ip_addresses,
      (λ other n. contains-delete address other group.ip_addresses n),
      (λ before u n k joined.
          ap (delete address)
            (Updated-unique before _ _ _ joined (add_member-Updated W before address u n k))
          ∙ delete-added address before.ip_addresses n),
    )
