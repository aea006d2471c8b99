-- ===== src/CloudInit.antt =====
-- util/cloudinit/cloudinit.go: the metadata of a machine, with the network scope of each of its
-- connections. The pointers to the network's configuration and scopes are taken to be present.
pub mod Scopes
pub mod Text
use Prim.Native.Nat.{Ordering}
use cluster_api_provider_clo.CloudInit.Text.{render_head, render_ethernet}
use cluster_api_provider_clo.World.Types.{
  IpScope, Addr, Vm, NetworkConnectionSection, NetworkConnection, IpRange, Answer, VAppNetwork, ok,
  err,
}
use cluster_api_provider_clo.World.{World}
use cluster_api_provider_clo.Base.{
  Option, List, Bool, String, ◌∷◌, if◌then◌else◌, none, some, ◌<>◌, [], true, false, ◌||◌,
}

-- A network connection with the scope of its address, nil if there is none.
pub record Ethernet : Type 0 where
  pub ip_scope : Option IpScope
  pub network_connection : NetworkConnection

module _ (W : World) where
  -- `ip.Compare(start) == -1 || ip.Compare(end) == 1`
  abbrev pub is_outside : Addr → Addr → Addr → Bool
  is_outside ip start end =
      elim (W.compare_addr ip start) [ Ordering.lt ↦ true | _ ↦ false ]
      || elim (W.compare_addr ip end) [ Ordering.gt ↦ true | _ ↦ false ]

  -- The inner loop: each range that holds the address sets the scope again.
  unfoldable pub scan_ranges :
      Addr → IpScope → Option IpScope → List IpRange → Answer (Option IpScope)
  scan_ranges ip scope found [] = ok found
  scan_ranges ip scope found (range ∷ ranges) = elim (W.parse_addr range.start_address) [
    | err e ↦ err e
    | ok start ↦ elim (W.parse_addr range.end_address) [
      | err e ↦ err e
      | ok end ↦ scan_ranges ip scope (if is_outside ip start end then found else some scope) ranges
    ]
  ]

  -- The loop over the scopes; one without ranges is passed over.
  unfoldable pub scan_scopes : Addr → Option IpScope → List IpScope → Answer (Option IpScope)
  scan_scopes ip found [] = ok found
  scan_scopes ip found (scope ∷ scopes) = elim scope.ip_ranges [
    | none ↦ scan_scopes ip found scopes
    | some ranges ↦ elim (scan_ranges ip scope found ranges) [
      | err e ↦ err e
      | ok found' ↦ scan_scopes ip found' scopes
    ]
  ]

  -- The outer loop.
  unfoldable pub find_ethernets : List IpScope → List NetworkConnection → Answer (List Ethernet)
  find_ethernets scopes [] = ok []
  find_ethernets scopes (c ∷ connections) = elim (W.parse_addr c.ip_address) [
    | err e ↦ err e
    | ok ip ↦ elim (scan_scopes ip none scopes) [
      | err e ↦ err e
      | ok found ↦ elim (find_ethernets scopes connections) [
        | err e ↦ err e
        | ok ethernets ↦ ok ((record { ip_scope = found; network_connection = c }) ∷ ethernets)
      ]
    ]
  ]

  -- The range of the template over the ethernets. A nil scope stops it with an error.
  unfoldable pub render_ethernets : List Ethernet → Answer String
  render_ethernets [] = ok ""
  render_ethernets (e ∷ ethernets) = elim e.ip_scope [
    | none ↦ err (record { message = "nil pointer evaluating *types.IPScope" })
    | some scope ↦ elim (render_ethernets ethernets) [
      | err x ↦ err x
      | ok rest ↦ ok (render_ethernet e.network_connection scope <> rest)
    ]
  ]

  render : Vm → Answer String → Answer String
  render vm (err e) = err e
  render vm (ok body) = ok (render_head vm.name vm.id <> (body <> "\n"))

  connections_of : NetworkConnectionSection → List NetworkConnection
  connections_of section = elim section.network_connection [
    | none ↦ []
    | some connections ↦ connections
  ]

  unfoldable pub execute_cloud_init_template :
      Vm → VAppNetwork → NetworkConnectionSection → Answer String
  unfolding render connections_of
  execute_cloud_init_template vm network section =
      elim (find_ethernets network.ip_scopes (connections_of section)) [
        | err e ↦ err e
        | ok ethernets ↦ render vm (render_ethernets ethernets)
      ]
