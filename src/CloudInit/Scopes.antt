-- ===== src/CloudInit/Scopes.antt =====
-- The scope that a connection gets in util/cloudinit/cloudinit.go.
use cluster_api_provider_clo.CloudInit.Text.{itoa, render_ethernet, render_head}
use cluster_api_provider_clo.CloudInit.{
  scan_ranges, is_outside, scan_scopes, Ethernet, find_ethernets, render_ethernets,
  execute_cloud_init_template,
}
use cluster_api_provider_clo.Base.{
  List, Option, Bool, ◌≡◌, false, none, not, ◌∷◌, if◌then◌else◌, some, ◌||◌, true, arith, ◌⊎◌, [],
  inr, inl, refl, String, ◌<>◌, ◌∙◌, ap,
}
use cluster_api_provider_clo.World.Types.{
  Addr, IpRange, IpScope, ok, err, Answer, NetworkConnection, Answer-cases, Vm, VAppNetwork,
  NetworkConnectionSection,
}
use cluster_api_provider_clo.World.{World}

module _ (W : World) (ip : Addr) where
  -- The range has a start and an end, and the address is not outside of them.
  abbrev pub in_range : IpRange → Bool
  in_range range = elim (W.parse_addr range.start_address) [
    | err e ↦ false
    | ok start ↦ elim (W.parse_addr range.end_address) [
      | err e ↦ false
      | ok end ↦ not (is_outside W ip start end)
    ]
  ]

  abbrev pub any_range : List IpRange → Bool
  any_range [] = false
  any_range (range ∷ ranges) = in_range range || any_range ranges

  -- Some range of the scope holds the address.
  abbrev pub covers : IpScope → Bool
  covers scope = elim scope.ip_ranges [ none ↦ false | some ranges ↦ any_range ranges ]

  -- No scope of the list covers the address.
  abbrev pub NoneCovers : List IpScope → Type 0
  NoneCovers [] = Unit
  NoneCovers (x ∷ scopes) = (covers x ≡ false) × NoneCovers scopes

  -- The scope is in the list and covers the address, and none after it does.
  abbrev pub IsLast : IpScope → List IpScope → Type 0
  IsLast scope [] = ⊥
  IsLast scope (x ∷ scopes) =
      ((x ≡ scope) × (covers scope ≡ true) × NoneCovers scopes) ⊎ IsLast scope scopes

  abbrev HasLast : Option IpScope → List IpScope → Type 0
  HasLast none scopes = ⊥
  HasLast (some scope) scopes = IsLast scope scopes

  -- The scope of a connection: the last that covers its address, or nil if none does.
  abbrev pub IsScope : Option IpScope → List IpScope → Type 0
  IsScope none scopes = NoneCovers scopes
  IsScope (some scope) scopes = IsLast scope scopes

  scan_ranges_lem :
      (scope : IpScope) (found : Option IpScope) (ranges : List IpRange) (r : Option IpScope)
      → scan_ranges W ip scope found ranges ≡ ok r
      → r ≡ (if any_range ranges then some scope else found)
  unfolding scan_ranges
  scan_ranges_lem scope found [] r h = ground arith
  scan_ranges_lem scope found (range ∷ ranges) r h =
      ground
        (arith, scan_ranges_lem scope (some scope) ranges r, scan_ranges_lem scope found ranges r)

  HasLast-cons :
      (r : Option IpScope) (x : IpScope) (scopes : List IpScope)
      → HasLast r scopes
      → HasLast r (x ∷ scopes)
  HasLast-cons none x scopes h = h
  HasLast-cons (some scope) x scopes h = inr h

  abbrev Scanned : Option IpScope → Option IpScope → List IpScope → Type 0
  Scanned found r scopes = ((r ≡ found) × NoneCovers scopes) ⊎ HasLast r scopes

  Scanned-cons :
      (found found' r : Option IpScope) (x : IpScope) (scopes : List IpScope)
      → found' ≡ (if covers x then some x else found)
      → Scanned found' r scopes
      → Scanned found r (x ∷ scopes)
  Scanned-cons found found' r x scopes e (inr h) = inr (HasLast-cons r x scopes h)
  Scanned-cons found found' none x scopes e (inl h) = ground arith
  Scanned-cons found found' (some scope) x scopes e (inl h) = ground arith

  scan_scopes_lem :
      (found : Option IpScope) (scopes : List IpScope) (r : Option IpScope)
      → scan_scopes W ip found scopes ≡ ok r
      → Scanned found r scopes
  unfolding scan_scopes
  scan_scopes_lem found [] r h = inl (ground arith, tt)
  scan_scopes_lem found (scope ∷ scopes) r h =
      go scope.ip_ranges refl (λ f. scan_scopes_lem f scopes r)
    where
      scanned :
          (ranges : List IpRange) (a : Answer (Option IpScope))
          → scope.ip_ranges ≡ some ranges
          → scan_ranges W ip scope found ranges ≡ a
          → ((f : Option IpScope) → scan_scopes W ip f scopes ≡ ok r → Scanned f r scopes)
          → Scanned found r (scope ∷ scopes)
      scanned ranges (err x) e q ih = ground arith
      scanned ranges (ok f) e q ih =
          Scanned-cons found f r scope scopes (ground (arith, scan_ranges_lem scope found ranges f))
            (ih f (ground arith))

      go :
          (o : Option (List IpRange))
          → scope.ip_ranges ≡ o
          → ((f : Option IpScope) → scan_scopes W ip f scopes ≡ ok r → Scanned f r scopes)
          → Scanned found r (scope ∷ scopes)
      go none e ih =
          Scanned-cons found found r scope scopes (ground arith) (ih found (ground arith))
      go (some ranges) e ih = scanned ranges (scan_ranges W ip scope found ranges) e refl ih

  -- From no scope, the scan ends with the last scope that covers the address, or with none.
  pub scan_scopes-IsScope :
      (scopes : List IpScope) (r : Option IpScope)
      → scan_scopes W ip none scopes ≡ ok r
      → IsScope r scopes
  scan_scopes-IsScope scopes r h = go r (scan_scopes_lem none scopes r h)
    where
      go : (r : Option IpScope) → Scanned none r scopes → IsScope r scopes
      go none (inl h) = h.1
      go none (inr h) = absurd h
      go (some scope) (inl h) = cc (h.0)
      go (some scope) (inr h) = h

-- The address of a connection parses, and some scope, the one it gets, covers it.
pub record IsCovered (W : World) (scopes : List IpScope) (c : NetworkConnection) : Type 0 where
  pub ip : Addr
  pub parsed : W.parse_addr c.ip_address ≡ ok ip
  pub scope : IpScope
  pub last : IsLast W ip scope scopes

abbrev pub texts : List String → String
texts [] = ""
texts (x ∷ []) = x
texts (x ∷ y ∷ rest) = x <> texts (y ∷ rest)

-- The text of a connection: its own data, and those of the scope.
abbrev pub entry : NetworkConnection → IpScope → String
entry c scope = texts (
    "\n    eth"
    ∷ itoa c.network_connection_index
    ∷ ":\n      match:\n        macaddress: \""
    ∷ c.mac_address
    ∷ "\"\n      addresses:\n      - "
    ∷ c.ip_address
    ∷ "/"
    ∷ scope.subnet_prefix_length
    ∷ "\n      gateway4: "
    ∷ scope.gateway
    ∷ "\n      nameservers:\n        addresses:\n        - "
    ∷ scope.dns1
    ∷ [])

entry-render_ethernet :
    (c : NetworkConnection) (scope : IpScope) → render_ethernet c scope ≡ entry c scope
unfolding render_ethernet
entry-render_ethernet c scope = refl

-- The text is that of the connections in their order, each with the scope that covers it.
abbrev pub Rendered : World → List IpScope → List NetworkConnection → String → Type 0
Rendered W scopes [] body = body ≡ ""
Rendered W scopes (c ∷ connections) body =
    (i : IsCovered W scopes c) × (rest : String) × (body ≡ entry c i.scope <> rest)
    × Rendered W scopes connections rest

module _ (W : World) (scopes : List IpScope) where
  -- One connection: its address, its scope and the rest of the loop and of the text succeeded.
  ethernet-Rendered :
      (c : NetworkConnection) (connections : List NetworkConnection) (ip : Addr)
      (found : Option IpScope) (rest : List Ethernet) (text : String)
      → W.parse_addr c.ip_address ≡ ok ip
      → scan_scopes W ip none scopes ≡ ok found
      → render_ethernets W ((record { ip_scope = found; network_connection = c }) ∷ rest) ≡ ok text
      → ((x : String) → render_ethernets W rest ≡ ok x → Rendered W scopes connections x)
      → Rendered W scopes (c ∷ connections) text
  unfolding render_ethernets
  ethernet-Rendered c connections ip none rest text p q h ih = ground arith
  ethernet-Rendered c connections ip (some scope) rest text p q h ih =
      elim (Answer-cases (render_ethernets W rest)) [
        | inl (x, e) ↦ (
          record {
            ip = ip;
            parsed = p;
            scope = scope;
            last = scan_scopes-IsScope W ip scopes (some scope) q;
          },
          x,
          whole x e ∙ ap (λ (head : String). head <> x) (entry-render_ethernet c scope),
          ih x e,
        )
        | inr (x, e) ↦ ground arith
      ]
    where
      whole : (x : String) → render_ethernets W rest ≡ ok x → text ≡ render_ethernet c scope <> x
      whole x e = ground arith

  rendered :
      (connections : List NetworkConnection) (ethernets : List Ethernet) (text : String)
      → find_ethernets W scopes connections ≡ ok ethernets
      → render_ethernets W ethernets ≡ ok text
      → Rendered W scopes connections text
  unfolding find_ethernets render_ethernets
  rendered [] ethernets text h r = ground arith
  rendered (c ∷ connections) ethernets text h r = elim (Answer-cases (W.parse_addr c.ip_address)) [
    | inr (e, p) ↦ ground arith
    | inl (ip, p) ↦ elim (Answer-cases (scan_scopes W ip none scopes)) [
      | inr (e, q) ↦ ground arith
      | inl (found, q) ↦ elim (Answer-cases (find_ethernets W scopes connections)) [
        | inr (e, d) ↦ ground arith
        | inl (rest, d) ↦
            ethernet-Rendered c connections ip found rest text p q (ground arith)
              (λ x e. rendered connections rest x d e)
      ]
    ]
  ]

-- Metadata is produced only if the address of every connection parses and lies in a range of some
-- scope of the network, and then it is the head, with the name and the id of the virtual machine,
-- and for each connection, in their order, its number and its addresses, with the prefix length,
-- the gateway and the name server of the last scope that covers its address.
pub execute_cloud_init_template-Rendered :
    (W : World) (vm : Vm) (network : VAppNetwork) (section : NetworkConnectionSection)
    (connections : List NetworkConnection) (text : String)
    → section.network_connection ≡ some connections
    → execute_cloud_init_template W vm network section ≡ ok text
    → (body : String) × (text
        ≡ texts (
            "#cloud-config\nlocal-hostname: " ∷ vm.name ∷ "\ninstance-id: " ∷ vm.id
            ∷ "\nnetwork:\n  version: 2\n  ethernets:" ∷ [])
          <> (body <> "\n"))
      × Rendered W network.ip_scopes connections body
unfolding execute_cloud_init_template render_head
execute_cloud_init_template-Rendered W vm network section connections text s h =
    elim (Answer-cases (find_ethernets W network.ip_scopes connections)) [
      | inr (e, p) ↦ ground arith
      | inl (ethernets, p) ↦ elim (Answer-cases (render_ethernets W ethernets)) [
        | inr (e, q) ↦ ground arith
        | inl (body, q) ↦
            (body, ground arith, rendered W network.ip_scopes connections ethernets body p q)
      ]
    ]
