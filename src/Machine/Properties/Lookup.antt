-- ===== src/Machine/Properties/Lookup.antt =====
-- The properties that the guest reads, after the controller's updates.
use cluster_api_provider_clo.World.Types.{Property}
use cluster_api_provider_clo.Machine.Properties.{set_property, set_properties}
use cluster_api_provider_clo.Base.{
  String, List, Option, ◌≡◌, none, if◌then◌else◌, ◌∷◌, str_eq, some, arith, [], eq_iff, false, ◌∙◌,
}

-- What the guest finds under a key: the value of the first property with it.
abbrev pub lookup : String → List Property → Option String
lookup key [] = none
lookup key (p ∷ rest) = if str_eq p.key key then some p.default_value else lookup key rest

lookup-set_property :
    (key value other : String) (ps : List Property)
    → lookup other (set_property key value ps)
      ≡ (if str_eq key other then some value else lookup other ps)
unfolding set_property
lookup-set_property key value other [] = ground arith
lookup-set_property key value other (p ∷ rest) = ground (
  arith,
  lookup-set_property key value other rest,
  eq_iff p.key key,
  eq_iff p.key other,
  eq_iff key other,
)

-- After both updates the guest finds the user data and the metadata under their keys, and what
-- it finds under any other key is what it found before.
pub set_properties-lookup :
    (userdata metadata other : String) (ps : List Property)
    → (lookup "userdata" (set_properties userdata metadata ps) ≡ some userdata)
      × (lookup "metadata" (set_properties userdata metadata ps) ≡ some metadata)
      × (str_eq "userdata" other ≡ false
          → str_eq "metadata" other ≡ false
          → lookup other (set_properties userdata metadata ps) ≡ lookup other ps)
set_properties-lookup userdata metadata other ps = (
  lookup-set_property "metadata" metadata "userdata" (set_property "userdata" userdata ps)
      ∙ lookup-set_property "userdata" userdata "userdata" ps,
  lookup-set_property "metadata" metadata "metadata" (set_property "userdata" userdata ps),
  λ h k. ground (
    arith,
    lookup-set_property "metadata" metadata other (set_property "userdata" userdata ps),
    lookup-set_property "userdata" userdata other ps,
  ),
)
