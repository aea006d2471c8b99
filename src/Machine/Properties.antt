-- ===== src/Machine/Properties.antt =====
-- The user data and the metadata of a virtual machine: properties of its product section.
use cluster_api_provider_clo.World.Types.{Property}
use cluster_api_provider_clo.Base.{String, List, ◌∷◌, if◌then◌else◌, str_eq, []}
pub mod Lookup

-- The search for a key and the update of its first property, or else the property at the end.
unfoldable pub set_property : String → String → List Property → List Property
set_property key value [] =
    (record { type = "string"; key = key; label = key; default_value = value }) ∷ []
set_property key value (p ∷ rest) =
    if str_eq p.key key
    then (record p { default_value = value }) ∷ rest
    else p ∷ set_property key value rest

-- Both loops, in their order.
abbrev pub set_properties : String → String → List Property → List Property
set_properties userdata metadata ps =
    set_property "metadata" metadata (set_property "userdata" userdata ps)
