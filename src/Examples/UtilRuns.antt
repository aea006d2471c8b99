-- ===== src/Examples/UtilRuns.antt =====
-- Runs of the utilities and of the disk section.
use cluster_api_provider_clo.CloudInit.Scopes.{
  Rendered, texts, entry, execute_cloud_init_template-Rendered,
}
use cluster_api_provider_clo.World.Calls.{cache_get, get_secret}
use cluster_api_provider_clo.Names.Injective.{resource_name_with_use_iff}
use cluster_api_provider_clo.CloudInit.Text.{render_ethernet, render_head}
use cluster_api_provider_clo.Flow.{next}
use cluster_api_provider_clo.ClientCache.Keys.{cache_key_of_joined}
use cluster_api_provider_clo.Api.{pos}
use cluster_api_provider_clo.ClientCache.Clients.{
  HasCredentials, answered, get_vcd_client_of_joined, secret_key, get_vcd_client_hit_or_login,
}
use cluster_api_provider_clo.Disks.Units.{disk_section_units}
use cluster_api_provider_clo.Examples.Data.{
  first_disk, new_cluster, world, new_machine, answer_with, session_of, made_cluster, identity,
  secret, scope, connection, vm, network, section,
}
use cluster_api_provider_clo.World.{World}
use cluster_api_provider_clo.ClientCache.{
  Credentials, cache_key, read_credentials, get_vcd_client, client_of,
}
use cluster_api_provider_clo.Names.{resource_name_with_use, use_control_plane, resource_name}
use cluster_api_provider_clo.Disks.{disk_section_from_tenant_machine, changed}
use cluster_api_provider_clo.World.Types.{DiskSection, DiskSettings, ok}
use cluster_api_provider_clo.CloudInit.{
  execute_cloud_init_template, find_ethernets, scan_scopes, scan_ranges, render_ethernets,
}
use cluster_api_provider_clo.Base.{
  [], ◌∷◌, List, ◌≢◌, ◌≡◌, some, arith, refl, true, ◌↔◌, String, ◌<>◌,
}

execute_cloud_init_template-Rendered_example :
    (body : String) × (render_head vm.name vm.id <> (entry connection scope <> "\n")
      ≡ texts (
          "#cloud-config\nlocal-hostname: " ∷ vm.name ∷ "\ninstance-id: " ∷ vm.id
          ∷ "\nnetwork:\n  version: 2\n  ethernets:" ∷ [])
        <> (body <> "\n"))
    × Rendered world (scope ∷ []) (connection ∷ []) body
unfolding execute_cloud_init_template find_ethernets scan_scopes scan_ranges render_ethernets
    render_ethernet render_head
execute_cloud_init_template-Rendered_example =
    execute_cloud_init_template-Rendered world vm network section (connection ∷ [])
      (render_head vm.name vm.id <> (entry connection scope <> "\n")) refl refl

abbrev second_disk : DiskSettings
second_disk = record {
  adapter_type = "5";
  bus_number = 0;
  unit_number = 1;
  size_mb = pos 100;
  thin_provisioned = some true;
}

abbrev sized : List DiskSettings
sized = (record first_disk { size_mb = pos 4096 }) ∷ second_disk ∷ []

abbrev sized_section : DiskSection
sized_section = record { disk_settings = sized }

disk_section_example :
    disk_section_from_tenant_machine (first_disk ∷ []) new_machine ≡ changed sized_section
unfolding disk_section_from_tenant_machine
disk_section_example = refl

disk_section_units_example : first_disk.unit_number ≢ second_disk.unit_number
disk_section_units_example =
    disk_section_units first_disk [] new_machine {section = sized_section} 0 1
      (record first_disk { size_mb = pos 4096 }) second_disk disk_section_example (omega arith)
      (omega arith) refl refl (λ e. omega arith)

resource_name_with_use_iff_example :
    (resource_name_with_use new_cluster use_control_plane
      ≡ resource_name_with_use made_cluster use_control_plane)
    ↔ (resource_name new_cluster ≡ resource_name made_cluster)
resource_name_with_use_iff_example =
    resource_name_with_use_iff new_cluster made_cluster use_control_plane

-- The same bytes, split in two ways.
abbrev joined : Credentials
joined = record {
  endpoint = 1 ∷ 2 ∷ [];
  href = "https://cloud/api";
  api_token = [];
  organization = 3 ∷ [];
}

abbrev apart : Credentials
apart = record {
  endpoint = 1 ∷ [];
  href = "https://cloud/api";
  api_token = 2 ∷ [];
  organization = 3 ∷ [];
}

cache_key_of_joined_example : cache_key joined ≡ cache_key apart
cache_key_of_joined_example = cache_key_of_joined joined apart refl

-- A cache that holds the client of the other credentials.
abbrev joined_world : World
joined_world = record world { answer = answer_with (client_of joined) }

joined_has_credentials :
    HasCredentials joined_world (session_of new_cluster) new_cluster identity secret apart
unfolding read_credentials
joined_has_credentials = record { identity_ref = refl; read = refl; credentials = refl }

get_vcd_client_hit_or_login_example :
    (get_vcd_client joined_world new_cluster (session_of new_cluster) ≡ (
      next (ok (some (client_of joined))),
      record {
        object = new_cluster;
        trace =
            answered (cache_get (cache_key apart))
            ∷ answered (get_secret (secret_key new_cluster identity))
            ∷ [];
      },
    ))
get_vcd_client_hit_or_login_example =
    (get_vcd_client_hit_or_login joined_world (session_of new_cluster) new_cluster identity secret
        apart joined_has_credentials).0
      (client_of joined) refl

get_vcd_client_of_joined_example :
    (get_vcd_client joined_world new_cluster (session_of new_cluster)).0
    ≡ next (ok (some (client_of joined)))
get_vcd_client_of_joined_example =
    get_vcd_client_of_joined joined_world (session_of new_cluster) new_cluster identity secret
      joined apart joined_has_credentials refl refl
