-- ===== src/Disks.antt =====
-- `diskSectionFromTenantMachine` of controllers/clouddirectortenantmachine_controller.go.
pub mod Units
use cluster_api_provider_clo.Base.{
  ℕ, ◌+◌, ◌%◌, ◌^◌, Bool, true, false, some, List, [], ◌∷◌, ◌++◌, ◌==◌, ltb, ◌&&◌, if◌then◌else◌,
}
use cluster_api_provider_clo.Api.{ℤ, pos, negsuc, AdditionalDisk, TenantMachine}
use cluster_api_provider_clo.World.Types.{DiskSettings, DiskSection}

abbrev pub is_zero_size : ℤ → Bool
is_zero_size (pos n) = n == 0
is_zero_size (negsuc n) = false

abbrev pub is_positive : ℤ → Bool
is_positive (pos n) = ltb 0 n
is_positive (negsuc n) = false

-- `len(disks) == 0`
abbrev pub is_empty {ℓ} : {A : Type ℓ} → List A → Bool
is_empty [] = true
is_empty (x ∷ xs) = false

-- The loop over the additional disks, from index `i` on. The unit number is a 64-bit sum.
unfoldable pub additional_settings : DiskSettings → ℕ → List AdditionalDisk → List DiskSettings
additional_settings first i [] = []
additional_settings first i (disk ∷ disks) =
    (record {
      adapter_type = first.adapter_type;
      bus_number = first.bus_number;
      unit_number = (first.unit_number + i + 1) % 2 ^ 64;
      size_mb = disk.size_mib;
      thin_provisioned = some true;
    })
    ∷ additional_settings first (i + 1) disks

-- What the function returns: nil, a section, or an index out of range. The resized disk is a
-- pointer into the old section, which the caller replaces by the new one.
pub data Resized : Type 0 where
  unchanged : Resized
  changed : DiskSection → Resized
  out_of_range : Resized

unfoldable pub root_settings : DiskSettings → ℤ → List DiskSettings
root_settings first size = if is_positive size then (record first { size_mb = size }) ∷ [] else []

unfoldable pub disk_section_from_tenant_machine : List DiskSettings → TenantMachine → Resized
unfolding additional_settings root_settings
disk_section_from_tenant_machine existing machine =
    if is_zero_size disk_resource_mib && is_empty additional_disks
    then unchanged
    else elim existing [
      | [] ↦ out_of_range
      | first ∷ others ↦ changed (record {
        disk_settings =
            root_settings first disk_resource_mib ++ additional_settings first 0 additional_disks;
      })
    ]
  where
    open machine.spec use {disk_resource_mib, additional_disks}
