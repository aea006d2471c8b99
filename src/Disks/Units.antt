-- ===== src/Disks/Units.antt =====
-- The disks that a machine gets: their number, sizes and unit numbers.
use cluster_api_provider_clo.Base.{
  ℕ, if◌then◌else◌, List, ◌+◌, get_elem?, length, ◌%◌, ◌≡◌, ◌^◌, some, ◌∷◌, true, ap, suc, [], zero,
  arith, ◌∙◌, ◌++◌, sym, ◌<◌, ◌≤◌, ◌≢◌, Bool, false,
}
use cluster_api_provider_clo.Disks.{
  additional_settings, is_positive, disk_section_from_tenant_machine, changed, root_settings,
}
use cluster_api_provider_clo.World.Types.{DiskSettings, DiskSection}
use cluster_api_provider_clo.Api.{TenantMachine, AdditionalDisk, ℤ}

-- How many settings stand before the additional disks.
abbrev pub root_count : TenantMachine → ℕ
root_count m = if is_positive m.spec.disk_resource_mib then 1 else 0

-- The setting of the additional disk at index `i`.
abbrev pub setting : DiskSettings → ℕ → AdditionalDisk → DiskSettings
setting first i disk = record {
  adapter_type = first.adapter_type;
  bus_number = first.bus_number;
  unit_number = (first.unit_number + i + 1) % 2 ^ 64;
  size_mb = disk.size_mib;
  thin_provisioned = some true;
}

settings_of :
    (first : DiskSettings) (others : List DiskSettings) (m : TenantMachine) (section : DiskSection)
    → disk_section_from_tenant_machine (first ∷ others) m ≡ changed section
    → section.disk_settings
      ≡ root_settings first m.spec.disk_resource_mib
        ++ additional_settings first 0 m.spec.additional_disks
unfolding disk_section_from_tenant_machine
settings_of first others m section h = ground arith

-- The settings have a disk of this size and unit number at this index.
abbrev pub At : List DiskSettings → ℕ → ℤ → ℕ → Type 0
At settings i size unit =
    (x : DiskSettings) × ((x.size_mb ≡ size) × (x.unit_number ≡ unit))
    × (get_elem? settings i ≡ some x)

unit_at :
    (first : DiskSettings) (k : ℕ) (disks : List AdditionalDisk) (i : ℕ) (x : DiskSettings)
    → get_elem? (additional_settings first k disks) i ≡ some x
    → (x.unit_number ≡ (first.unit_number + (k + i) + 1) % 2 ^ 64) × (i < length disks)
unfolding additional_settings
unit_at first k [] i x h = cc
unit_at first k (d ∷ disks) zero x h = ground arith
unit_at first k (d ∷ disks) (suc i) x h =
    let (unit, below) = unit_at first (k + 1) disks i x h in
    (unit ∙ ap (λ (n : ℕ). (first.unit_number + n + 1) % 2 ^ 64) (omega arith), omega arith)

section_unit :
    (first : DiskSettings) (size : ℤ) (disks : List AdditionalDisk) (i : ℕ) (x : DiskSettings)
    → first.unit_number < 2 ^ 64
    → get_elem? (root_settings first size ++ additional_settings first 0 disks) i ≡ some x
    → (x.unit_number ≡ (first.unit_number + i + (if is_positive size then 0 else 1)) % 2 ^ 64)
      × (i ≤ length disks)
unfolding root_settings
section_unit first size disks i x fits h = go (is_positive size) i h
  where
    go :
        (b : Bool) (i : ℕ)
        → get_elem?
            ((if b then (record first { size_mb = size }) ∷ [] else [])
              ++ additional_settings first 0 disks)
            i
          ≡ some x
        → (x.unit_number ≡ (first.unit_number + i + (if b then 0 else 1)) % 2 ^ 64)
          × (i ≤ length disks)
    go true zero e = ground arith
    go true (suc i) e = ground (arith, unit_at first 0 disks i x e)
    go false i e = ground (arith, unit_at first 0 disks i x e)

mod_injective :
    (u o i j : ℕ) → i < 2 ^ 64 → j < 2 ^ 64 → (u + i + o) % 2 ^ 64 ≡ (u + j + o) % 2 ^ 64 → i ≡ j
mod_injective u o i j hi hj e = omega arith

-- No two disks of a section have one unit number, as long as there are fewer than 2 ^ 64 - 1
-- additional disks and the first unit number fits in 64 bits; the numbers wrap around.
pub disk_section_units :
    (first : DiskSettings) (others : List DiskSettings) (m : TenantMachine) {section : DiskSection}
    (i j : ℕ) (x y : DiskSettings)
    → disk_section_from_tenant_machine (first ∷ others) m ≡ changed section
    → first.unit_number < 2 ^ 64
    → length m.spec.additional_disks + 1 < 2 ^ 64
    → get_elem? section.disk_settings i ≡ some x
    → get_elem? section.disk_settings j ≡ some y
    → i ≢ j
    → x.unit_number ≢ y.unit_number
disk_section_units first others m {section} i j x y h fits few at_i at_j differ same =
    let settings = settings_of first others m section h in
    let size = m.spec.disk_resource_mib in
    let disks = m.spec.additional_disks in
    let (unit_i, below_i) = section_unit first size disks i x fits (rw settings at at_i) in
    let (unit_j, below_j) = section_unit first size disks j y fits (rw settings at at_j) in
    differ (
      mod_injective first.unit_number (if is_positive size then 0 else 1) i j (omega arith)
        (omega arith) (sym unit_i ∙ same ∙ unit_j))
