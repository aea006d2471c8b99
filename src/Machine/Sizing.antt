-- ===== src/Machine/Sizing.antt =====
-- The sizing of a virtual machine: what was asked for, and what is sent.
use cluster_api_provider_clo.Disks.{
  is_zero_size, Resized, changed, disk_section_from_tenant_machine, unchanged, out_of_range,
}
use cluster_api_provider_clo.Flow.{◌>>=◌, Session, next}
use cluster_api_provider_clo.Base.{
  Option, ◌≡◌, false, true, some, arith, ap, none, ==_iff, Option-cases, inl, inr, ◌∙◌,
}
use cluster_api_provider_clo.Machine.Vm.{
  size_memory, same, Sized, size_cpus, size_disks, with_disks, settings_of,
}
use cluster_api_provider_clo.World.Types.{VmSpecSection}
use cluster_api_provider_clo.Api.{ℤ, TenantMachine}
use cluster_api_provider_clo.Api.{pos, negsuc}

-- The request, where it is not zero, is what the section has.
abbrev pub Has : ℤ → Option ℤ → Type 0
Has wanted configured = is_zero_size wanted ≡ false → configured ≡ some wanted

same_eq : (a b : ℤ) → same a b ≡ true → a ≡ b
same_eq (pos m) (pos n) h = ap pos (ground (arith, ==_iff m n))
same_eq (negsuc m) (negsuc n) h = ap negsuc (ground (arith, ==_iff m n))
same_eq (pos m) (negsuc n) h = ground arith
same_eq (negsuc m) (pos n) h = ground arith

-- Without an update the section stands as it was read.
abbrev pub IsHonest : VmSpecSection → Sized → Type 0
IsHonest section z = z.needs_update ≡ false → z.section ≡ section

-- A step that asks for no update has changed nothing, and none was asked for before.
abbrev pub Honest : Sized → Sized → Type 0
Honest z w = w.needs_update ≡ false → (w.section ≡ z.section) × (z.needs_update ≡ false)

module _ (z w : Sized) (s t : Session TenantMachine) where
  size_memory_lem :
      (mib : ℤ)
      → size_memory mib z s ≡ (next w, t)
      → Has mib w.section.memory_resource_mb × Honest z w
  unfolding size_memory ◌>>=◌
  size_memory_lem mib e = elim (Option-cases z.section.memory_resource_mb) [
    | inl n ↦ missing n
    | inr (v, y) ↦ present v y
  ]
    where
      missing :
          z.section.memory_resource_mb ≡ none → Has mib w.section.memory_resource_mb × Honest z w
      missing n = (λ k. ground arith, λ k. ground arith)

      present :
          (v : ℤ)
          → z.section.memory_resource_mb ≡ some v
          → Has mib w.section.memory_resource_mb × Honest z w
      present v y = (λ k. ground (arith, same_eq v mib), λ k. ground arith)

  size_cpus_lem :
      (cpus : ℤ)
      → size_cpus cpus z s ≡ (next w, t)
      → Has cpus w.section.num_cpus
        × Honest z w
        × (w.section.memory_resource_mb ≡ z.section.memory_resource_mb)
  unfolding size_cpus ◌>>=◌
  size_cpus_lem cpus e = elim (Option-cases z.section.num_cpus) [
    | inl n ↦ missing n
    | inr (v, y) ↦ present v y
  ]
    where
      missing :
          z.section.num_cpus ≡ none
          → Has cpus w.section.num_cpus
            × Honest z w
            × (w.section.memory_resource_mb ≡ z.section.memory_resource_mb)
      missing n = (λ k. ground arith, (λ k. ground arith), ground arith)

      present :
          (v : ℤ)
          → z.section.num_cpus ≡ some v
          → Has cpus w.section.num_cpus
            × Honest z w
            × (w.section.memory_resource_mb ≡ z.section.memory_resource_mb)
      present v y = (λ k. ground (arith, same_eq v cpus), (λ k. ground arith), ground arith)

  size_disks_lem :
      (machine : TenantMachine)
      → size_disks machine z s ≡ (next w, t)
      → Honest z w
        × (w.section.memory_resource_mb ≡ z.section.memory_resource_mb)
        × (w.section.num_cpus ≡ z.section.num_cpus)
  unfolding size_disks ◌>>=◌
  size_disks_lem machine e =
      go (disk_section_from_tenant_machine (settings_of z.section.disk_section) machine) e
    where
      go :
          (r : Resized)
          → with_disks r z s ≡ (next w, t)
          → Honest z w
            × (w.section.memory_resource_mb ≡ z.section.memory_resource_mb)
            × (w.section.num_cpus ≡ z.section.num_cpus)
      go unchanged h = ((λ k. ground arith), ground arith, ground arith)
      go (changed d) h = ((λ k. ground arith), ground arith, ground arith)
      go out_of_range h = ((λ k. ground arith), ground arith, ground arith)

-- When the three steps of the sizing go on, the section has the memory and the processors that
-- the machine asks for, where it asks; and without an update it is the section that was read.
pub sizing_lem :
    (machine : TenantMachine) (section : VmSpecSection) (a b c : Sized)
    (s t u v : Session TenantMachine)
    → size_memory machine.spec.memory_resource_mib
        (record { section = section; needs_update = false })
        s
      ≡ (next a, t)
    → size_cpus machine.spec.num_cpus a t ≡ (next b, u)
    → size_disks machine b u ≡ (next c, v)
    → Has machine.spec.memory_resource_mib c.section.memory_resource_mb
      × Has machine.spec.num_cpus c.section.num_cpus
      × (c.needs_update ≡ false → c.section ≡ section)
sizing_lem machine section a b c s t u v ha hb hc =
    let (has_memory, honest_memory) = size_memory_lem _ a s t _ ha in
    let (has_cpus, honest_cpus, kept) = size_cpus_lem a b t u _ hb in
    let (honest_disks, kept_memory, kept_cpus) = size_disks_lem b c u v machine hc in
    (
      λ k. kept_memory ∙ kept ∙ has_memory k,
      (λ k. kept_cpus ∙ has_cpus k),
      (λ k.
          let (e, k') = honest_disks k in
          let (e', k'') = honest_cpus k' in e ∙ e' ∙ (honest_memory k'').0),
    )
