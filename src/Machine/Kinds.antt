-- ===== src/Machine/Kinds.antt =====
-- The rule set of the proofs about the machine controller.
use cluster_api_provider_clo.Api.Conditions.{template_not_found_reason, catalog_not_found_reason}
use cluster_api_provider_clo.Machine.Object.{waiting}
use cluster_api_provider_clo.Machine.Provision.{or_retry, or_catalog_not_found}
use cluster_api_provider_clo.Flow.Rules.{
  Preserves, preserves_rules, Preserves-return, Preserves-pure, Preserves-panic, Preserves-bind,
}
use cluster_api_provider_clo.World.Types.{Named}
use cluster_api_provider_clo.Disks.{Resized, changed, unchanged, out_of_range}
use cluster_api_provider_clo.Machine.Vm.{
  size_memory, size_cpus, size_disks, Sized, with_disks, or_template_not_found,
}
use cluster_api_provider_clo.Base.{Option, some, none}
use cluster_api_provider_clo.World.{World}
use cluster_api_provider_clo.Api.{TenantMachine, ℤ}
use cluster_api_provider_clo.Vcdutil.Rules.{vcd_rules}
use cluster_api_provider_clo.Flow.{Session, modify}

module _ {P : Session TenantMachine → Type 0} where
  pub Preserves-or_template_not_found :
      (W : World) (o : Option Named)
      → Preserves P (modify (waiting W template_not_found_reason))
      → Preserves P (or_template_not_found W o)
  Preserves-or_template_not_found W none h = Preserves-bind _ _ h λ _. Preserves-return _
  Preserves-or_template_not_found W (some x) h = Preserves-pure x

  pub Preserves-or_catalog_not_found :
      (W : World) (o : Option Named)
      → Preserves P (modify (waiting W catalog_not_found_reason))
      → Preserves P (or_catalog_not_found W o)
  Preserves-or_catalog_not_found W none h = Preserves-bind _ _ h λ _. Preserves-return _
  Preserves-or_catalog_not_found W (some x) h = Preserves-pure x

  pub Preserves-or_retry : {A : Type 0} (o : Option A) → Preserves P (or_retry o)
  Preserves-or_retry none = Preserves-return _
  Preserves-or_retry (some a) = Preserves-pure a

  pub Preserves-size_memory : (m : ℤ) (z : Sized) → Preserves P (size_memory m z)
  unfolding size_memory
  Preserves-size_memory m z = search preserves_rules

  pub Preserves-size_cpus : (m : ℤ) (z : Sized) → Preserves P (size_cpus m z)
  unfolding size_cpus
  Preserves-size_cpus m z = search preserves_rules

  pub Preserves-with_disks : (r : Resized) (z : Sized) → Preserves P (with_disks r z)
  Preserves-with_disks unchanged z = Preserves-pure _
  Preserves-with_disks (changed d) z = Preserves-pure _
  Preserves-with_disks out_of_range z = Preserves-panic

  pub Preserves-size_disks :
      (machine : TenantMachine) (z : Sized) → Preserves P (size_disks machine z)
  unfolding size_disks
  Preserves-size_disks machine z = Preserves-with_disks _ z

pub ruleset machine_rules = (
  vcd_rules, Preserves-or_template_not_found, Preserves-or_catalog_not_found, Preserves-or_retry,
  Preserves-size_memory, Preserves-size_cpus, Preserves-size_disks,
)
