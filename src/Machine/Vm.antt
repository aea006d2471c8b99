-- ===== src/Machine/Vm.antt =====
-- The virtual machine of a tenant machine: found by name or added from the catalog's template,
-- then sized, and switched on.
use cluster_api_provider_clo.Api.Conditions.{
  template_not_found_reason, update_virtual_machine_spec_section_error_reason,
  virtual_machine_power_on_error_reason, cloud_director_error_reason,
  add_virtual_machine_error_reason,
}
use cluster_api_provider_clo.Vcdutil.{find, found_or_create}
use cluster_api_provider_clo.World.Calls.{
  update_vm_spec_section, power_on_vm, get_vm_by_name, get_v_app_template, wait_task_completion,
  add_new_vm,
}
use cluster_api_provider_clo.Machine.Object.{T, waiting, not_ready_retry}
use cluster_api_provider_clo.World.{World}
use cluster_api_provider_clo.Disks.{
  Resized, disk_section_from_tenant_machine, is_zero_size, changed, unchanged, out_of_range,
}
use cluster_api_provider_clo.Base.{
  Option, Bool, if◌then◌else◌, List, some, true, [], ◌∷◌, none, false, ◌==◌,
}
use cluster_api_provider_clo.Api.{ℤ, TenantMachine, TenantCluster}
use cluster_api_provider_clo.World.Types.{
  VmSpecSection, DiskSection, Vm, Named, NetworkConnectionSection, DiskSettings,
}
use cluster_api_provider_clo.Flow.{
  ◌>>=◌, ◌>>◌, pure, perform, gets, panic, modify, deref, or_else, return, requeue,
}
use cluster_api_provider_clo.Api.{pos, negsuc}

-- One decision of the sizing: the section, and whether it has to be sent.
pub record Sized : Type 0 where
  pub section : VmSpecSection
  pub needs_update : Bool

abbrev pub same : ℤ → ℤ → Bool
same (pos m) (pos n) = m == n
same (negsuc m) (negsuc n) = m == n
same _ _ = false

unfoldable pub size_memory : ℤ → Sized → T Sized
size_memory mib sized = if is_zero_size mib then pure sized else do
  configured ← deref sized.section.memory_resource_mb
  pure (
      if same configured mib then sized else record {
        section = record sized.section { memory_resource_mb = some mib };
        needs_update = true;
      })

unfoldable pub size_cpus : ℤ → Sized → T Sized
size_cpus cpus sized = if is_zero_size cpus then pure sized else do
  current ← deref sized.section.num_cpus
  pure (
      if same current cpus
      then sized
      else record { section = record sized.section { num_cpus = some cpus }; needs_update = true })

abbrev pub settings_of : Option DiskSection → List DiskSettings
settings_of none = []
settings_of (some section) = section.disk_settings

-- Without a section, or with an empty one, the first setting cannot be read.
abbrev pub with_disks : Resized → Sized → T Sized
with_disks unchanged sized = pure sized
with_disks out_of_range sized = panic
with_disks (changed disks) sized =
    pure
      (record { section = record sized.section { disk_section = some disks }; needs_update = true })

unfoldable pub size_disks : TenantMachine → Sized → T Sized
size_disks machine sized =
    with_disks (disk_section_from_tenant_machine (settings_of sized.section.disk_section) machine)
      sized

module _ (W : World) where
  unfoldable pub update_spec_section : TenantMachine → Vm → T (Unit {0})
  update_spec_section machine vm = do
    section ← deref vm.vm_spec_section
    a ←
        size_memory machine.spec.memory_resource_mib
          (record { section = section; needs_update = false })
    b ← size_cpus machine.spec.num_cpus a
    c ← size_disks machine b
    send c
    where
      send : Sized → T (Unit {0})
      send c =
          if c.needs_update
          then (do
            e ← perform W (update_vm_spec_section vm c.section "dockyards-vcloud-director")
            or_else e (not_ready_retry W update_virtual_machine_spec_section_error_reason ""))
          else pure tt

  unfoldable pub power_on : Vm → T (Unit {0})
  power_on vm = do
    a ← perform W (power_on_vm vm)
    task ← or_else a (not_ready_retry W virtual_machine_power_on_error_reason "")
    b ← perform W (wait_task_completion task)
    or_else b (not_ready_retry W virtual_machine_power_on_error_reason "")

  -- The connection of a new machine to the network of the cluster.
  abbrev pub new_section : TenantCluster → TenantMachine → NetworkConnectionSection
  new_section cluster machine = record {
    network_connection = some (
        (record {
          network = cluster.spec.network;
          network_connection_index = 0;
          is_connected = true;
          ip_address_allocation_mode = W.ip_allocation_mode_pool;
          network_adapter_type = machine.spec.network_adapter_type;
          ip_address = "";
          mac_address = "";
        })
        ∷ []);
  }

  abbrev pub or_template_not_found : Option Named → T Named
  or_template_not_found (some template) = pure template
  or_template_not_found none = do modify (waiting W template_not_found_reason); return (requeue 60)

  -- The error of the task is logged only.
  unfoldable pub add_named : TenantCluster → Named → Named → TenantMachine → T Vm
  add_named cluster v_app catalog machine = do
    found ←
        find W (get_v_app_template catalog machine.spec.template)
          (not_ready_retry W cloud_director_error_reason "error getting vapp template: ")
    template ← or_template_not_found found
    a ←
        perform W
          (add_new_vm v_app machine.metadata.name template (new_section cluster machine) false)
    task ← or_else a (not_ready_retry W add_virtual_machine_error_reason "")
    perform W (wait_task_completion task)
    b ← perform W (get_vm_by_name v_app machine.metadata.name true)
    or_else b (not_ready_retry W cloud_director_error_reason "error getting vm by name: ")

  unfoldable pub add_vm : TenantCluster → Named → Named → T Vm
  add_vm cluster v_app catalog = do machine ← gets (λ m. m); add_named cluster v_app catalog machine

  -- A look-up that fails otherwise leaves a nil machine, whose id is read at once.
  unfoldable pub ensure_vm : TenantCluster → Named → Named → T Vm
  ensure_vm cluster v_app catalog = do
    name ← gets (λ m. m.metadata.name)
    a ← perform W (get_vm_by_name v_app name true)
    found ← found_or_create W a (add_vm cluster v_app catalog)
    deref found
