-- ===== src/Examples/MachineRuns.antt =====
-- Runs of the machine controller.
use cluster_api_provider_clo.Machine.Order.{reconcile_vm-Ordered}
use cluster_api_provider_clo.Machine.Sent.{Ordered}
use cluster_api_provider_clo.Machine.Build.{looked_up, ensure_vm_lookup}
use cluster_api_provider_clo.Machine.Finalizer.{Reason, machine_delete_finalizer}
use cluster_api_provider_clo.Machine.Settled.{reconcile_normal_settled}
use cluster_api_provider_clo.Machine.Sizing.{Has, sizing_lem}
use cluster_api_provider_clo.Machine.LoadBalancer.Members.{Updated, add_member_members}
use cluster_api_provider_clo.Machine.Gates.{reconcile_normal_waits}
use cluster_api_provider_clo.Cluster.Kinds.{creates_nothing}
use cluster_api_provider_clo.Machine.Object.{without_finalizer, waiting}
use cluster_api_provider_clo.Disks.{disk_section_from_tenant_machine}
use cluster_api_provider_clo.World.Calls.{get_vm_by_name}
use cluster_api_provider_clo.Machine.Properties.{set_properties}
use cluster_api_provider_clo.Machine.Calls.{allowed_calls, reconcile_machine_calls}
use cluster_api_provider_clo.World.Types.{Vm, Property, ok, GoError, err}
use cluster_api_provider_clo.Machine.Vm.{
  Sized, size_memory, size_cpus, size_disks, ensure_vm, add_vm,
}
use cluster_api_provider_clo.Machine.Properties.Lookup.{lookup, set_properties-lookup}
use cluster_api_provider_clo.Machine.LoadBalancer.{add_member, contains}
use cluster_api_provider_clo.Examples.Data.{
  machine_session, worker, world, made_machine, group, spec_section, made_cluster, deleted_machine,
  owner_cluster, new_machine, org, v_app, vdc, first_disk, catalog,
}
use cluster_api_provider_clo.Machine.Reconcile.{
  reconcile_vm, reconcile_normal, may_join, reconcile_fetched,
}
use cluster_api_provider_clo.Machine.Delete.{reconcile_delete}
use cluster_api_provider_clo.Api.{Machine, pos}
use cluster_api_provider_clo.Base.{
  [], ◌∷◌, All, List, String, ◌≡◌, true, false, some, ◌⊎◌, str_eq, refl,
}
use cluster_api_provider_clo.Flow.{◌>>=◌, perform, ret, next, done, crash}

abbrev control_plane : Machine
control_plane = record worker { name = "control-plane" }

machine_delete_finalizer_example :
    let t = (reconcile_delete world worker owner_cluster (machine_session deleted_machine)).1 in
    (t.object ≡ deleted_machine)
    ⊎ ((t.object ≡ without_finalizer world deleted_machine)
        × Reason world owner_cluster "demo" t.trace)
machine_delete_finalizer_example =
    machine_delete_finalizer world worker owner_cluster (machine_session deleted_machine)

reconcile_machine_calls_example :
    All
      (λ e. allowed_calls deleted_machine e.call ≡ true)
      (reconcile_fetched world deleted_machine worker owner_cluster
        (machine_session deleted_machine)).1.trace
reconcile_machine_calls_example =
    reconcile_machine_calls world deleted_machine worker owner_cluster [] tt

reconcile_normal_settled_example :
    let t = (reconcile_normal world control_plane owner_cluster (machine_session made_machine)).1 in
    (str_eq t.object.spec.provider_id "" ≡ false) × All (λ e. creates_nothing e.call ≡ true) t.trace
reconcile_normal_settled_example =
    reconcile_normal_settled world control_plane owner_cluster (machine_session made_machine) refl
      tt

reconcile_normal_waits_example :
    reconcile_normal world worker owner_cluster (machine_session new_machine)
    ≡ (ret done, machine_session (waiting world "WaitingForControlPlaneAvailable" new_machine))
unfolding may_join
reconcile_normal_waits_example =
    reconcile_normal_waits world worker owner_cluster (machine_session new_machine) done
      "WaitingForControlPlaneAvailable" refl

add_member_run : (add_member world group "10.0.0.5" (machine_session new_machine)).0 ≡ next tt
unfolding add_member contains ◌>>=◌ perform
add_member_run = refl

add_member_members_example :
    ((contains "10.0.0.5" group.ip_addresses ≡ true)
      × ((add_member world group "10.0.0.5" (machine_session new_machine)).1.trace ≡ []))
    ⊎ ((members : List String) × Updated group members
          (add_member world group "10.0.0.5" (machine_session new_machine)).1.trace
        × (contains "10.0.0.5" members ≡ true)
        × ((other : String)
            → contains other group.ip_addresses ≡ true
            → contains other members ≡ true))
add_member_members_example =
    add_member_members world group "10.0.0.5" (machine_session new_machine) add_member_run

abbrev properties : List Property
properties =
    (record { type = "string"; key = "hostname"; label = "hostname"; default_value = "demo" }) ∷ []

set_properties-lookup_example :
    (lookup "userdata" (set_properties "a" "b" properties) ≡ some "a")
    × (lookup "metadata" (set_properties "a" "b" properties) ≡ some "b")
    × (str_eq "userdata" "hostname" ≡ false
        → str_eq "metadata" "hostname" ≡ false
        → lookup "hostname" (set_properties "a" "b" properties) ≡ lookup "hostname" properties)
set_properties-lookup_example = set_properties-lookup "a" "b" "hostname" properties

abbrev with_memory : Sized
with_memory = record {
  section = record spec_section { memory_resource_mb = some (pos 2048) };
  needs_update = true;
}

abbrev with_all : Sized
with_all = record {
  section = record spec_section {
    memory_resource_mb = some (pos 2048);
    disk_section = some (record {
      disk_settings =
          (record first_disk { size_mb = pos 4096 })
          ∷ (record {
            adapter_type = "5";
            bus_number = 0;
            unit_number = 1;
            size_mb = pos 100;
            thin_provisioned = some true;
          })
          ∷ [];
    });
  };
  needs_update = true;
}

sizing_lem_example :
    Has (pos 2048) with_all.section.memory_resource_mb
    × Has (pos 2) with_all.section.num_cpus
    × (with_all.needs_update ≡ false → with_all.section ≡ spec_section)
unfolding size_memory size_cpus size_disks ◌>>=◌ disk_section_from_tenant_machine
sizing_lem_example =
    sizing_lem new_machine spec_section with_memory with_memory with_all
      (machine_session new_machine) (machine_session new_machine) (machine_session new_machine)
      (machine_session new_machine) refl refl refl

ensure_vm_lookup_example :
    ((x : Vm)
      → world.answer [] (get_vm_by_name v_app "demo" true) ≡ ok x
      → ensure_vm world made_cluster v_app catalog (machine_session new_machine)
        ≡ (next x, looked_up world made_cluster v_app catalog (machine_session new_machine)))
    × ((e : GoError)
        → world.answer [] (get_vm_by_name v_app "demo" true) ≡ err e
        → world.contains_not_found e ≡ true
        → ensure_vm world made_cluster v_app catalog (machine_session new_machine)
          ≡ add_vm world made_cluster v_app catalog
              (looked_up world made_cluster v_app catalog (machine_session new_machine)))
    × ((e : GoError)
        → world.answer [] (get_vm_by_name v_app "demo" true) ≡ err e
        → world.contains_not_found e ≡ false
        → ensure_vm world made_cluster v_app catalog (machine_session new_machine)
          ≡ (crash, looked_up world made_cluster v_app catalog (machine_session new_machine)))
ensure_vm_lookup_example =
    ensure_vm_lookup world made_cluster v_app catalog (machine_session new_machine)

reconcile_vm-Ordered_example :
    Ordered world worker
      (reconcile_vm world made_cluster worker org vdc v_app (machine_session new_machine)).1.trace
reconcile_vm-Ordered_example =
    reconcile_vm-Ordered world made_cluster worker org vdc v_app (machine_session new_machine) tt
