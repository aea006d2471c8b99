-- ===== src/Machine/Configured.antt =====
-- The virtual machine of a worker in a world that grants what is asked about it.
use cluster_api_provider_clo.Machine.LoadBalancer.{join_load_balancer}
use cluster_api_provider_clo.Machine.Reconcile.{reconcile_vm}
use cluster_api_provider_clo.World.Calls.{
  power_on_vm, get_guest_customization_section, get_product_section_list, wait_task_completion,
  set_guest_customization_section, set_product_section_list, update_vm_spec_section,
  get_v_app_network, get_network_connection_section, get_secret, get_vm_by_name,
  get_catalog_by_name,
}
use cluster_api_provider_clo.Flow.Steady.{
  Steady, Steady-bind_to, Steady-bind, Steady-deref, Steady-gets, Steady-if, Steady-pure, IsOk,
  Steady-or_else, Goes, Goes-modify, Goes-pure, Goes-bind,
}
use cluster_api_provider_clo.Flow.Steady.Calls.{
  Steady-ask, Steady-told, Steady-perform, Steady-find_ok,
}
use cluster_api_provider_clo.World.Types.{DiskSettings, ok, DiskSection, Named, Org, Vdc}
use cluster_api_provider_clo.Base.{
  ◌≡◌, List, some, ℕ, Bool, ◌∷◌, String, if◌then◌else◌, true, refl, false, Option, ◌∙◌, arith, ap,
  none, [], str_eq,
}
use cluster_api_provider_clo.Machine.Provision.{
  bootstrap_data, customize, update_properties, retry_soon, configure, or_retry,
  or_catalog_not_found, provision, with_provider_id, with_addresses,
}
use cluster_api_provider_clo.Machine.Equipped.{Equips}
use cluster_api_provider_clo.Disks.{disk_section_from_tenant_machine, unchanged, changed}
use cluster_api_provider_clo.Machine.Vm.{
  size_memory, size_cpus, size_disks, Sized, power_on, settings_of, same, update_spec_section,
  with_disks, ensure_vm,
}
use cluster_api_provider_clo.World.{World}
use cluster_api_provider_clo.Api.{TenantMachine, Machine, ℤ, TenantCluster}
use cluster_api_provider_clo.Flow.{◌>>=◌, retry, modify, done, pure}

module _ {c : TenantMachine} where
  Steady-size_memory :
      (mib : ℤ) (sized : Sized) (memory : ℤ)
      → sized.section.memory_resource_mb ≡ some memory
      → Steady c (size_memory mib sized) (λ x.
        (x.section.num_cpus ≡ sized.section.num_cpus)
        × (x.section.disk_section ≡ sized.section.disk_section))
  unfolding size_memory
  Steady-size_memory mib sized memory h = Steady-if _ _ _ (Steady-pure sized (refl, refl)) (
      Steady-bind_to _ _ memory (Steady-deref _ memory h)
        (Steady-pure _ (either (same memory mib))))
    where
      either :
          (b : Bool)
          → ((if b then sized else record {
            section = record sized.section { memory_resource_mb = some mib };
            needs_update = true;
          }).section.num_cpus
              ≡ sized.section.num_cpus)
            × ((if b then sized else record {
              section = record sized.section { memory_resource_mb = some mib };
              needs_update = true;
            }).section.disk_section
                ≡ sized.section.disk_section)
      either true = (refl, refl)
      either false = (refl, refl)

  Steady-size_cpus :
      (n : ℤ) (sized : Sized) (cpus : ℤ)
      → sized.section.num_cpus ≡ some cpus
      → Steady c (size_cpus n sized) (λ x. x.section.disk_section ≡ sized.section.disk_section)
  unfolding size_cpus
  Steady-size_cpus n sized cpus h =
      Steady-if _ _ _ (Steady-pure sized refl)
        (Steady-bind_to _ _ cpus (Steady-deref _ cpus h) (Steady-pure _ (either (same cpus n))))
    where
      either :
          (b : Bool)
          → (if b then sized else record {
            section = record sized.section { num_cpus = some n };
            needs_update = true;
          }).section.disk_section
            ≡ sized.section.disk_section
      either true = refl
      either false = refl

  Steady-size_disks :
      (machine : TenantMachine) (sized : Sized) (first : DiskSettings) (others : List DiskSettings)
      → settings_of sized.section.disk_section ≡ first ∷ others
      → Steady c (size_disks machine sized) (λ _. Unit)
  unfolding size_disks disk_section_from_tenant_machine
  Steady-size_disks machine sized first others h =
      on_settings (settings_of sized.section.disk_section) h
    where
      on_if :
          (b : Bool) (disks : DiskSection)
          → Steady c (with_disks (if b then unchanged else changed disks) sized) (λ _. Unit)
      on_if true disks = Steady-pure _ tt
      on_if false disks = Steady-pure _ tt

      on_settings :
          (settings : List DiskSettings)
          → settings ≡ first ∷ others
          → Steady c
              (with_disks (disk_section_from_tenant_machine settings machine) sized)
              (λ _. Unit)
      on_settings [] e = absurd (empty e)
        where
          empty : [] ≡ first ∷ others → ⊥
          empty p = ground arith
      on_settings (x ∷ xs) e = on_if _ _

  Steady-or_retry :
      {A : Type 0} (o : Option A) (a : A) → o ≡ some a → Steady c (or_retry o) (λ x. x ≡ a)
  Steady-or_retry none a e = absurd (missing e)
    where
      missing : none ≡ some a → ⊥
      missing h = ground arith
  Steady-or_retry (some x) a e = Steady-pure x (ground arith)

Goes-last :
    {d : TenantMachine} (f : TenantMachine → TenantMachine) → Goes d (modify f) (λ _ _. Unit)
unfolding ◌>>=◌
Goes-last f = record { at = λ s h. tt }

module _ (W : World) (owner : Machine) (eq : Equips W owner) {c : TenantMachine} where
  Steady-bootstrap_data : Steady c (bootstrap_data W owner) (λ x. x ≡ eq.value)
  unfolding bootstrap_data
  Steady-bootstrap_data = Steady-bind_to _ _ eq.secret_name (Steady-deref _ _ eq.secret_named) (
      Steady-told W (get_secret (record { name = eq.secret_name; namespace = owner.namespace }))
        (ok eq.secret) _ eq.read
        (Steady-bind_to _ _ eq.secret (Steady-pure _ refl) (Steady-or_retry _ eq.value eq.held)))

  Steady-customize : Steady c (customize W eq.vm) (λ _. Unit)
  unfolding customize
  Steady-customize = Steady-bind _ _ _ (Steady-gets _) λ name _.
      Steady-ask W (get_guest_customization_section eq.vm) retry_soon _ eq.customization λ section.
        Steady-bind _ _ _
          (Steady-perform W (set_guest_customization_section eq.vm _) IsOk (eq.customized _))
          λ a o. Steady-or_else a retry_soon o

  Steady-update_properties :
      (value : List ℕ) (text : String) → Steady c (update_properties W eq.vm value text) (λ _. Unit)
  unfolding update_properties
  Steady-update_properties value text =
      Steady-ask W (get_product_section_list eq.vm) retry_soon _ eq.properties λ sections.
        Steady-bind _ _ _
          (Steady-perform W (set_product_section_list eq.vm _) IsOk (eq.set_properties _))
          λ a o. Steady-or_else a retry o

  Steady-power_on : Steady c (power_on W eq.vm) (λ _. Unit)
  unfolding power_on
  Steady-power_on = Steady-ask W (power_on_vm eq.vm) _ _ eq.powered λ task.
      Steady-bind _ _ _ (Steady-perform W (wait_task_completion task) IsOk (eq.waited task))
        λ a o. Steady-or_else a _ o

  -- The sizing, when the section that is read has all that is looked at.
  Steady-update_spec_section :
      (machine : TenantMachine) → Steady c (update_spec_section W machine eq.vm) (λ _. Unit)
  unfolding update_spec_section
  Steady-update_spec_section machine =
      Steady-bind_to _ _ eq.section (Steady-deref _ _ eq.has_section) (
        Steady-bind _ _ _ (Steady-size_memory _ _ eq.memory eq.has_memory) λ a (p, q).
          Steady-bind _ _ _ (Steady-size_cpus _ a eq.cpus (p ∙ eq.has_cpus)) λ b r.
            Steady-bind _ _ _
              (Steady-size_disks machine b eq.first_disk eq.other_disks
                (ap settings_of (r ∙ q) ∙ eq.has_disks))
              λ d _.
                Steady-if _ _ _
                  (Steady-bind _ _ _
                    (Steady-perform W (update_vm_spec_section eq.vm d.section _) IsOk
                      (eq.sized d.section _))
                    λ x o. Steady-or_else x _ o)
                  (Steady-pure tt tt))

  Goes-configure :
      (cluster : TenantCluster) (v_app : Named)
      → Goes c (configure W cluster owner v_app eq.vm) (λ _ _. Unit)
  unfolding configure
  Goes-configure cluster v_app = Steady-bind_to _ _ eq.value Steady-bootstrap_data (
      Steady-told W (get_v_app_network v_app cluster.spec.network true) (ok eq.network) _
        (eq.networked v_app cluster.spec.network true)
        (Steady-bind_to _ _ eq.network (Steady-pure _ refl) (
          Steady-told W (get_network_connection_section eq.vm) (ok eq.connections) _ eq.connected (
            Steady-bind_to _ _ eq.connections (Steady-pure _ refl) (
              Steady-bind _ _ _ (Steady-or_else _ retry eq.rendered) λ text _.
                Steady-bind _ _ _ Steady-customize λ _ _.
                  Steady-bind _ _ _ (Steady-update_properties eq.value text) λ _ _.
                    Steady-bind _ _ _ (Steady-gets _) λ machine _.
                      Steady-bind _ _ _ (Steady-update_spec_section machine) λ _ _.
                        Steady-bind _ _ _ Steady-power_on λ _ _.
                          Goes-modify (with_provider_id W eq.vm) _
                            (Goes-last (with_addresses W eq.connections.network_connection)))))))

  Steady-catalog :
      (found : Option Named) (catalog : Named)
      → found ≡ some catalog
      → Steady c (or_catalog_not_found W found) (λ x. x ≡ catalog)
  Steady-catalog none catalog e = absurd (missing e)
    where
      missing : none ≡ some catalog → ⊥
      missing h = ground arith
  Steady-catalog (some x) catalog e = Steady-pure x (ground arith)

  Steady-ensure_vm :
      (cluster : TenantCluster) (v_app catalog : Named)
      → Steady c (ensure_vm W cluster v_app catalog) (λ x. x ≡ eq.vm)
  unfolding ensure_vm
  Steady-ensure_vm cluster v_app catalog = Steady-bind _ _ _ (Steady-gets _) λ name _.
      Steady-told W (get_vm_by_name v_app name true) (ok eq.vm) _ (eq.found v_app name true)
        (Steady-bind_to _ _ (some eq.vm) (Steady-pure _ refl) (Steady-pure _ refl))

  Goes-provision :
      (cluster : TenantCluster) (org : Org) (v_app : Named)
      → Goes c (provision W cluster owner org v_app) (λ _ _. Unit)
  unfolding provision
  Goes-provision cluster org v_app = Steady-bind _ _ _ (Steady-gets _) λ name _.
      Steady-bind _ _ _
        (Steady-find_ok W (get_catalog_by_name org name true) _ (eq.catalog org name true))
        λ found (catalog, e). Steady-bind_to _ _ catalog (Steady-catalog found catalog e) (
          Steady-bind_to _ _ eq.vm (Steady-ensure_vm cluster v_app catalog)
            (Goes-configure cluster v_app))

-- From the provider id on, a worker is completed.
pub Goes-reconcile_vm :
    (W : World) (owner : Machine) (eq : Equips W owner) (c : TenantMachine)
    (cluster : TenantCluster) (org : Org) (vdc : Vdc) (v_app : Named)
    → W.is_control_plane_machine owner ≡ false
    → Goes c
        (reconcile_vm W cluster owner org vdc v_app)
        (λ r d. (r ≡ done) × (d.status.ready ≡ true))
unfolding reconcile_vm
Goes-reconcile_vm W owner eq c cluster org vdc v_app worker =
    Steady-bind _ _ _ (Steady-gets _) λ id _.
      Goes-bind (λ _ _. Unit) _ _ (on_if (str_eq id ""))
        λ _ d _.
          Steady-bind _ _ _ (joined d)
            λ _ _. Goes-modify _ _ (Goes-modify _ _ (Goes-pure _ done (refl, refl)))
  where
    on_if :
        (b : Bool)
        → Goes c (if b then provision W cluster owner org v_app else pure tt) (λ _ _. Unit)
    on_if true = Goes-provision W owner eq cluster org v_app
    on_if false = Goes-pure _ tt tt

    joined :
        (d : TenantMachine)
        → Steady d
            (if W.is_control_plane_machine owner then join_load_balancer W cluster vdc else pure tt)
            (λ _. Unit)
    joined d = rw (worker) (Steady-pure tt tt)
