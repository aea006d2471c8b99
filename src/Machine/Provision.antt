-- ===== src/Machine/Provision.antt =====
-- The part of `Reconcile` that runs while a machine has no provider id.
use cluster_api_provider_clo.Machine.Vm.{ensure_vm, update_spec_section, power_on}
use cluster_api_provider_clo.CloudInit.{execute_cloud_init_template}
use cluster_api_provider_clo.Machine.Properties.{set_properties}
use cluster_api_provider_clo.ClientCache.{data_of}
use cluster_api_provider_clo.Api.Conditions.{catalog_not_found_reason, cloud_director_error_reason}
use cluster_api_provider_clo.Vcdutil.{find}
use cluster_api_provider_clo.World.Calls.{
  get_guest_customization_section, get_v_app_network, get_secret, get_product_section_list,
  get_catalog_by_name, set_guest_customization_section, set_product_section_list,
  get_network_connection_section,
}
use cluster_api_provider_clo.Api.{Machine, TenantCluster, TenantMachine, MachineAddress}
use cluster_api_provider_clo.Machine.Object.{T, with_status, waiting, not_ready_retry}
use cluster_api_provider_clo.Base.{Option, List, ℕ, some, String, ◌<>◌, map, true, none}
use cluster_api_provider_clo.World.Types.{GoError, Named, Vm, NetworkConnection, Org}
use cluster_api_provider_clo.World.{World}
use cluster_api_provider_clo.Flow.{
  ◌>>=◌, ◌>>◌, return, gets, perform, pure, requeue, deref, modify, or_else, retry,
}

abbrev pub or_catalog_not_found : (W : World) → Option Named → T Named
or_catalog_not_found W (some catalog) = pure catalog
or_catalog_not_found W none = do modify (waiting W catalog_not_found_reason); return (requeue 60)

-- `CloudDirectorTenantMachineRequeue`
abbrev pub retry_soon : {A : Type 0} → GoError → T A
retry_soon e = return (requeue 20)

abbrev pub or_retry : {A : Type 0} → Option A → T A
or_retry (some a) = pure a
or_retry none = return (requeue 60)

-- `secret.Data["value"]`, and the name of the bootstrap secret, which is a pointer.
module _ (W : World) where
  unfoldable pub bootstrap_data : Machine → T (List ℕ)
  bootstrap_data owner = do
    name ← deref owner.data_secret_name
    a ← perform W (get_secret (record { name = name; namespace = owner.namespace }))
    secret ← or_else a retry
    or_retry (data_of "value" secret.entries)

  unfoldable pub customize : Vm → T (Unit {0})
  customize vm = do
    name ← gets (λ m. m.metadata.name)
    a ← perform W (get_guest_customization_section vm)
    section ← or_else a retry_soon
    b ← perform W (set_guest_customization_section vm (record section { computer_name = name }))
    or_else b retry_soon

  unfoldable pub update_properties : Vm → List ℕ → String → T (Unit {0})
  update_properties vm value cloud_init = do
    a ← perform W (get_product_section_list vm)
    sections ← or_else a retry_soon
    b ← perform W (
        set_product_section_list vm (record sections {
          property =
              set_properties (W.encode_bytes value) (W.encode_text cloud_init) sections.property;
        }))
    or_else b retry

  abbrev pub addresses_of : List NetworkConnection → List MachineAddress
  addresses_of = map (λ n. record { type = W.machine_internal_ip; address = n.ip_address })

  abbrev pub with_addresses : Option (List NetworkConnection) → TenantMachine → TenantMachine
  with_addresses none m = m
  with_addresses (some connections) m =
      with_status (λ s. record s { addresses = addresses_of connections }) m

  abbrev pub with_provider_id : Vm → TenantMachine → TenantMachine
  with_provider_id vm m = record m {
    spec = record m.spec { provider_id = "vmware-cloud-director://" <> vm.id };
  }

  unfoldable pub configure : TenantCluster → Machine → Named → Vm → T (Unit {0})
  configure cluster owner v_app vm = do
    value ← bootstrap_data owner
    a ← perform W (get_v_app_network v_app cluster.spec.network true)
    network ← or_else a retry
    b ← perform W (get_network_connection_section vm)
    section ← or_else b retry
    cloud_init ← or_else (execute_cloud_init_template W vm network section) retry
    customize vm
    update_properties vm value cloud_init
    machine ← gets (λ m. m)
    update_spec_section W machine vm
    power_on W vm
    modify (with_provider_id vm)
    modify (with_addresses section.network_connection)

  unfoldable pub provision : TenantCluster → Machine → Org → Named → T (Unit {0})
  provision cluster owner org v_app = do
    name ← gets (λ m. m.spec.catalog)
    found ←
        find W (get_catalog_by_name org name true)
          (not_ready_retry W cloud_director_error_reason "error getting catalog: ")
    catalog ← or_catalog_not_found W found
    vm ← ensure_vm W cluster v_app catalog
    configure cluster owner v_app vm
