-- ===== src/Machine/Order.antt =====
-- The order of the calls that build a virtual machine.
use cluster_api_provider_clo.Machine.Sent.{
  HasOrder, IsBootstrap, IsConfigured, Ordered, IsMetadata, order_rules, bootstrap_data-IsBootstrap,
  InOrder-other, Triple-given, Gives-or_else,
}
use cluster_api_provider_clo.CloudInit.{execute_cloud_init_template}
use cluster_api_provider_clo.Machine.Properties.{set_properties}
use cluster_api_provider_clo.Machine.Properties.Lookup.{set_properties-lookup}
use cluster_api_provider_clo.Machine.Reconcile.{reconcile_vm}
use cluster_api_provider_clo.Machine.LoadBalancer.{join_load_balancer, add_member}
use cluster_api_provider_clo.Machine.Object.{T}
use cluster_api_provider_clo.Flow.Triples.{
  Triple, Post, Triple-after, Triple-bind, Triple-keep, Triple-of_Preserves,
}
use cluster_api_provider_clo.Flow.Rules.{Preserves}
use cluster_api_provider_clo.Machine.Vm.{
  update_spec_section, power_on, add_vm, add_named, ensure_vm,
}
use cluster_api_provider_clo.Machine.Provision.{
  update_properties, customize, configure, provision, with_provider_id, with_addresses,
}
use cluster_api_provider_clo.Api.{TenantMachine, TenantCluster, Machine}
use cluster_api_provider_clo.World.Calls.{set_product_section_list}
use cluster_api_provider_clo.World.{World}
use cluster_api_provider_clo.World.Types.{
  Vm, ProductSectionList, error_of, NetworkConnection, Named, Org, Vdc, Answer, ok, err,
}
use cluster_api_provider_clo.Base.{◌≡◌, Option, List, arith, ℕ, ap, String, refl, inl}
use cluster_api_provider_clo.Flow.{
  ◌>>=◌, ◌>>◌, Session, perform, modify, gets, Flow, next, ret, crash, or_else, retry,
}

module _ (W : World) (owner : Machine) (vm : Vm) where
  -- Configured, and in order so far.
  abbrev Ready : Session TenantMachine → Type 0
  Ready s = HasOrder W owner s × IsConfigured W owner vm s

  sent-Ready :
      (b : Answer (Unit {0}))
      → Triple
          (λ s. HasOrder W owner s × (b ≡ ok tt → IsConfigured W owner vm s))
          (or_else b retry)
          (λ _. Ready)
          (HasOrder W owner)
  unfolding ◌>>=◌
  sent-Ready (ok u) = record { at = λ s h. (h.0, h.1 refl) }
  sent-Ready (err e) = record { at = λ s h. h.0 }

  -- The list with both properties.
  abbrev extended : List ℕ → String → ProductSectionList → ProductSectionList
  extended value text sections = record sections {
    property = set_properties (W.encode_bytes value) (W.encode_text text) sections.property;
  }

  set_list :
      (value : List ℕ) (text : String) (sections : ProductSectionList)
      → IsBootstrap W owner value
      → IsMetadata W vm text
      → Triple
          (HasOrder W owner)
          (perform W (set_product_section_list vm (extended value text sections)))
          (λ b s. HasOrder W owner s × (b ≡ ok tt → IsConfigured W owner vm s))
          (HasOrder W owner)
  unfolding perform
  set_list value text sections boot meta =
      let call = set_product_section_list vm (extended value text sections) in
      let shown =
        set_properties-lookup (W.encode_bytes value) (W.encode_text text) "" sections.property in
      record {
        at = λ s h. (
          record {
            ordered =
                (InOrder-other W owner call (error_of (W.answer s.trace call)) _ refl, h.ordered);
          },
          λ e. record {
            configured = inl (
              extended value text sections,
              value,
              text,
              refl,
              ap error_of e,
              boot,
              meta,
              shown.0,
              shown.1,
            );
          },
        );
      }

  update_properties-Ready :
      (value : List ℕ) (text : String)
      → IsBootstrap W owner value
      → IsMetadata W vm text
      → Triple
          (HasOrder W owner)
          (update_properties W vm value text)
          (λ _. Ready)
          (HasOrder W owner)
  unfolding update_properties
  update_properties-Ready value text boot meta = Triple-after _ _ (search order_rules depth 12) λ a.
      Triple-after _ _ (search order_rules depth 12)
        λ sections. Triple-bind _ _ (set_list value text sections boot meta) sent-Ready

  update_spec_section-IsConfigured :
      (machine : TenantMachine)
      → Preserves (IsConfigured W owner vm) (update_spec_section W machine vm)
  unfolding update_spec_section
  update_spec_section-IsConfigured machine = search order_rules depth 30

  update_spec_section-HasOrder :
      (machine : TenantMachine) → Preserves (HasOrder W owner) (update_spec_section W machine vm)
  unfolding update_spec_section
  update_spec_section-HasOrder machine = search order_rules depth 30

  power_on-HasOrder : Triple Ready (power_on W vm) (λ _. (HasOrder W owner)) (HasOrder W owner)
  unfolding power_on ◌>>=◌ perform
  power_on-HasOrder = record { at = λ s h. ground arith }

  gets-Ready :
      {A : Type 0} (f : TenantMachine → A) → Triple Ready (gets f) (λ _. Ready) (HasOrder W owner)
  unfolding ◌>>=◌
  gets-Ready f = record { at = λ s h. h }

  switched_on :
      (connections : Option (List NetworkConnection))
      → Triple Ready
          (do
            machine ← gets (λ m. m)
            update_spec_section W machine vm
            power_on W vm
            modify (with_provider_id W vm)
            modify (with_addresses W connections))
          (λ _. (HasOrder W owner))
          (HasOrder W owner)
  switched_on connections = Triple-bind _ _ (gets-Ready _) λ machine.
      Triple-bind _ _
        (Triple-keep _ _ (Triple-of_Preserves _ (update_spec_section-HasOrder machine))
          (update_spec_section-IsConfigured machine))
        λ _.
          Triple-bind _ _ power_on-HasOrder λ _. Triple-of_Preserves _ (search order_rules depth 12)

  configured_on :
      (value : List ℕ) (text : String) (connections : Option (List NetworkConnection))
      → IsBootstrap W owner value
      → IsMetadata W vm text
      → Triple
          (HasOrder W owner)
          (do
            update_properties W vm value text
            machine ← gets (λ m. m)
            update_spec_section W machine vm
            power_on W vm
            modify (with_provider_id W vm)
            modify (with_addresses W connections))
          (λ _. (HasOrder W owner))
          (HasOrder W owner)
  configured_on value text connections boot meta =
      Triple-bind _ _ (update_properties-Ready value text boot meta) λ _. switched_on connections

Post-both :
    {A : Type 0} (P : Session TenantMachine → Type 0) (f : Flow A) (s : Session TenantMachine)
    → Post (λ _. P) P f s
    → P s
Post-both P (next a) s h = h
Post-both P (ret r) s h = h
Post-both P crash s h = h

Preserves-of_Triple :
    {A : Type 0} (P : Session TenantMachine → Type 0) (m : T A)
    → Triple P m (λ _. P) P
    → Preserves P m
Preserves-of_Triple P m h = record { at = λ s p. Post-both P (m s).0 (m s).1 (h.at s p) }

module _ (W : World) (owner : Machine) where
  customize-HasOrder : (vm : Vm) → Preserves (HasOrder W owner) (customize W vm)
  unfolding customize
  customize-HasOrder vm = search order_rules depth 30

  configure-HasOrder :
      (cluster : TenantCluster) (v_app : Named) (vm : Vm)
      → Triple
          (HasOrder W owner)
          (configure W cluster owner v_app vm)
          (λ _. HasOrder W owner)
          (HasOrder W owner)
  unfolding configure
  configure-HasOrder cluster v_app vm =
      Triple-bind _ _ (bootstrap_data-IsBootstrap W owner) λ value. Triple-given _ λ boot.
        Triple-after _ _ (search order_rules depth 12) λ a.
          Triple-after _ _ (search order_rules depth 12) λ network.
            Triple-after _ _ (search order_rules depth 12) λ b.
              Triple-after _ _ (search order_rules depth 12) λ section.
                Triple-bind _ _
                  (Gives-or_else W owner (execute_cloud_init_template W vm network section))
                  λ text. Triple-given _ λ e. Triple-after _ _ (customize-HasOrder vm) λ _.
                    configured_on W owner vm value text section.network_connection boot
                      (network, section, e)

  add_vm-HasOrder :
      (cluster : TenantCluster) (v_app catalog : Named)
      → Preserves (HasOrder W owner) (add_vm W cluster v_app catalog)
  unfolding add_vm add_named
  add_vm-HasOrder cluster v_app catalog = search order_rules depth 40

  ensure_vm-HasOrder :
      (cluster : TenantCluster) (v_app catalog : Named)
      → Preserves (HasOrder W owner) (ensure_vm W cluster v_app catalog)
  unfolding ensure_vm
  ensure_vm-HasOrder cluster v_app catalog = search (order_rules, add_vm-HasOrder) depth 40

  configure_kept :
      (cluster : TenantCluster) (v_app : Named) (vm : Vm)
      → Preserves (HasOrder W owner) (configure W cluster owner v_app vm)
  configure_kept cluster v_app vm = Preserves-of_Triple _ _ (configure-HasOrder cluster v_app vm)

  provision-HasOrder :
      (cluster : TenantCluster) (org : Org) (v_app : Named)
      → Preserves (HasOrder W owner) (provision W cluster owner org v_app)
  unfolding provision
  provision-HasOrder cluster org v_app =
      search (order_rules, ensure_vm-HasOrder, configure_kept) depth 40

  join_load_balancer-HasOrder :
      (cluster : TenantCluster) (vdc : Vdc)
      → Preserves (HasOrder W owner) (join_load_balancer W cluster vdc)
  unfolding join_load_balancer add_member
  join_load_balancer-HasOrder cluster vdc = search order_rules depth 40

  reconcile_vm-HasOrder :
      (cluster : TenantCluster) (org : Org) (vdc : Vdc) (v_app : Named)
      → Preserves (HasOrder W owner) (reconcile_vm W cluster owner org vdc v_app)
  unfolding reconcile_vm
  reconcile_vm-HasOrder cluster org vdc v_app =
      search (order_rules, provision-HasOrder, join_load_balancer-HasOrder) depth 40

-- A virtual machine is switched on only after a call for it has gone through whose list held, as the
-- user data, the value of the owner's bootstrap secret and, as the metadata, the text of the
-- cloud-init template for it: if that holds of the calls made before, it holds after the
-- reconciliation of the virtual machine, however it ends.
pub reconcile_vm-Ordered :
    (W : World) (cluster : TenantCluster) (owner : Machine) (org : Org) (vdc : Vdc) (v_app : Named)
    (s : Session TenantMachine)
    → Ordered W owner s.trace
    → Ordered W owner (reconcile_vm W cluster owner org vdc v_app s).1.trace
reconcile_vm-Ordered W cluster owner org vdc v_app s h =
    ((reconcile_vm-HasOrder W owner cluster org vdc v_app).at s (record { ordered = h })).ordered
