-- ===== src/Cluster/Kinds.antt =====
-- Calls by what they do to Cloud Director, and the rule set of the proofs about them.
use cluster_api_provider_clo.Base.{Bool, true, false, not, List, [], ◌∷◌, String}
use cluster_api_provider_clo.Api.{Machine, TenantCluster}
use cluster_api_provider_clo.World.{World}
use cluster_api_provider_clo.World.Calls.{
  Call, create_firewall_group, create_alb_pool, create_virtual_service, create_raw_v_app,
  add_org_network, power_on_v_app, add_new_vm, power_on_vm, delete_virtual_service, delete_alb_pool,
  delete_firewall_group, undeploy_v_app, delete_v_app, delete_vm,
}
use cluster_api_provider_clo.Flow.{Session}
use cluster_api_provider_clo.Flow.Rules.{
  Preserves, Preserves-pure, Preserves-return, Preserves-panic, OnlyCalls, preserves_rules,
}
use cluster_api_provider_clo.Vcdutil.Rules.{Preserves-find, vcd_rules}
use cluster_api_provider_clo.ClientCache.Rules.{KeptByClient}
use cluster_api_provider_clo.Cluster.Delete.{no_machines, no_addresses}
use cluster_api_provider_clo.Cluster.Reconcile.{first}

-- The call makes or starts something in Cloud Director.
abbrev pub is_creation : Call → Bool
is_creation (create_firewall_group vdc config) = true
is_creation (create_alb_pool client config) = true
is_creation (create_virtual_service client config) = true
is_creation (create_raw_v_app vdc name description) = true
is_creation (add_org_network v_app network retain) = true
is_creation (power_on_v_app v_app) = true
is_creation (add_new_vm v_app name template section powered) = true
is_creation (power_on_vm vm) = true
is_creation _ = false

-- The call stops or deletes something in Cloud Director.
abbrev pub is_removal : Call → Bool
is_removal (delete_virtual_service service) = true
is_removal (delete_alb_pool pool) = true
is_removal (delete_firewall_group group) = true
is_removal (undeploy_v_app v_app) = true
is_removal (delete_v_app v_app) = true
is_removal (delete_vm vm) = true
is_removal _ = false

abbrev pub creates_nothing : Call → Bool
creates_nothing c = not (is_creation c)

abbrev pub removes_nothing : Call → Bool
removes_nothing c = not (is_removal c)

module _ (W : World) {O : Type 0} where
  pub creates_nothing-KeptByClient : KeptByClient W {O = O} (OnlyCalls creates_nothing)
  creates_nothing-KeptByClient = record {
    secret = λ k. search preserves_rules;
    hit = λ k. search preserves_rules;
    add = λ k c t. search preserves_rules;
    token = λ c o t. search preserves_rules;
  }

  pub removes_nothing-KeptByClient : KeptByClient W {O = O} (OnlyCalls removes_nothing)
  removes_nothing-KeptByClient = record {
    secret = λ k. search preserves_rules;
    hit = λ k. search preserves_rules;
    add = λ k c t. search preserves_rules;
    token = λ c o t. search preserves_rules;
  }

module _ {P : Session TenantCluster → Type 0} where
  pub Preserves-no_machines : (machines : List Machine) → Preserves P (no_machines machines)
  Preserves-no_machines [] = Preserves-pure tt
  Preserves-no_machines (m ∷ ms) = Preserves-return _

  pub Preserves-no_addresses : (addresses : List String) → Preserves P (no_addresses addresses)
  Preserves-no_addresses [] = Preserves-pure tt
  Preserves-no_addresses (a ∷ rest) = Preserves-return _

  pub Preserves-first : (addresses : List String) → Preserves P (first addresses)
  Preserves-first [] = Preserves-panic
  Preserves-first (a ∷ rest) = Preserves-pure a

pub ruleset cluster_rules =
    (vcd_rules, Preserves-no_machines, Preserves-no_addresses, Preserves-first)
