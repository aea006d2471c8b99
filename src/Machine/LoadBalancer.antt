-- ===== src/Machine/LoadBalancer.antt =====
-- The membership of a control plane machine in the firewall group behind the load balancer.
use cluster_api_provider_clo.Api.Conditions.{load_balancer_member_condition}
use cluster_api_provider_clo.Machine.Provision.{retry_soon}
use cluster_api_provider_clo.World.Calls.{update_firewall_group, get_firewall_group_by_id}
use cluster_api_provider_clo.Machine.Object.{T, not_member, internal_ip_address, with_true}
use cluster_api_provider_clo.Api.{TenantCluster}
use cluster_api_provider_clo.World.Types.{FirewallGroup, Vdc}
use cluster_api_provider_clo.World.{World}
use cluster_api_provider_clo.Base.{
  String, List, Bool, ◌∷◌, false, if◌then◌else◌, str_eq, ◌||◌, [], ◌++◌, ◌<>◌,
}
use cluster_api_provider_clo.Flow.{
  ◌>>=◌, ◌>>◌, deref, pure, perform, or_else, modify, gets, retry, return, requeue,
}
pub mod Members

-- `slices.ContainsFunc` and `slices.DeleteFunc` with the equality of texts.
unfoldable pub contains : String → List String → Bool
contains address [] = false
contains address (a ∷ rest) = str_eq a address || contains address rest

unfoldable pub delete : String → List String → List String
delete address [] = []
delete address (a ∷ rest) =
    let others = delete address rest in if str_eq a address then others else a ∷ others

module _ (W : World) where
  unfoldable pub add_member : FirewallGroup → String → T (Unit {0})
  add_member group address = if contains address group.ip_addresses then pure tt else do
    a ← perform W (
        update_firewall_group
          (record group { ip_addresses = group.ip_addresses ++ (address ∷ []) }))
    or_else a
        λ e. do modify (not_member W ("error updating firewall group: " <> e.message)); retry e
    pure tt

  unfoldable pub join_load_balancer : TenantCluster → Vdc → T (Unit {0})
  join_load_balancer cluster vdc = do
    ref ← deref cluster.status.ip_set
    a ← perform W (get_firewall_group_by_id vdc ref.id)
    group ← or_else a λ e. do
      modify (not_member W ("error getting nsxt firewall group: " <> e.message))
      retry_soon e
    address ← gets (λ m. internal_ip_address W "" m.status.addresses)
    if str_eq address "" then return (requeue 60) else add_member group address
    modify (with_true W load_balancer_member_condition)

  unfoldable pub leave_load_balancer : TenantCluster → Vdc → T (Unit {0})
  leave_load_balancer cluster vdc = do
    address ← gets (λ m. internal_ip_address W "" m.status.addresses)
    if str_eq address "" then pure tt else remove_member cluster vdc address
    where
      remove_member : TenantCluster → Vdc → String → T (Unit {0})
      remove_member cluster vdc address = do
        ref ← deref cluster.status.ip_set
        a ← perform W (get_firewall_group_by_id vdc ref.id)
        group ← or_else a retry_soon
        b ← perform W (
            update_firewall_group
              (record group { ip_addresses = delete address group.ip_addresses }))
        or_else b retry_soon
        pure tt
