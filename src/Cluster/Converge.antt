-- ===== src/Cluster/Converge.antt =====
-- A reconciliation of the cluster controller that finds all four parts.
use cluster_api_provider_clo.Flow.Rules.{bind_next}
use cluster_api_provider_clo.Vcdutil.{find}
use cluster_api_provider_clo.Api.Conditions.{
  ip_set_ready_condition, pool_ready_condition, virtual_service_ready_condition,
  v_app_ready_condition,
}
use cluster_api_provider_clo.Cluster.Parts.{
  ensure_firewall_group, ensure_alb_pool, ensure_virtual_service, ensure_v_app,
}
use cluster_api_provider_clo.Names.{resource_name_with_use, use_control_plane, resource_name}
use cluster_api_provider_clo.Cluster.Reconcile.{ensure_parts, record_parts}
use cluster_api_provider_clo.Cluster.Object.{with_status, with_true, reference}
use cluster_api_provider_clo.Flow.{Session, ◌>>=◌, perform, next, done}
use cluster_api_provider_clo.Api.{TenantCluster}
use cluster_api_provider_clo.Base.{none, String, true, ◌∷◌, some, ◌≡◌, arith, Option, refl, ◌∙◌}
use cluster_api_provider_clo.World.Types.{Named, VcdClient, FirewallGroup, Vdc, ok}
use cluster_api_provider_clo.World.Calls.{
  Call, get_firewall_group_by_name, get_alb_pool_by_name, get_virtual_service_by_name,
  get_v_app_by_name,
}
use cluster_api_provider_clo.World.{World, Event, Trace}

-- The status with all four parts recorded, in the order of the assignments.
abbrev pub recorded : World → Named → Named → Named → FirewallGroup → TenantCluster → TenantCluster
recorded W v_app service pool group c =
    with_status (λ s. record s { ready = true })
      (with_true W ip_set_ready_condition (
        with_status (λ s. record s { ip_set = some (record { id = group.id; name = group.name }) })
          (with_true W pool_ready_condition (
            with_status (λ s. record s { pool = some (reference pool) })
              (with_true W virtual_service_ready_condition (
                with_status (λ s. record s { virtual_service = some (reference service) })
                  (with_true W v_app_ready_condition
                    (with_status (λ s. record s { v_app = some (reference v_app) }) c))))))))

abbrev event : Call → Event
event c = record { call = c; error = none }

module _ (W : World) (client : VcdClient) (vdc : Vdc) (gateway : Named)
    (s : Session TenantCluster) where
  abbrev shared_name : String
  shared_name = resource_name_with_use s.object use_control_plane

  abbrev pub after_group : Trace
  after_group =
      event (get_firewall_group_by_name vdc shared_name W.firewall_group_type_ip_set) ∷ s.trace

  abbrev pub after_pool : Trace
  after_pool = event (get_alb_pool_by_name client gateway.id shared_name) ∷ after_group

  abbrev pub after_service : Trace
  after_service = event (get_virtual_service_by_name client gateway.id shared_name) ∷ after_pool

  abbrev pub after_v_app : Trace
  after_v_app = event (get_v_app_by_name vdc (resource_name s.object) true) ∷ after_service

  group_found :
      (group : FirewallGroup)
      → W.answer s.trace (get_firewall_group_by_name vdc shared_name W.firewall_group_type_ip_set)
        ≡ ok group
      → ensure_firewall_group W vdc gateway s
        ≡ (next (some group), record s { trace = after_group })
  unfolding ensure_firewall_group ◌>>=◌ perform
  group_found group e = ground arith

  pool_found :
      (group : Option FirewallGroup) (pool : Named)
      → W.answer after_group (get_alb_pool_by_name client gateway.id shared_name) ≡ ok pool
      → ensure_alb_pool W client gateway group (record s { trace = after_group })
        ≡ (next (some pool), record s { trace = after_pool })
  unfolding ensure_alb_pool ◌>>=◌ perform
  pool_found group pool e = ground arith

  service_found :
      (pool : Option Named) (service : Named)
      → W.answer after_pool (get_virtual_service_by_name client gateway.id shared_name) ≡ ok service
      → ensure_virtual_service W client gateway pool (record s { trace = after_pool })
        ≡ (next service, record s { trace = after_service })
  unfolding ensure_virtual_service ◌>>=◌ perform find
  service_found pool service e = ground arith

  v_app_found :
      (v_app : Named)
      → W.answer after_service (get_v_app_by_name vdc (resource_name s.object) true) ≡ ok v_app
      → ensure_v_app W vdc (record s { trace = after_service })
        ≡ (next v_app, record s { trace = after_v_app })
  unfolding ensure_v_app ◌>>=◌ perform find
  v_app_found v_app e = ground arith

  recorded_all :
      (v_app service pool : Named) (group : FirewallGroup)
      → record_parts W v_app service (some pool) (some group) (record s { trace = after_v_app }) ≡ (
        next done,
        record { object = recorded W v_app service pool group s.object; trace = after_v_app },
      )
  unfolding record_parts ◌>>=◌
  recorded_all v_app service pool group = refl

  -- When all four parts are found by name, they are recorded, the cluster is ready, and the four
  -- look-ups are the only calls.
  pub ensure_parts_found :
      (group : FirewallGroup) (pool service v_app : Named)
      → W.answer s.trace (get_firewall_group_by_name vdc shared_name W.firewall_group_type_ip_set)
        ≡ ok group
      → W.answer after_group (get_alb_pool_by_name client gateway.id shared_name) ≡ ok pool
      → W.answer after_pool (get_virtual_service_by_name client gateway.id shared_name) ≡ ok service
      → W.answer after_service (get_v_app_by_name vdc (resource_name s.object) true) ≡ ok v_app
      → ensure_parts W client vdc gateway s ≡ (
        next done,
        record { object = recorded W v_app service pool group s.object; trace = after_v_app },
      )
  unfolding ensure_parts
  ensure_parts_found group pool service v_app a b c d =
      bind_next _ _ (group_found group a)
      ∙ bind_next _ _ (pool_found (some group) pool b)
      ∙ bind_next _ _ (service_found (some pool) service c)
      ∙ bind_next _ _ (v_app_found v_app d)
      ∙ recorded_all v_app service pool group
