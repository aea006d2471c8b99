-- ===== src/Examples/Granting.antt =====
-- A world that grants every request of the cluster controller.
use cluster_api_provider_clo.Examples.Data.{
  world, owner_cluster, secret, client, org, vdc, gateway, pool, service, v_app, not_found,
}
use cluster_api_provider_clo.World.Calls.{
  Call, Reply, get_owner_cluster, get_secret, get_filtered_machines_for_cluster, cache_get,
  set_api_token, get_session_info, get_org_by_name, get_vdc_by_name, get_edge_gateway,
  get_unused_external_ip_addresses, create_firewall_group, create_alb_pool,
  get_service_engine_group_assignment, create_virtual_service, create_raw_v_app,
  get_org_vdc_network, add_org_network, power_on_v_app, patch_cluster, get_virtual_service_by_id,
  delete_virtual_service, get_alb_pool_by_id, delete_alb_pool, get_firewall_group_by_id,
  delete_firewall_group, get_v_app_by_id, get_v_app_status, undeploy_v_app, wait_task_completion,
  delete_v_app,
}
use cluster_api_provider_clo.Base.{[], some, ◌∷◌}
use cluster_api_provider_clo.World.{Trace, World}
use cluster_api_provider_clo.World.Types.{FirewallGroup, Task, Answer, ok, err}

abbrev pub empty_group : FirewallGroup
empty_group = record { id = "group-id"; name = "group"; ip_addresses = [] }

abbrev task : Task
task = record { id = "task" }

-- The parts are not found by name, and found by their identifiers.
abbrev pub granting_answer : Trace → (c : Call) → Answer (Reply c)
granting_answer t (get_owner_cluster meta) = ok (some owner_cluster)
granting_answer t (get_secret key) = ok secret
granting_answer t (get_filtered_machines_for_cluster owner) = ok []
granting_answer t (cache_get key) = ok client
granting_answer t (set_api_token c organization token) = ok "token"
granting_answer t (get_session_info c) = ok (record { org_name = "org" })
granting_answer t (get_org_by_name c name) = ok org
granting_answer t (get_vdc_by_name o name refresh) = ok vdc
granting_answer t (get_edge_gateway o name id) = ok gateway
granting_answer t (get_unused_external_ip_addresses g n) = ok ("10.0.0.1" ∷ [])
granting_answer t (create_firewall_group v config) = ok empty_group
granting_answer t (create_alb_pool c config) = ok pool
granting_answer t (get_service_engine_group_assignment c name filter) = ok service
granting_answer t (create_virtual_service c config) = ok service
granting_answer t (create_raw_v_app v name text) = ok v_app
granting_answer t (get_org_vdc_network v name refresh) =
    ok (record { id = "network-id"; name = "network" })
granting_answer t (add_org_network v n retain) = ok tt
granting_answer t (power_on_v_app v) = ok task
granting_answer t (patch_cluster a b owned) = ok tt
granting_answer t (get_virtual_service_by_id c id) = ok service
granting_answer t (delete_virtual_service s) = ok tt
granting_answer t (get_alb_pool_by_id c id) = ok pool
granting_answer t (delete_alb_pool p) = ok tt
granting_answer t (get_firewall_group_by_id v id) = ok empty_group
granting_answer t (delete_firewall_group g) = ok tt
granting_answer t (get_v_app_by_id v id refresh) = ok v_app
granting_answer t (get_v_app_status v) = ok "POWERED_ON"
granting_answer t (undeploy_v_app v) = ok task
granting_answer t (wait_task_completion x) = ok tt
granting_answer t (delete_v_app v) = ok task
granting_answer t c = err not_found

abbrev pub granting : World
granting = record world { answer = granting_answer }
