-- ===== src/Cluster/Endpoint.antt =====
-- The endpoint of the control plane.
use cluster_api_provider_clo.Api.Conditions.{external_ip_address_ready, cloud_director_error_reason}
use cluster_api_provider_clo.ClientCache.{get_vcd_client}
use cluster_api_provider_clo.Cluster.Object.{
  with_status, with_finalizer, without_finalizer, with_error,
}
use cluster_api_provider_clo.World.Types.{VcdClient, Vdc, Named, FirewallGroup}
use cluster_api_provider_clo.World.Calls.{
  Call, get_org_by_name, get_vdc_by_name, get_edge_gateway, patch_cluster,
}
use cluster_api_provider_clo.Base.{
  String, str_eq, ◌≡◌, Option, ◌⊎◌, true, inr, refl, Bool, inl, if◌then◌else◌, ap, sym, false, ◌∙◌,
}
use cluster_api_provider_clo.Cluster.Reconcile.{
  record_parts, with_endpoint, allocate_endpoint, ensure_parts, reconcile_normal, add_finalizer_or,
  reconcile_object, patch_tenant_cluster, reconcile_fetched,
}
use cluster_api_provider_clo.Cluster.Parts.{
  ensure_firewall_group, ensure_alb_pool, ensure_virtual_service, ensure_v_app, C,
}
use cluster_api_provider_clo.Cluster.Delete.{
  remove_virtual_service, remove_alb_pool, remove_firewall_group, remove_v_app, reconcile_delete,
  remove_parts,
}
use cluster_api_provider_clo.ClientCache.Rules.{KeptByClient, Preserves-get_vcd_client}
use cluster_api_provider_clo.Cluster.Kinds.{cluster_rules}
use cluster_api_provider_clo.Flow.Rules.{Preserves, Preserves-bind, Preserves-defer, Preserves-gets}
use cluster_api_provider_clo.World.{World, Trace}
use cluster_api_provider_clo.Api.{ApiEndpoint, TenantClusterStatus, TenantCluster, Cluster}
use cluster_api_provider_clo.Flow.{
  ◌>>=◌, ◌>>◌, Session, perform, modify, Return, or_done, or_else, retry, deref,
}

-- The endpoint is the one given, or that one had no host and this one has the port of the API
-- server.
pub record HasEndpoint (e : ApiEndpoint) (s : Session TenantCluster) : Type 0 where
  pub endpoint :
      (s.object.spec.control_plane_endpoint ≡ e)
      ⊎ ((str_eq e.host "" ≡ true) × (s.object.spec.control_plane_endpoint.port ≡ 6443))

module _ (W : World) (e : ApiEndpoint) where
  HasEndpoint-perform : (c : Call) → Preserves (HasEndpoint e) (perform W c)
  unfolding perform
  HasEndpoint-perform c = record { at = λ s h. record { endpoint = h.endpoint } }

  HasEndpoint-modify :
      (f : TenantClusterStatus → TenantClusterStatus)
      → Preserves (HasEndpoint e) (modify (with_status f))
  unfolding ◌>>=◌
  HasEndpoint-modify f = record { at = λ s h. record { endpoint = h.endpoint } }

  HasEndpoint-with_finalizer : Preserves (HasEndpoint e) (modify (with_finalizer W))
  unfolding ◌>>=◌
  HasEndpoint-with_finalizer = record { at = λ s h. record { endpoint = h.endpoint } }

  HasEndpoint-without_finalizer : Preserves (HasEndpoint e) (modify (without_finalizer W))
  unfolding ◌>>=◌
  HasEndpoint-without_finalizer = record { at = λ s h. record { endpoint = h.endpoint } }

  ruleset endpoint_rules = (
    cluster_rules, HasEndpoint-perform, HasEndpoint-modify, HasEndpoint-with_finalizer,
    HasEndpoint-without_finalizer,
  )

  HasEndpoint-KeptByClient : KeptByClient W (HasEndpoint e)
  HasEndpoint-KeptByClient = record {
    secret = λ k. search HasEndpoint-perform;
    hit = λ k. search HasEndpoint-perform;
    add = λ k d t. search HasEndpoint-perform;
    token = λ d o t. search HasEndpoint-perform;
  }

  remove_virtual_service-HasEndpoint :
      (client : VcdClient) → Preserves (HasEndpoint e) (remove_virtual_service W client)
  unfolding remove_virtual_service
  remove_virtual_service-HasEndpoint client = search endpoint_rules depth 30

  remove_alb_pool-HasEndpoint :
      (client : VcdClient) → Preserves (HasEndpoint e) (remove_alb_pool W client)
  unfolding remove_alb_pool
  remove_alb_pool-HasEndpoint client = search endpoint_rules depth 30

  remove_firewall_group-HasEndpoint :
      (vdc : Vdc) → Preserves (HasEndpoint e) (remove_firewall_group W vdc)
  unfolding remove_firewall_group
  remove_firewall_group-HasEndpoint vdc = search endpoint_rules depth 30

  remove_v_app-HasEndpoint : (vdc : Vdc) → Preserves (HasEndpoint e) (remove_v_app W vdc)
  unfolding remove_v_app
  remove_v_app-HasEndpoint vdc = search endpoint_rules depth 30

  reconcile_delete-HasEndpoint :
      (owner : Option Cluster) → Preserves (HasEndpoint e) (reconcile_delete W owner)
  unfolding reconcile_delete remove_parts
  reconcile_delete-HasEndpoint owner =
      search
        (
          endpoint_rules,
          remove_virtual_service-HasEndpoint,
          remove_alb_pool-HasEndpoint,
          remove_firewall_group-HasEndpoint,
          remove_v_app-HasEndpoint,
          Preserves-get_vcd_client W HasEndpoint-KeptByClient,
        )
        depth 40

  ensure_firewall_group-HasEndpoint :
      (vdc : Vdc) (gateway : Named)
      → Preserves (HasEndpoint e) (ensure_firewall_group W vdc gateway)
  unfolding ensure_firewall_group
  ensure_firewall_group-HasEndpoint vdc gateway = search endpoint_rules depth 20

  ensure_alb_pool-HasEndpoint :
      (client : VcdClient) (gateway : Named) (group : Option FirewallGroup)
      → Preserves (HasEndpoint e) (ensure_alb_pool W client gateway group)
  unfolding ensure_alb_pool
  ensure_alb_pool-HasEndpoint client gateway group = search endpoint_rules depth 20

  ensure_virtual_service-HasEndpoint :
      (client : VcdClient) (gateway : Named) (pool : Option Named)
      → Preserves (HasEndpoint e) (ensure_virtual_service W client gateway pool)
  unfolding ensure_virtual_service
  ensure_virtual_service-HasEndpoint client gateway pool = search endpoint_rules depth 30

  ensure_v_app-HasEndpoint : (vdc : Vdc) → Preserves (HasEndpoint e) (ensure_v_app W vdc)
  unfolding ensure_v_app
  ensure_v_app-HasEndpoint vdc = search endpoint_rules depth 30

  record_parts-HasEndpoint :
      (v_app service : Named) (pool : Option Named) (group : Option FirewallGroup)
      → Preserves (HasEndpoint e) (record_parts W v_app service pool group)
  unfolding record_parts
  record_parts-HasEndpoint v_app service pool group = search endpoint_rules depth 30

  with_endpoint-HasEndpoint :
      (owner : Option Cluster) (client : VcdClient) (vdc : Vdc) (gateway : Named)
      → Preserves (HasEndpoint e) (with_endpoint W owner client vdc gateway)
  unfolding with_endpoint ensure_parts
  with_endpoint-HasEndpoint owner client vdc gateway =
      search
        (
          endpoint_rules, ensure_firewall_group-HasEndpoint, ensure_alb_pool-HasEndpoint,
          ensure_virtual_service-HasEndpoint, ensure_v_app-HasEndpoint, record_parts-HasEndpoint,
        )
        depth 30

  -- The assignment is allowed where there was no host.
  assignment-HasEndpoint :
      (address : String)
      → str_eq e.host "" ≡ true
      → Preserves (HasEndpoint e) (
          modify λ (c : TenantCluster). record c {
            spec = record c.spec {
              control_plane_endpoint = record { host = address; port = 6443 };
            };
          })
  unfolding ◌>>=◌
  assignment-HasEndpoint address h = record { at = λ s _. record { endpoint = inr (h, refl) } }

  allocate_endpoint-HasEndpoint :
      (gateway : Named)
      → str_eq e.host "" ≡ true
      → Preserves (HasEndpoint e) (allocate_endpoint W gateway)
  unfolding allocate_endpoint
  allocate_endpoint-HasEndpoint gateway h = search (endpoint_rules, assignment-HasEndpoint) depth 20

  -- Either way on, from the cluster that was read.
  branch-HasEndpoint :
      (c : TenantCluster) (b : Bool) (owner : Option Cluster) (client : VcdClient) (vdc : Vdc)
      (gateway : Named)
      → (b ≡ true → str_eq e.host "" ≡ true)
      → Preserves
          (HasEndpoint e)
          (if b then allocate_endpoint W gateway else with_endpoint W owner client vdc gateway)
  branch-HasEndpoint c true owner client vdc gateway h =
      allocate_endpoint-HasEndpoint gateway (h refl)
  branch-HasEndpoint c false owner client vdc gateway h =
      with_endpoint-HasEndpoint owner client vdc gateway

  -- A cluster without a host came from one without a host.
  no_host :
      (s : Session TenantCluster)
      → HasEndpoint e s
      → str_eq s.object.spec.control_plane_endpoint.host "" ≡ true
      → str_eq e.host "" ≡ true
  no_host s h k = elim h.endpoint [
    | inl same ↦ ap (λ (x : ApiEndpoint). str_eq x.host "") (sym same) ∙ k
    | inr (empty, port) ↦ empty
  ]

  -- What `reconcile_normal` does with the cluster that it read.
  abbrev normal_rest : Option Cluster → TenantCluster → C Return
  normal_rest owner tenant_cluster = do
    or_done tenant_cluster.spec.identity_ref
    a ← get_vcd_client W tenant_cluster
    maybe_client ← or_else a λ e. do
      modify (with_error W external_ip_address_ready cloud_director_error_reason e.message)
      retry e
    client ← deref maybe_client
    b ← perform W (get_org_by_name client tenant_cluster.spec.organization)
    org ← or_else b retry
    c ← perform W (get_vdc_by_name org tenant_cluster.spec.virtual_data_center false)
    vdc ← or_else c retry
    d ← perform W (get_edge_gateway org tenant_cluster.spec.edge_gateway vdc.id)
    gateway ← or_else d retry
    if str_eq tenant_cluster.spec.control_plane_endpoint.host ""
        then allocate_endpoint W gateway
        else with_endpoint W owner client vdc gateway

  rest-HasEndpoint :
      (owner : Option Cluster) (c : TenantCluster)
      → (str_eq c.spec.control_plane_endpoint.host "" ≡ true → str_eq e.host "" ≡ true)
      → Preserves (HasEndpoint e) (normal_rest owner c)
  rest-HasEndpoint owner c h =
      search
        (
          endpoint_rules,
          Preserves-get_vcd_client W HasEndpoint-KeptByClient,
          λ (client : VcdClient) (vdc : Vdc) (gateway : Named).
              branch-HasEndpoint c (str_eq c.spec.control_plane_endpoint.host "") owner client vdc
                gateway h,
        )
        depth 30

  reconcile_normal-HasEndpoint :
      (owner : Option Cluster) → Preserves (HasEndpoint e) (reconcile_normal W owner)
  unfolding reconcile_normal ◌>>=◌
  reconcile_normal-HasEndpoint owner = record {
    at = λ s h. (rest-HasEndpoint owner s.object (no_host s h)).at s h;
  }

  finalizer-HasEndpoint :
      (added : Bool) (rest : C Return)
      → Preserves (HasEndpoint e) rest
      → Preserves (HasEndpoint e) (add_finalizer_or W added rest)
  unfolding add_finalizer_or
  finalizer-HasEndpoint true rest h = search endpoint_rules
  finalizer-HasEndpoint false rest h = Preserves-bind _ _ (search endpoint_rules) λ _. h

  reconcile_object-HasEndpoint : Preserves (HasEndpoint e) (reconcile_object W)
  unfolding reconcile_object
  reconcile_object-HasEndpoint =
      search
        (
          endpoint_rules, finalizer-HasEndpoint, reconcile_normal-HasEndpoint,
          reconcile_delete-HasEndpoint,
        )
        depth 20

  patch-HasEndpoint :
      (original : TenantCluster) → Preserves (HasEndpoint e) (patch_tenant_cluster W original)
  unfolding patch_tenant_cluster
  patch-HasEndpoint original = Preserves-bind _ _ (HasEndpoint-modify _) λ _.
      Preserves-bind _ _ (Preserves-gets _) λ c. HasEndpoint-perform (patch_cluster original c _)

-- A reconciliation leaves the endpoint of the control plane as it is, or it had no host and gets
-- the port 6443; so an endpoint with a host never changes.
pub reconcile_fetched_endpoint :
    (W : World) (cluster : TenantCluster) (t : Trace)
    → let after = (reconcile_fetched W cluster (record { object = cluster; trace = t })).1.object in
      (after.spec.control_plane_endpoint ≡ cluster.spec.control_plane_endpoint)
      ⊎ ((str_eq cluster.spec.control_plane_endpoint.host "" ≡ true)
          × (after.spec.control_plane_endpoint.port ≡ 6443))
unfolding reconcile_fetched
reconcile_fetched_endpoint W cluster t =
    ((Preserves-defer W _ _ (patch-HasEndpoint W cluster.spec.control_plane_endpoint cluster)
        (reconcile_object-HasEndpoint W cluster.spec.control_plane_endpoint)).at
      (record { object = cluster; trace = t }) (record { endpoint = inl refl })).endpoint
