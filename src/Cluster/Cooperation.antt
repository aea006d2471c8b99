-- ===== src/Cluster/Cooperation.antt =====
-- A world that grants what the cluster controller asks for.
use cluster_api_provider_clo.World.Calls.{
  get_owner_cluster, create_firewall_group, get_firewall_group_by_name, get_alb_pool_by_name,
  get_org_by_name, get_vdc_by_name, get_edge_gateway, get_unused_external_ip_addresses,
  create_alb_pool, get_virtual_service_by_name, get_service_engine_group_assignment,
  create_virtual_service, get_v_app_by_name, create_raw_v_app, get_org_vdc_network, add_org_network,
  power_on_v_app, patch_cluster,
}
use cluster_api_provider_clo.Flow.Steady.{IsOk, IsFound}
use cluster_api_provider_clo.World.Types.{
  Vdc, VcdClient, FirewallGroupConfig, Named, ok, Org, AlbPoolConfig, VirtualServiceConfig,
}
use cluster_api_provider_clo.Base.{String, ◌≡◌, some, Bool, List, str_eq, false, ◌∷◌}
use cluster_api_provider_clo.Api.{Cluster, TenantCluster, ObjectMeta}
use cluster_api_provider_clo.World.{World, Trace}

-- Requests are granted; a look-up by name finds its object or says that there is none.
pub record Cooperates (W : World) : Type 0 where
  pub owner : Cluster
  pub control_plane : String
  pub control_plane_ref : owner.control_plane_ref ≡ some control_plane
  pub owned :
      (meta : ObjectMeta) (t : Trace) → W.answer t (get_owner_cluster meta) ≡ ok (some owner)
  pub org :
      (client : VcdClient) (name : String) (t : Trace)
      → IsOk (W.answer t (get_org_by_name client name))
  pub vdc :
      (org : Org) (name : String) (refresh : Bool) (t : Trace)
      → IsOk (W.answer t (get_vdc_by_name org name refresh))
  pub gateway :
      (org : Org) (name id : String) (t : Trace) → IsOk (W.answer t (get_edge_gateway org name id))
  pub address : String
  pub other_addresses : List String
  pub present : str_eq address "" ≡ false
  pub addresses :
      (gateway : Named) (t : Trace)
      → W.answer t (get_unused_external_ip_addresses gateway 1) ≡ ok (address ∷ other_addresses)
  pub group_named :
      (vdc : Vdc) (name kind : String) (t : Trace)
      → IsFound W (W.answer t (get_firewall_group_by_name vdc name kind))
  pub group :
      (vdc : Vdc) (config : FirewallGroupConfig) (t : Trace)
      → IsOk (W.answer t (create_firewall_group vdc config))
  pub pool_named :
      (client : VcdClient) (gateway name : String) (t : Trace)
      → IsFound W (W.answer t (get_alb_pool_by_name client gateway name))
  pub pool :
      (client : VcdClient) (config : AlbPoolConfig) (t : Trace)
      → IsOk (W.answer t (create_alb_pool client config))
  pub service_named :
      (client : VcdClient) (gateway name : String) (t : Trace)
      → IsFound W (W.answer t (get_virtual_service_by_name client gateway name))
  pub engines :
      (client : VcdClient) (name filter : String) (t : Trace)
      → IsOk (W.answer t (get_service_engine_group_assignment client name filter))
  pub service :
      (client : VcdClient) (config : VirtualServiceConfig) (t : Trace)
      → IsOk (W.answer t (create_virtual_service client config))
  pub v_app_named :
      (vdc : Vdc) (name : String) (refresh : Bool) (t : Trace)
      → IsFound W (W.answer t (get_v_app_by_name vdc name refresh))
  pub v_app :
      (vdc : Vdc) (name text : String) (t : Trace)
      → IsOk (W.answer t (create_raw_v_app vdc name text))
  pub network :
      (vdc : Vdc) (name : String) (refresh : Bool) (t : Trace)
      → IsOk (W.answer t (get_org_vdc_network vdc name refresh))
  pub connected :
      (v_app network : Named) (retain : Bool) (t : Trace)
      → IsOk (W.answer t (add_org_network v_app network retain))
  pub powered : (v_app : Named) (t : Trace) → IsOk (W.answer t (power_on_v_app v_app))
  pub patched :
      (a b : TenantCluster) (owned : List String) (t : Trace)
      → IsOk (W.answer t (patch_cluster a b owned))
  -- `controllerutil.AddFinalizer`: after it the finalizer is there, and then it changes nothing
  pub finalizer_added :
      (finalizer : String) (all : List String)
      → (W.add_finalizer finalizer (W.add_finalizer finalizer all).0).1 ≡ false
  pub finalizer_kept :
      (finalizer : String) (all : List String)
      → (W.add_finalizer finalizer all).1 ≡ false
      → (W.add_finalizer finalizer all).0 ≡ all
