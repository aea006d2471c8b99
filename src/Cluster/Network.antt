-- ===== src/Cluster/Network.antt =====
-- The network of a vApp, and runs that end between the creation of the vApp and its network.
use cluster_api_provider_clo.Vcdutil.{find}
use cluster_api_provider_clo.Names.{resource_name}
use cluster_api_provider_clo.Cluster.Parts.{ensure_v_app}
use cluster_api_provider_clo.Api.{TenantCluster}
use cluster_api_provider_clo.World.Types.{Vdc, GoError, Named, err, ok}
use cluster_api_provider_clo.Base.{
  Bool, not, true, false, Option, some, ◌≡◌, ◌∷◌, none, arith, All, refl,
}
use cluster_api_provider_clo.World.{World, Event, Trace}
use cluster_api_provider_clo.World.Calls.{
  Call, add_org_network, get_v_app_by_name, create_raw_v_app, get_org_vdc_network,
}
use cluster_api_provider_clo.Flow.{◌>>=◌, Session, perform, next, ret, requeue}

-- The call joins a network to a vApp.
abbrev pub joins_network : Call → Bool
joins_network (add_org_network v_app network retain) = true
joins_network _ = false

abbrev pub joins_nothing : Call → Bool
joins_nothing c = not (joins_network c)

module _ (W : World) (vdc : Vdc) (s : Session TenantCluster) where
  abbrev lookup : Call
  lookup = get_v_app_by_name vdc (resource_name s.object) true

  abbrev creation : Call
  creation = create_raw_v_app vdc (resource_name s.object) ""

  abbrev network_lookup : Call
  network_lookup = get_org_vdc_network vdc s.object.spec.network true

  abbrev event : Call → Option GoError → Event
  event c e = record { call = c; error = e }

  -- The look-up, the creation and the look-up of the network, which failed.
  abbrev pub half_made : GoError → GoError → Trace
  half_made missing failure =
      event network_lookup (some failure)
      ∷ event creation none
      ∷ event lookup (some missing)
      ∷ s.trace

  -- A run that creates the vApp and then does not find the network ends early, to be repeated.
  first_run :
      (missing failure : GoError) (v_app : Named)
      → W.answer s.trace lookup ≡ err missing
      → W.contains_not_found missing ≡ true
      → W.answer (event lookup (some missing) ∷ s.trace) creation ≡ ok v_app
      → W.answer (event creation none ∷ event lookup (some missing) ∷ s.trace) network_lookup
        ≡ err failure
      → ensure_v_app W vdc s ≡ (ret (requeue 60), record s { trace = half_made missing failure })
  unfolding ensure_v_app ◌>>=◌ find perform
  first_run missing failure v_app a b c d = ground arith

  -- The next run finds it.
  next_run :
      (missing failure : GoError) (v_app : Named)
      → W.answer (half_made missing failure) lookup ≡ ok v_app
      → ensure_v_app W vdc (record s { trace = half_made missing failure })
        ≡ (next v_app, record s { trace = event lookup none ∷ half_made missing failure })
  unfolding ensure_v_app ◌>>=◌ find perform
  next_run missing failure v_app e = ground arith

-- If the look-up of the network fails in the run that creates the vApp, that run ends early; the
-- next one, which finds the vApp, takes it as it is, and in both no network has been joined to it.
pub ensure_v_app-half_made :
    (W : World) (vdc : Vdc) (s : Session TenantCluster) (missing failure : GoError)
    (made v_app : Named)
    → W.answer s.trace (get_v_app_by_name vdc (resource_name s.object) true) ≡ err missing
    → W.contains_not_found missing ≡ true
    → W.answer
        ((record {
          call = get_v_app_by_name vdc (resource_name s.object) true;
          error = some missing;
        })
          ∷ s.trace)
        (create_raw_v_app vdc (resource_name s.object) "")
      ≡ ok made
    → W.answer
        ((record { call = create_raw_v_app vdc (resource_name s.object) ""; error = none })
          ∷ (record {
            call = get_v_app_by_name vdc (resource_name s.object) true;
            error = some missing;
          })
          ∷ s.trace)
        (get_org_vdc_network vdc s.object.spec.network true)
      ≡ err failure
    → W.answer
        (half_made W vdc s missing failure)
        (get_v_app_by_name vdc (resource_name s.object) true)
      ≡ ok v_app
    → All (λ e. joins_nothing e.call ≡ true) s.trace
    → let second = ensure_v_app W vdc (ensure_v_app W vdc s).1 in
      ((ensure_v_app W vdc s).0 ≡ ret (requeue 60))
      × (second.0 ≡ next v_app)
      × All (λ e. joins_nothing e.call ≡ true) second.1.trace
ensure_v_app-half_made W vdc s missing failure made v_app a b c d e none_before =
    rw (first_run W vdc s missing failure made a b c d, next_run W vdc s missing failure v_app e)
      (refl, refl, (refl, (refl, (refl, (refl, none_before)))))
