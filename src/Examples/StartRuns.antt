-- ===== src/Examples/StartRuns.antt =====
-- Starts of the process: with libraries that answer, and without a configuration.
use cluster_api_provider_clo.Base.{◌≡◌, ◌∷◌, [], some, none, refl}
use cluster_api_provider_clo.Examples.Data.{broken}
use cluster_api_provider_clo.ClientCache.Metrics.Setup.{new_prometheus_metrics, apply_options}
use cluster_api_provider_clo.Startup.{main, new_metrics}
use cluster_api_provider_clo.Startup.Shared.{Ends, fresh, main-Ends}
use cluster_api_provider_clo.Startup.Steps.{Library, on, exited}
use cluster_api_provider_clo.World.Types.{ok, err, ObjectKey}

abbrev answering : Library (Unit {0}) (Unit {0}) (Unit {0}) ObjectKey (Unit {0})
answering = record {
  get_config = ok tt;
  new_manager = λ cfg. ok tt;
  get_client = λ mgr. tt;
  object_key = λ o. o;
  cluster_to_typed_objects_mapper = λ client scheme. ok (λ o. o ∷ []);
  machine_to_infrastructure = λ o. o ∷ [];
  complete = λ mgr scheme controllers c. ok tt;
  registry = tt;
  must_register = λ registry c. some tt;
  build_info = none;
  start = λ mgr controllers. ok tt;
}

answering_start : (main answering fresh).0 ≡ on tt
unfolding main new_metrics new_prometheus_metrics apply_options
answering_start = refl

failing_start : (main (record answering { get_config = err broken }) fresh).0 ≡ exited 1
unfolding main
failing_start = refl

main-Ends_example : Ends (main answering fresh).1 (main answering fresh).0
main-Ends_example = main-Ends answering
