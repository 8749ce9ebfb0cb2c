-- ===== src/Examples/Startup.antt =====
-- A start of the manager.
use cluster_api_control_plan.Prelude.{true, none, [], ◌∷◌, ◌≡◌, refl}
use cluster_api_control_plan.Errors.{sentinel, external_cluster_reference_not_enabled, ok, err}
use cluster_api_control_plan.Api.{ExternalClusterReference, StewardControlPlane}
use cluster_api_control_plan.Kube.{Trace}
use cluster_api_control_plan.Ecr.Indexers
use cluster_api_control_plan.Controller.Remote.{Reconciler, extract_remote_client}
use cluster_api_control_plan.Controller.Setup.{
  steward_control_plane_builder, external_cluster_reference_builder, setup_steward_control_plane,
  setup_external_cluster_reference,
}
use cluster_api_control_plan.Startup.{
  Arguments, default_arguments, Setup, Platform, goes_on, ◌>>=◌, result_or_exit, success_or_exit,
  check_dynamic, read_arguments, setup_references, setup_manager, main,
}
use cluster_api_control_plan.Startup.Laws.{IsStarted, main-IsStarted}
use cluster_api_control_plan.Startup.Success.{cross_namespace_alone}

abbrev cross_arguments : Arguments
cross_arguments = record default_arguments {
  gates = record default_arguments.gates { external_cluster_reference_cross_namespace = true };
}

-- Every call succeeds.
abbrev willing : Platform
willing = record {
  add_gates = λ gates. none;
  parse = λ args arguments. ok cross_arguments;
  get_manager_options = λ options. ok "metrics";
  get_config = none;
  new_manager = λ options. none;
  libraries = record {
    new_for_config = none;
    server_resources_for_group_version = none;
    complete = λ controllers b. none;
  };
  index_field = λ registered i. none;
  add_check = λ checks name. none;
  start = λ s. none;
}

abbrev all_set_up : Setup
all_set_up = record {
  controllers =
      external_cluster_reference_builder
      ∷ steward_control_plane_builder default_arguments.max_concurrent_reconciles none
      ∷ [];
  indexes = Indexers.all_indexers willing.index_field;
  checks = "readyz" ∷ "healthz" ∷ [];
}

starts : main willing [] ≡ goes_on all_set_up
unfolding main read_arguments setup_manager setup_references check_dynamic result_or_exit
    success_or_exit ◌>>=◌ setup_steward_control_plane setup_external_cluster_reference
    Indexers.setup_with_manager Indexers.setup_from
starts = refl

main-IsStarted_example : IsStarted willing [] all_set_up
main-IsStarted_example = main-IsStarted willing [] all_set_up starts

cross_namespace_alone_example :
    (all_set_up.controllers
      ≡ external_cluster_reference_builder
        ∷ steward_control_plane_builder default_arguments.max_concurrent_reconciles none
        ∷ [])
    × ((r : Reconciler) (scp : StewardControlPlane) (ecr : ExternalClusterReference) (trace : Trace)
        → r.features ≡ cross_arguments.gates
        → extract_remote_client r scp ecr trace
          ≡ (err (sentinel external_cluster_reference_not_enabled), trace))
cross_namespace_alone_example =
    cross_namespace_alone willing [] cross_arguments all_set_up starts refl refl refl
