-- ===== src/Examples/Sharing.antt =====
-- A condition that the answer to a patch has overwritten.
use cluster_api_control_plan.Prelude.{some, List, [], ◌∷◌, ◌≡◌, refl}
use cluster_api_control_plan.Errors.{ok}
use cluster_api_control_plan.Api.{is_false, key_of, Condition, StewardControlPlane}
use cluster_api_control_plan.Kube.{
  get_steward_control_plane, update_steward_control_plane_status, Trace,
}
use cluster_api_control_plan.Conditions.{new_condition}
use cluster_api_control_plan.Conditions.Types.{tenant_control_plane_address_ready}
use cluster_api_control_plan.Controller.Status.{modified}
use cluster_api_control_plan.Controller.Status.Laws.{Captured}
use cluster_api_control_plan.Controller.Reconcile.{reconcile_objects}
use cluster_api_control_plan.Controller.Reconcile.Flow.{finished, State}
use cluster_api_control_plan.Controller.Reconcile.Stages.{stages}
use cluster_api_control_plan.Controller.Reconcile.Truth.Reported.{reporting}
use cluster_api_control_plan.Controller.Reconcile.Reverted.{WasTrue, shared_condition_reverts}
use cluster_api_control_plan.Samples.Objects.{sample_cluster}
use cluster_api_control_plan.Samples.Parameters.{single_run, list_conditions, list_conditions_laws}
use cluster_api_control_plan.Examples.Reconciliations.{
  environment_with, local_control_plane, start_state, completes, report_accepted,
}

-- The server's condition, from the reconciliation before the address was there.
abbrev stale : Condition
stale = record (new_condition tenant_control_plane_address_ready) {
  status = is_false;
  last_transition_time = some 0;
}

abbrev overwritten : Trace → List Condition → List Condition
overwritten t cs = stale ∷ []

abbrev end_state : State
end_state = (stages (environment_with overwritten) sample_cluster start_state).1

shared_condition_reverts_example :
    WasTrue
      (environment_with overwritten)
      list_conditions_laws
      stale
      (λ t cs. refl)
      sample_cluster
      start_state
    × ((held fresh : StewardControlPlane) × (rest : Trace) × Captured
          (environment_with overwritten).reconciler.client
          (reporting end_state)
          single_run
          end_state.scp
          held
        × (ok local_control_plane ≡ ok fresh)
        × (reconcile_objects (environment_with overwritten) local_control_plane sample_cluster []
            ≡ (
              finished,
              update_steward_control_plane_status (modified (reporting end_state) fresh)
                  ∷ get_steward_control_plane (key_of held.meta)
                  ∷ rest,
            ))
        × (list_conditions.find_status_condition
              (modified (reporting end_state) fresh).status.conditions
              tenant_control_plane_address_ready
            ≡ some stale))
shared_condition_reverts_example =
    shared_condition_reverts (environment_with overwritten) list_conditions_laws stale
      (λ t cs. refl) local_control_plane sample_cluster [] refl refl (completes overwritten)
      (report_accepted overwritten)
