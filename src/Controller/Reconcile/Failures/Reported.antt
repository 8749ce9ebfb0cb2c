-- ===== src/Controller/Reconcile/Failures/Reported.antt =====
-- The status that a failed reconciliation leaves behind.
use cluster_api_control_plan.Prelude.{false, none, ◌∷◌, ◌≡◌, ap, ◌∙◌, arith}
use cluster_api_control_plan.Errors.{Error, ok}
use cluster_api_control_plan.Api.{key_of, Cluster, StewardControlPlane}
use cluster_api_control_plan.Kube.{
  get_steward_control_plane, update_steward_control_plane_status, Trace,
}
use cluster_api_control_plan.Conditions.{ConditionLaws}
use cluster_api_control_plan.Controller.Status.{modified, update_steward_control_plane_status_of}
use cluster_api_control_plan.Controller.Status.Laws.{Captured, update_status-SentLast}
use cluster_api_control_plan.Controller.Reconcile.{report_conditions, reconcile_objects}
use cluster_api_control_plan.Controller.Reconcile.Flow.{Ending, failed, State}
use cluster_api_control_plan.Controller.Reconcile.Steps.{Environment}
use cluster_api_control_plan.Controller.Reconcile.Stages.{reconcile_normal}
use cluster_api_control_plan.Controller.Reconcile.Truth.Reported.{start_of, reporting}
use cluster_api_control_plan.Controller.Reconcile.Failures.{IsExplained}
use cluster_api_control_plan.Controller.Reconcile.Failures.Stagewise.{reconcile_normal-IsExplained}

module _ (env : Environment) (laws : ConditionLaws env.conditions) (scp : StewardControlPlane)
    (cluster : Cluster) (trace : Trace) where
  abbrev pub normal : Ending × State
  normal = reconcile_normal env cluster (start_of scp trace)

  reconcile_objects_live :
      env.is_paused cluster scp ≡ false
      → scp.meta.deletion_timestamp ≡ none
      → reconcile_objects env scp cluster trace ≡ (
        normal.0,
        (update_steward_control_plane_status_of env.reconciler.client env.retry
            (reporting normal.1)
            normal.1.scp
            normal.1.trace).2,
      )
  unfolding reconcile_objects report_conditions
  reconcile_objects_live unpaused live = ground arith

  -- A reconciliation of an object that is neither paused nor deleted, whose stages fail with an error,
  -- returns that error; if its last status update is accepted, that is the last call, and it sends the
  -- object that the call right before has read under the name of what the update held, with a tracked condition that is false and has the
  -- error's text, unless the stages ended with the finalizer's update or with the second read of the
  -- cluster, and the error is theirs, or with the panic of an object that has no reference any more
  -- behind a remote client, which no condition records. The functions on conditions have their laws.
  pub failed_reconciliation_reports :
      (x : Error)
      → env.is_paused cluster scp ≡ false
      → scp.meta.deletion_timestamp ≡ none
      → normal.0 ≡ failed x
      → (update_steward_control_plane_status_of env.reconciler.client env.retry
          (reporting normal.1)
          normal.1.scp
          normal.1.trace).0
        ≡ none
      → (held fresh : StewardControlPlane) × (rest : Trace) × Captured env.reconciler.client
          (reporting normal.1)
          env.retry
          normal.1.scp
          held
        × (env.reconciler.client.stored_steward_control_plane rest (key_of held.meta) ≡ ok fresh)
        × (reconcile_objects env scp cluster trace ≡ (
          failed x,
          update_steward_control_plane_status (modified (reporting normal.1) fresh)
              ∷ get_steward_control_plane (key_of held.meta)
              ∷ rest,
        ))
        × IsExplained env cluster x (record normal.1 {
          conditions = (modified (reporting normal.1) fresh).status.conditions;
        })
  failed_reconciliation_reports x unpaused live fails accepted =
      let (held, fresh, rest, captured, stored, sent) =
        update_status-SentLast env.reconciler.client (reporting normal.1) env.retry normal.1.scp
          normal.1.trace accepted in
      (
        held,
        fresh,
        rest,
        captured,
        stored,
        reconcile_objects_live unpaused live
            ∙ ap (λ t. (normal.0, t)) sent
            ∙ ap
                (λ e. (
                  e,
                  update_steward_control_plane_status (modified (reporting normal.1) fresh)
                      ∷ get_steward_control_plane (key_of held.meta)
                      ∷ rest,
                ))
                fails,
        reconcile_normal-IsExplained env cluster (start_of scp trace) x laws fails,
      )
