-- ===== src/Controller/Reconcile/Truth/Reported.antt =====
-- The status that a completed reconciliation leaves behind.
use cluster_api_control_plan.Prelude.{false, none, ◌∷◌, ◌≡◌, ap, ◌∙◌, arith}
use cluster_api_control_plan.Errors.{ok}
use cluster_api_control_plan.Api.{key_of, Cluster, StewardControlPlane}
use cluster_api_control_plan.Kube.{
  get_steward_control_plane, update_steward_control_plane_status, Trace,
}
use cluster_api_control_plan.Conditions.{ConditionLaws}
use cluster_api_control_plan.Controller.Status.{
  Modifier, modified, update_steward_control_plane_status_of,
}
use cluster_api_control_plan.Controller.Status.Laws.{Captured, update_status-SentLast}
use cluster_api_control_plan.Controller.Reconcile.{report_conditions, reconcile_objects}
use cluster_api_control_plan.Controller.Reconcile.Flow.{finished, State, go_on}
use cluster_api_control_plan.Controller.Reconcile.Steps.{Environment}
use cluster_api_control_plan.Controller.Reconcile.Stages.{stages, reconcile_normal}
use cluster_api_control_plan.Controller.Reconcile.Truth.{RevertsNone}
use cluster_api_control_plan.Controller.Reconcile.Truth.Completed.{AllTrue, stages-AllTrue}

-- The state at the start, and the deferred function's modifier.
abbrev pub start_of : StewardControlPlane → Trace → State
start_of scp trace = record { scp = scp; conditions = scp.status.conditions; trace = trace }

abbrev pub reporting : State → Modifier
reporting s scp = record scp.status { conditions = s.conditions }

module _ (env : Environment) (laws : ConditionLaws env.conditions) (scp : StewardControlPlane)
    (cluster : Cluster) (trace : Trace) where
  abbrev pub ended : State
  ended = (stages env cluster (start_of scp trace)).1

  -- The deferred function's status update.
  abbrev pub report : State → Trace
  report s =
      (update_steward_control_plane_status_of env.reconciler.client env.retry (reporting s) s.scp
        s.trace).2

  pub reconcile_objects_completed :
      env.is_paused cluster scp ≡ false
      → scp.meta.deletion_timestamp ≡ none
      → (stages env cluster (start_of scp trace)).0 ≡ go_on tt
      → reconcile_objects env scp cluster trace ≡ (finished, report ended)
  unfolding reconcile_objects report_conditions reconcile_normal
  reconcile_objects_completed unpaused live completed = ground arith

  -- A reconciliation of an object that is neither paused nor deleted, whose stages run to the end,
  -- finishes; if its last status update is accepted, that is the last call, and it sends the object that
  -- the call right before has read under the name of what the update held, with conditions that are true: that of the external cluster where there is a
  -- reference, that of the infrastructure unless its patch is skipped, and each other tracked one but
  -- that of the initialization, whose last status update may fail unseen. The decoding of
  -- the answer to the endpoint's patch, into an array that the conditions may share, reverts no true
  -- condition, and the functions on conditions have their laws.
  pub completed_reconciliation_reports :
      env.is_paused cluster scp ≡ false
      → scp.meta.deletion_timestamp ≡ none
      → (stages env cluster (start_of scp trace)).0 ≡ go_on tt
      → RevertsNone env laws
      → (update_steward_control_plane_status_of env.reconciler.client env.retry
          (reporting ended)
          ended.scp
          ended.trace).0
        ≡ none
      → (held fresh : StewardControlPlane) × (rest : Trace) × Captured env.reconciler.client
          (reporting ended)
          env.retry
          ended.scp
          held
        × (env.reconciler.client.stored_steward_control_plane rest (key_of held.meta) ≡ ok fresh)
        × (reconcile_objects env scp cluster trace ≡ (
          finished,
          update_steward_control_plane_status (modified (reporting ended) fresh)
              ∷ get_steward_control_plane (key_of held.meta)
              ∷ rest,
        ))
        × AllTrue env laws
            (start_of scp trace)
            (record ended { conditions = (modified (reporting ended) fresh).status.conditions })
  completed_reconciliation_reports unpaused live completed reverts_none accepted =
      let (held, fresh, rest, captured, stored, sent) =
        update_status-SentLast env.reconciler.client (reporting ended) env.retry ended.scp
          ended.trace accepted in
      (
        held,
        fresh,
        rest,
        captured,
        stored,
        reconcile_objects_completed unpaused live completed ∙ ap (λ t. (finished, t)) sent,
        stages-AllTrue env laws cluster (start_of scp trace) ended reverts_none (cc completed),
      )
