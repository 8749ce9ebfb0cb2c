-- ===== src/Controller/Reconcile.antt =====
-- `Reconcile` of controllers/stewardcontrolplane_controller.go. Its steps are those of Steps, in the
-- order of the source; each may stop the reconciliation with a result.
pub mod Flow
pub mod Steps
pub mod Stages
pub mod Completion
pub mod Entry
pub mod Unchanged
pub mod Kept
pub mod Securing
pub mod Truth
pub mod Failures
pub mod Reverted
use cluster_api_control_plan.Prelude.{
  Bool, true, false, Option, none, some, List, [], ◌∷◌, if◌then◌else◌,
}
use cluster_api_control_plan.Errors.{Error, is_not_found, Result, ok, err}
use cluster_api_control_plan.Api.{Key, Cluster, OwnerReference, StewardControlPlane}
use cluster_api_control_plan.Kube.{Call, get_steward_control_plane, get_cluster, Trace}
use cluster_api_control_plan.Controller.Finalizer.{handle_deletion}
use cluster_api_control_plan.Controller.Status.{update_steward_control_plane_status_of}
use cluster_api_control_plan.Controller.Reconcile.Flow.{Ending, finished, failed, State}
use cluster_api_control_plan.Controller.Reconcile.Steps.{Environment}
use cluster_api_control_plan.Controller.Reconcile.Stages.{reconcile_normal}

-- `return ctrl.Result{}, err`
abbrev pub ending_of : Option Error → Ending
ending_of none = finished
ending_of (some e) = failed e

-- A failed read ends the reconciliation, without an error where the object is not found.
abbrev pub after_failed_get : Error → Ending
after_failed_get e = if is_not_found e then finished else failed e

module _ (env : Environment) where
  -- The deferred function: the conditions are written to the status, and its error is dropped.
  unfoldable pub report_conditions : Ending × State → Ending × Trace
  report_conditions (ending, s) =
      let (e, scp, t) =
        update_steward_control_plane_status_of env.reconciler.client env.retry
          (λ scp. record scp.status { conditions = s.conditions }) s.scp s.trace in
      (ending, t)

  -- From the point where both objects are read.
  unfoldable pub reconcile_objects : StewardControlPlane → Cluster → Trace → Ending × Trace
  reconcile_objects scp cluster trace =
      if env.is_paused cluster scp then (finished, trace) else elim scp.meta.deletion_timestamp [
        | some time ↦
            (let (e, t) = handle_deletion env.reconciler env.sets env.retry scp trace in
              (ending_of e, t))
        | none ↦ report_conditions (
            reconcile_normal env cluster
              (record { scp = scp; conditions = scp.status.conditions; trace = trace }))
      ]

  abbrev pub cluster_key : StewardControlPlane → OwnerReference → Key
  cluster_key scp owner = record { namespace = scp.meta.namespace; name = owner.name }

  unfoldable pub reconcile_owned : StewardControlPlane → OwnerReference → Trace → Ending × Trace
  reconcile_owned scp owner trace =
      let t = get_cluster (cluster_key scp owner) ∷ trace in
      elim (env.reconciler.client.stored_cluster trace (cluster_key scp owner)) [
        | err e ↦ (after_failed_get e, t)
        | ok cluster ↦ reconcile_objects scp cluster t
      ]

  unfoldable pub reconcile : Key → Trace → Ending × Trace
  reconcile request trace =
      let t = get_steward_control_plane request ∷ trace in
      elim (env.reconciler.client.stored_steward_control_plane trace request) [
        | err e ↦ (after_failed_get e, t)
        | ok scp ↦ elim scp.meta.owner_references [
          | [] ↦ (finished, t)
          | owner ∷ others ↦ reconcile_owned scp owner t
        ]
      ]
