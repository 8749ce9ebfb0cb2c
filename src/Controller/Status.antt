-- ===== src/Controller/Status.antt =====
-- `updateStewardControlPlaneStatus` of controllers/stewardcontrolplane_controller.go.
pub mod Laws
use cluster_api_control_plan.Prelude.{Option, none, some, List, ◌∷◌}
use cluster_api_control_plan.Errors.{Error, wrap, Result, ok, err}
use cluster_api_control_plan.Api.{key_of, StewardControlPlaneStatus, StewardControlPlane}
use cluster_api_control_plan.Kube.{
  Call, get_steward_control_plane, update_steward_control_plane_status, Trace, Client,
}
use cluster_api_control_plan.Kube.Retry.{Body, Retry}

-- `modifierFn`: the status that the object which was read is given.
abbrev pub Modifier : Type 0
Modifier = StewardControlPlane → StewardControlPlaneStatus

abbrev pub modified : Modifier → StewardControlPlane → StewardControlPlane
modified modifier_fn scp = record scp { status = modifier_fn scp }

module _ (client : Client) (retry : Retry) (modifier_fn : Modifier) where
  -- The function that is retried, over the captured `scp`.
  unfoldable pub write_status : Body StewardControlPlane
  write_status scp trace =
      let t = get_steward_control_plane (key_of scp.meta) ∷ trace in
      elim (client.stored_steward_control_plane trace (key_of scp.meta)) [
        | err e ↦ (some e, scp, t)
        | ok fresh ↦
            let sent = modified modifier_fn fresh in
            let t' = update_steward_control_plane_status sent ∷ t in
            elim (client.updated_status t sent) [
              | err e ↦ (some e, sent, t')
              | ok new ↦ (none, new, t')
            ]
      ]

  abbrev wrapped_error : Option Error → Option Error
  wrapped_error none = none
  wrapped_error (some e) = some (wrap "cannot update StewardControlPlane resource" e)

  -- The error, and what `scp` holds then.
  unfoldable pub update_steward_control_plane_status_of :
      StewardControlPlane → Trace → Option Error × StewardControlPlane × Trace
  update_steward_control_plane_status_of scp trace =
      let (e, new, t) = retry.retry_on_conflict StewardControlPlane write_status scp trace in
      (wrapped_error e, new, t)
