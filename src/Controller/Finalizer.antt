-- ===== src/Controller/Finalizer.antt =====
-- controllers/stewardcontrolplane_finalizer.go: the finalizer of a control plane that is deployed to
-- an external cluster, and what its deletion does.
pub mod Setting
pub mod Deletion
use cluster_api_control_plan.Prelude.{String, Bool, Option, none, some, List, ◌∷◌, if◌then◌else◌}
use cluster_api_control_plan.Errors.{Error, is_not_found, Result, ok, err}
use cluster_api_control_plan.Api.{Key, key_of, ExternalClusterReference, StewardControlPlane}
use cluster_api_control_plan.Kube.{
  Server, external, Call, get_steward_control_plane, update_steward_control_plane,
  delete_tenant_control_plane, Trace, Client,
}
use cluster_api_control_plan.Kube.Retry.{Body, Retry}
use cluster_api_control_plan.Kube.Sets.{StringSets}
use cluster_api_control_plan.Ecr.Names.{generate_remote_tenant_control_plane_names}
use cluster_api_control_plan.Controller.Remote.{Reconciler, extract_remote_client}

abbrev pub external_cluster_reference_finalizer : String
external_cluster_reference_finalizer = "ecr.steward.butlerlabs.dev/finalizer"

abbrev with_finalizers : StewardControlPlane → List String → StewardControlPlane
with_finalizers scp finalizers = record scp { meta = record scp.meta { finalizers = finalizers } }

-- `r.client.Update(ctx, scp)`: the error, and what `scp` holds then.
abbrev update : Client → StewardControlPlane → Trace → Option Error × StewardControlPlane
update client scp trace = elim (client.updated_steward_control_plane trace scp) [
  | ok new ↦ (none, new)
  | err e ↦ (some e, scp)
]

-- `if errors.IsNotFound(err) { return nil }; return err`
abbrev pub unless_not_found : Option Error → Option Error
unless_not_found none = none
unless_not_found (some e) = if is_not_found e then none else some e

abbrev pub remote_key : StewardControlPlane → ExternalClusterReference → Key
remote_key scp ecr =
    let names = generate_remote_tenant_control_plane_names scp ecr in
    record { namespace = names.namespace; name = names.name }

module _ (r : Reconciler) (sets : StringSets) (retry : Retry) where
  -- The function that `handleFinalizer` retries, over its captured `scp` and `finalizers`.
  unfoldable pub set_finalizer : Body (StewardControlPlane × List String)
  set_finalizer (scp, finalizers) trace =
      let t = get_steward_control_plane (key_of scp.meta) ∷ trace in
      elim (r.client.stored_steward_control_plane trace (key_of scp.meta)) [
        | err e ↦ (some e, (scp, finalizers), t)
        | ok fresh ↦
            let finalizers' = sets.insert finalizers external_cluster_reference_finalizer in
            let sent = with_finalizers fresh (sets.unsorted_list finalizers') in
            let (e, scp') = update r.client sent t in
            (e, (scp', finalizers'), update_steward_control_plane sent ∷ t)
      ]

  -- The error, and what `scp` holds then.
  unfoldable pub handle_finalizer :
      StewardControlPlane → Trace → Option Error × StewardControlPlane × Trace
  handle_finalizer scp trace =
      let finalizers = sets.new scp.meta.finalizers in
      if sets.has finalizers external_cluster_reference_finalizer
      then (none, scp, trace)
      else (let (e, l, t) =
            retry.retry_on_conflict (StewardControlPlane × List String) set_finalizer
              (scp, finalizers) trace in
          (e, l.0, t))

  -- The function that `handleDeletion` retries, over its captured `scp`.
  unfoldable pub drop_finalizer : Body StewardControlPlane
  drop_finalizer scp trace =
      let t = get_steward_control_plane (key_of scp.meta) ∷ trace in
      elim (r.client.stored_steward_control_plane trace (key_of scp.meta)) [
        | err e ↦ (some e, scp, t)
        | ok fresh ↦
            let finalizers =
              sets.delete (sets.new fresh.meta.finalizers) external_cluster_reference_finalizer in
            let sent = with_finalizers fresh (sets.unsorted_list finalizers) in
            let (e, scp') = update r.client sent t in
            (e, scp', update_steward_control_plane sent ∷ t)
      ]

  -- `handleDeletion` from the point where a remote client is there.
  unfoldable pub delete_remote : StewardControlPlane → Server → Key → Trace → Option Error × Trace
  delete_remote scp server key trace =
      let t = delete_tenant_control_plane server key ∷ trace in
      elim (r.client.deleted_tenant_control_plane trace server key) [
        | err e ↦ (unless_not_found (some e), t)
        | ok _ ↦
            (let (e, l, t') = retry.retry_on_conflict StewardControlPlane drop_finalizer scp t in
              (unless_not_found e, t'))
      ]

  unfoldable pub handle_deletion : StewardControlPlane → Trace → Option Error × Trace
  handle_deletion scp trace =
      if sets.has (sets.new scp.meta.finalizers) external_cluster_reference_finalizer
      then elim scp.spec.fields.deployment.external_cluster_reference [
        | none ↦ (none, trace)
        | some ecr ↦
            (let (client, t) = extract_remote_client r scp ecr trace in
              elim client [
                | err e ↦ (some e, t)
                | ok mgr ↦ delete_remote scp (external mgr) (remote_key scp ecr) t
              ])
      ]
      else (none, trace)
