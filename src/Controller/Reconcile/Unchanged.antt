-- ===== src/Controller/Reconcile/Unchanged.antt =====
-- What the steps after the endpoint's leave alone: the conditions of types that they do not track.
use cluster_api_control_plan.Prelude.{
  String, Bool, true, false, Option, none, some, List, [], ◌∷◌, ◌≡◌, ◌≢◌, refl, ap, ◌∙◌, elem,
}
use cluster_api_control_plan.Errors.{Error, error_of}
use cluster_api_control_plan.Api.{Cluster, Condition, VersionStatus, TenantControlPlane}
use cluster_api_control_plan.Conditions.{ConditionLaws}
use cluster_api_control_plan.Conditions.Laws.{track_condition_type-IsOutcome}
use cluster_api_control_plan.Conditions.Types.{
  infrastructure_cluster_patched, steward_control_plane_initialized, steward_control_plane_ready,
  kubeadm_resources_created_ready,
}
use cluster_api_control_plan.Controller.Tenant.{RemoteClient}
use cluster_api_control_plan.Controller.Reconcile.Flow.{Ending, State, Preserves, Preserves-then}
use cluster_api_control_plan.Controller.Reconcile.Steps.{
  Environment, Action, stop_if, untracked, tracked,
}
use cluster_api_control_plan.Controller.Reconcile.Stages.{
  pure, require_version, infrastructure_stage, ready_stage, initialize, initialize_if_ready,
  require_initialized, tracked_only, status_stage, completion_stage,
}

-- The types of the conditions that these steps track.
abbrev pub late_types : List String
late_types =
    infrastructure_cluster_patched ∷ steward_control_plane_initialized ∷ steward_control_plane_ready
    ∷ kubeadm_resources_created_ready ∷ []

module _ (env : Environment) (laws : ConditionLaws env.conditions) (type : String)
    (foreign : elem type late_types ≡ false) (found : Option Condition) where
  -- The condition of the type is this one.
  abbrev pub Finds : State → Type 0
  Finds s = env.conditions.find_status_condition s.conditions type ≡ found

  late : (t : String) → elem t late_types ≡ true → t ≢ type
  late t listed e = cc (ap (λ x. elem x late_types) e)

  pub tracked-Finds :
      {A : Type 0} (t : String) (action : Action A) (ending : Error → Ending)
      → t ≢ type
      → Preserves Finds (tracked env t action ending)
  unfolding tracked
  tracked-Finds t action ending different s h =
      let r = action s.scp s.trace in
      (track_condition_type-IsOutcome env.conditions laws s.conditions t s.scp.meta.generation
          (env.clock r.2) (error_of r.0)).3
        type different
      ∙ h

  pub untracked-Finds :
      {A : Type 0} (action : Action A) (ending : Error → Ending)
      → Preserves Finds (untracked action ending)
  unfolding untracked
  untracked-Finds action ending s h = h

  pub pure-Finds : {A : Type 0} (a : A) → Preserves Finds (pure a)
  pure-Finds a s h = h

  pub stop_if-Finds : (b : Bool) (ending : Ending) → Preserves Finds (stop_if b ending)
  stop_if-Finds true ending s h = h
  stop_if-Finds false ending s h = h

  pub infrastructure_stage-Finds :
      (cluster : Cluster) (tcp : TenantControlPlane) (skipped : Bool)
      → Preserves Finds (infrastructure_stage env cluster tcp skipped)
  unfolding infrastructure_stage
  infrastructure_stage-Finds cluster tcp true = pure-Finds tt
  infrastructure_stage-Finds cluster tcp false =
      tracked-Finds infrastructure_cluster_patched _ _ (late infrastructure_cluster_patched refl)

  require_version-Finds : (o : Option VersionStatus) → Preserves Finds (require_version o)
  unfolding require_version
  require_version-Finds none s h = h
  require_version-Finds (some v) s h = h

  pub ready_stage-Finds :
      (cluster : Cluster) (tcp : TenantControlPlane) → Preserves Finds (ready_stage env cluster tcp)
  unfolding ready_stage
  ready_stage-Finds cluster tcp =
      Preserves-then Finds _ _ (stop_if-Finds _ _)
        (Preserves-then Finds _ _ (stop_if-Finds _ _) (require_version-Finds _))

  initialize-Finds : (b : Bool) → Preserves Finds (initialize env b)
  unfolding initialize
  initialize-Finds true =
      tracked-Finds steward_control_plane_initialized _ _
        (late steward_control_plane_initialized refl)
  initialize-Finds false = pure-Finds tt

  pub status_stage-Finds :
      (version : VersionStatus) (tcp : TenantControlPlane)
      → Preserves Finds (status_stage env version tcp)
  unfolding status_stage initialize_if_ready require_initialized tracked_only
  status_stage-Finds version tcp =
      Preserves-then Finds _ _ (λ s h. initialize-Finds _ s h)
        (Preserves-then Finds _ _ (λ s h. stop_if-Finds _ _ s h)
          (Preserves-then Finds _ _
            (tracked-Finds steward_control_plane_initialized _ _
              (late steward_control_plane_initialized refl))
            (λ s h.
              tracked-Finds steward_control_plane_initialized _ _
                (late steward_control_plane_initialized refl) s h)))

  pub completion_stage-Finds :
      (cluster : Cluster) (remote : RemoteClient) (tcp : TenantControlPlane)
      (version : VersionStatus)
      → Preserves Finds (completion_stage env cluster remote tcp version)
  unfolding completion_stage
  completion_stage-Finds cluster remote tcp version =
      Preserves-then Finds _ _
        (tracked-Finds kubeadm_resources_created_ready _ _
          (late kubeadm_resources_created_ready refl))
        (tracked-Finds steward_control_plane_ready _ _ (late steward_control_plane_ready refl))
