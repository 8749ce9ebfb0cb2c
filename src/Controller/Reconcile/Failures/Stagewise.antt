-- ===== src/Controller/Reconcile/Failures/Stagewise.antt =====
-- The errors of the stages, in their order.
use cluster_api_control_plan.Prelude.{Bool, true, false, Option, none, some, ◌≡◌, refl, ap}
use cluster_api_control_plan.Errors.{Error}
use cluster_api_control_plan.Api.{
  Cluster, ExternalClusterReference, VersionStatus, TenantControlPlane,
}
use cluster_api_control_plan.Conditions.{ConditionLaws}
use cluster_api_control_plan.Conditions.Types.{
  found_external_cluster_reference, tenant_control_plane_created,
  tenant_control_plane_address_ready, control_plane_endpoint_patched,
  infrastructure_cluster_patched, steward_control_plane_initialized, steward_control_plane_ready,
  kubeadm_resources_created_ready,
}
use cluster_api_control_plan.Controller.Tenant.{RemoteClient}
use cluster_api_control_plan.Controller.Reconcile.Flow.{
  failed, State, Flow, go_on, stop, Explains, Explains-bind, Explains-then,
}
use cluster_api_control_plan.Controller.Reconcile.Steps.{Environment}
use cluster_api_control_plan.Controller.Reconcile.Stages.{
  require_version, remote_client, with_remote_client, tenant_stage, infrastructure_stage,
  endpoint_stage, ready_stage, initialize, initialize_if_ready, require_initialized, tracked_only,
  status_stage, completion_stage, stages, reconcile_normal, last_ending,
}
use cluster_api_control_plan.Controller.Reconcile.Failures.{
  IsExplained, failed-Passes, requeued-Passes, enqueue_or_fail-Passes, never_stops,
  tracked-Explains, pure-Explains, stop_if-Explains, finalizer-Explains, refetch_cluster-Explains,
  recover_panic-Explains, decode_conditions-Explains,
}

module _ (env : Environment) (laws : ConditionLaws env.conditions) (cluster : Cluster) where
  remote_client-Explains :
      (o : Option ExternalClusterReference)
      → Explains (IsExplained env cluster) (remote_client env o)
  unfolding remote_client
  remote_client-Explains none = pure-Explains env laws cluster none
  remote_client-Explains (some ecr) =
      Explains-bind (IsExplained env cluster) _ _
        (tracked-Explains env laws cluster found_external_cluster_reference _ _ refl failed-Passes)
        (λ mgr.
          Explains-then (IsExplained env cluster) _ _ (finalizer-Explains env laws cluster)
            (pure-Explains env laws cluster (some mgr)))

  tenant_stage-Explains :
      (remote : RemoteClient) → Explains (IsExplained env cluster) (tenant_stage env cluster remote)
  unfolding tenant_stage
  tenant_stage-Explains remote =
      Explains-then (IsExplained env cluster) _ _
        (recover_panic-Explains env laws cluster tenant_control_plane_created remote)
        (Explains-bind (IsExplained env cluster) _ _
          (tracked-Explains env laws cluster tenant_control_plane_created _ _ refl failed-Passes)
          (λ tcp.
            Explains-then (IsExplained env cluster) _ _
              (tracked-Explains env laws cluster tenant_control_plane_address_ready _ _ refl
                requeued-Passes)
              (pure-Explains env laws cluster tcp)))

  infrastructure_stage-Explains :
      (fresh : Cluster) (tcp : TenantControlPlane) (skipped : Bool)
      → Explains (IsExplained env cluster) (infrastructure_stage env fresh tcp skipped)
  unfolding infrastructure_stage
  infrastructure_stage-Explains fresh tcp true = pure-Explains env laws cluster tt
  infrastructure_stage-Explains fresh tcp false =
      tracked-Explains env laws cluster infrastructure_cluster_patched _ _ refl failed-Passes

  endpoint_stage-Explains :
      (tcp : TenantControlPlane)
      → Explains (IsExplained env cluster) (endpoint_stage env cluster tcp)
  unfolding endpoint_stage
  endpoint_stage-Explains tcp =
      Explains-then (IsExplained env cluster) _ _
        (tracked-Explains env laws cluster control_plane_endpoint_patched _ _ refl failed-Passes)
        (Explains-then (IsExplained env cluster) _ _ (decode_conditions-Explains env laws cluster) (
          Explains-bind (IsExplained env cluster) _ _ (refetch_cluster-Explains env laws cluster)
            (λ fresh.
              Explains-then (IsExplained env cluster) _ _
                (infrastructure_stage-Explains fresh tcp _)
                (pure-Explains env laws cluster fresh))))

  require_version-Explains :
      (o : Option VersionStatus) → Explains (IsExplained env cluster) (require_version o)
  unfolding require_version
  require_version-Explains none s x h = absurd (cc)
  require_version-Explains (some v) s x h = absurd (never_stops v (failed x) h)

  ready_stage-Explains :
      (fresh : Cluster) (tcp : TenantControlPlane)
      → Explains (IsExplained env cluster) (ready_stage env fresh tcp)
  unfolding ready_stage
  ready_stage-Explains fresh tcp =
      Explains-then (IsExplained env cluster) _ _ (stop_if-Explains env laws cluster _) (
        Explains-then (IsExplained env cluster) _ _ (stop_if-Explains env laws cluster _)
          (require_version-Explains _))

  initialize-Explains : (b : Bool) → Explains (IsExplained env cluster) (initialize env b)
  unfolding initialize
  initialize-Explains true =
      tracked-Explains env laws cluster steward_control_plane_initialized _ _ refl failed-Passes
  initialize-Explains false = pure-Explains env laws cluster tt

  tracked_only-Explains : Explains (IsExplained env cluster) (tracked_only env)
  unfolding tracked_only
  tracked_only-Explains s x h = absurd (never_stops tt (failed x) h)

  status_stage-Explains :
      (version : VersionStatus) (tcp : TenantControlPlane)
      → Explains (IsExplained env cluster) (status_stage env version tcp)
  unfolding status_stage initialize_if_ready require_initialized
  status_stage-Explains version tcp =
      Explains-then (IsExplained env cluster) _ _ (λ s x h. initialize-Explains _ s x h)
        (Explains-then (IsExplained env cluster) _ _
          (λ s x h. stop_if-Explains env laws cluster _ s x h)
          (Explains-then (IsExplained env cluster) _ _
            (tracked-Explains env laws cluster steward_control_plane_initialized _ _ refl
              failed-Passes)
            tracked_only-Explains))

  completion_stage-Explains :
      (fresh : Cluster) (remote : RemoteClient) (tcp : TenantControlPlane) (version : VersionStatus)
      → Explains (IsExplained env cluster) (completion_stage env fresh remote tcp version)
  unfolding completion_stage
  completion_stage-Explains fresh remote tcp version =
      Explains-then (IsExplained env cluster) _ _
        (tracked-Explains env laws cluster kubeadm_resources_created_ready _ _ refl
          enqueue_or_fail-Passes)
        (tracked-Explains env laws cluster steward_control_plane_ready _ _ refl
          enqueue_or_fail-Passes)

  stages-Explains : Explains (IsExplained env cluster) (stages env cluster)
  unfolding stages with_remote_client
  stages-Explains =
      Explains-bind (IsExplained env cluster) _ _ (λ s x h. remote_client-Explains _ s x h)
        (λ remote.
          Explains-bind (IsExplained env cluster) _ _ (tenant_stage-Explains remote) (λ tcp.
            Explains-bind (IsExplained env cluster) _ _ (endpoint_stage-Explains tcp) (λ fresh.
              Explains-bind (IsExplained env cluster) _ _ (ready_stage-Explains fresh tcp)
                (λ version.
                  Explains-then (IsExplained env cluster) _ _ (status_stage-Explains version tcp)
                    (completion_stage-Explains fresh remote tcp version)))))

  last_failed :
      (r : Flow (Unit {0})) (x : Error) → last_ending env r ≡ failed x → r ≡ stop (failed x)
  last_failed (go_on u) x h = absurd (cc)
  last_failed (stop e) x h = let same : e ≡ failed x = h in ap stop same

-- A reconciliation that returns an error leaves it in the status of a tracked condition, which is
-- false and has the error's text, unless it is the error with which the finalizer's update or the second
-- read of the cluster has ended the stages, or the panic of a reference that was lost, which no
-- condition records. The functions on conditions have their laws.
pub reconcile_normal-IsExplained :
    (env : Environment) (cluster : Cluster) (s : State) (x : Error)
    → ConditionLaws env.conditions
    → (reconcile_normal env cluster s).0 ≡ failed x
    → IsExplained env cluster x (reconcile_normal env cluster s).1
unfolding reconcile_normal
reconcile_normal-IsExplained env cluster s x laws h =
    stages-Explains env laws cluster s x (last_failed env laws cluster (stages env cluster s).0 x h)
