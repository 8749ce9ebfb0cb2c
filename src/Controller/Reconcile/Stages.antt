-- ===== src/Controller/Reconcile/Stages.antt =====
-- The stages of a reconciliation of an object that is neither paused nor deleted, in the order of the
-- source.
use cluster_api_control_plan.Prelude.{Bool, true, false, not, ◌&&◌, Option, none, some, ◌==◌}
use cluster_api_control_plan.Api.{
  Cluster, ExternalClusterReference, VersionStatus, version_ready, TenantControlPlane,
}
use cluster_api_control_plan.Conditions.Types.{
  found_external_cluster_reference, tenant_control_plane_created,
  tenant_control_plane_address_ready, control_plane_endpoint_patched,
  infrastructure_cluster_patched, steward_control_plane_initialized, steward_control_plane_ready,
  kubeadm_resources_created_ready,
}
use cluster_api_control_plan.Controller.Remote.{extract_remote_client}
use cluster_api_control_plan.Controller.Finalizer.{handle_finalizer}
use cluster_api_control_plan.Controller.Infrastructure.{patch_cluster, patch_control_plane_endpoint}
use cluster_api_control_plan.Controller.Tenant.{RemoteClient, dereferences_nil, server_of}
use cluster_api_control_plan.Controller.Secrets.{create_required_resources}
use cluster_api_control_plan.Controller.Reconcile.Flow.{
  Ending, finished, requeued, failed, State, Flow, go_on, stop, Step, ◌>>=◌, ◌>>◌,
}
use cluster_api_control_plan.Controller.Reconcile.Steps.{
  Environment, patcher, keeping, of_error, enqueue_or_fail, stop_if, untracked, tracked,
  decode_conditions, recover_panic, update_status, create_tenant, require_address, refetch_cluster,
  set_initialized, report_scale, report_ready,
}

abbrev pub pure : {A : Type 0} → A → Step A
pure a s = (go_on a, s)

-- `if tcp.Status.Kubernetes.Version.Status == nil`
unfoldable pub require_version : Option VersionStatus → Step VersionStatus
require_version none s = (stop requeued, s)
require_version (some v) s = (go_on v, s)

module _ (env : Environment) where
  -- The remote client, and the finalizer, where there is a reference.
  unfoldable pub remote_client : Option ExternalClusterReference → Step RemoteClient
  remote_client none = pure none
  remote_client (some ecr) = do
    mgr ←
        tracked env found_external_cluster_reference
          (keeping (λ scp. extract_remote_client env.reconciler scp ecr)) failed
    untracked (of_error (handle_finalizer env.reconciler env.sets env.retry)) failed
    pure (some mgr)

  unfoldable pub with_remote_client : Step RemoteClient
  with_remote_client s = remote_client s.scp.spec.fields.deployment.external_cluster_reference s

  -- The TenantControlPlane, with an address.
  unfoldable pub tenant_stage : Cluster → RemoteClient → Step TenantControlPlane
  tenant_stage cluster remote = do
    (λ s. recover_panic env tenant_control_plane_created (dereferences_nil remote s.scp) s)
    tcp ← tracked env tenant_control_plane_created (create_tenant env cluster remote) failed
    tracked env tenant_control_plane_address_ready (require_address env tcp) (λ _. requeued)
    pure tcp

  -- `if !r.FeatureGates.Enabled(features.SkipInfraClusterPatch) { … }`
  unfoldable pub infrastructure_stage : Cluster → TenantControlPlane → Bool → Step (Unit {0})
  infrastructure_stage cluster tcp true = pure tt
  infrastructure_stage cluster tcp false =
      tracked env infrastructure_cluster_patched
        (keeping (λ scp. patch_cluster (patcher env) cluster scp tcp.status.control_plane_endpoint))
        failed

  -- The endpoint on the StewardControlPlane, the cluster as it is then, and the infrastructure.
  unfoldable pub endpoint_stage : Cluster → TenantControlPlane → Step Cluster
  endpoint_stage cluster tcp = do
    tracked env control_plane_endpoint_patched
        (of_error (λ scp.
          patch_control_plane_endpoint env.reconciler.client scp tcp.status.control_plane_endpoint))
        failed
    decode_conditions env
    fresh ← refetch_cluster env cluster
    infrastructure_stage fresh tcp env.reconciler.features.skip_infra_cluster_patch
    pure fresh

  -- The tests on the cluster and on the version of the TenantControlPlane.
  unfoldable pub ready_stage : Cluster → TenantControlPlane → Step VersionStatus
  ready_stage cluster tcp = do
    stop_if (cluster.control_plane_endpoint.host == "") requeued
    stop_if (not cluster.infrastructure_ready) requeued
    require_version tcp.status.version_status

  abbrev pub is_version_ready : VersionStatus → Bool
  is_version_ready version_ready = true
  is_version_ready _ = false

  -- The first initialization.
  unfoldable pub initialize : Bool → Step (Unit {0})
  initialize false = pure tt
  initialize true =
      tracked env steward_control_plane_initialized (update_status env (set_initialized env)) failed

  unfoldable pub initialize_if_ready : VersionStatus → Step (Unit {0})
  initialize_if_ready version s =
      initialize (is_version_ready version && not s.scp.status.initialized) s

  unfoldable pub require_initialized : Step (Unit {0})
  require_initialized s = stop_if (not s.scp.status.initialized) requeued s

  -- A callback whose error is dropped: it is recorded, and the reconciliation goes on.
  unfoldable pub tracked_only : Step (Unit {0})
  tracked_only s = (
    go_on tt,
    (tracked env steward_control_plane_initialized (update_status env (set_initialized env)) failed
        s).1,
  )

  unfoldable pub status_stage : VersionStatus → TenantControlPlane → Step (Unit {0})
  status_stage version tcp = do
    initialize_if_ready version
    require_initialized
    tracked env steward_control_plane_initialized (update_status env (report_scale env tcp)) failed
    tracked_only

  unfoldable pub completion_stage :
      Cluster → RemoteClient → TenantControlPlane → VersionStatus → Step (Unit {0})
  completion_stage cluster remote tcp version = do
    tracked env kubeadm_resources_created_ready
        (keeping (λ scp.
          create_required_resources env.secret_library env.reconciler.client env.secrets env.retry
            (server_of remote) cluster scp tcp))
        enqueue_or_fail
    tracked env steward_control_plane_ready (report_ready env version) enqueue_or_fail

  unfoldable pub stages : Cluster → Step (Unit {0})
  stages cluster = do
    remote ← with_remote_client
    tcp ← tenant_stage cluster remote
    fresh ← endpoint_stage cluster tcp
    version ← ready_stage fresh tcp
    status_stage version tcp
    completion_stage fresh remote tcp version

  abbrev pub last_ending : Flow (Unit {0}) → Ending
  last_ending (go_on u) = finished
  last_ending (stop e) = e

  unfoldable pub reconcile_normal : Cluster → State → Ending × State
  reconcile_normal cluster s = (last_ending (stages cluster s).0, (stages cluster s).1)
