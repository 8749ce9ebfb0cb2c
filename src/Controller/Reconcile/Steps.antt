-- ===== src/Controller/Reconcile/Steps.antt =====
-- The steps of a reconciliation, and the conditions that they are recorded as.
use Prim.Native.String.{◌++◌}
use cluster_api_control_plan.Prelude.{
  ℕ, String, Bool, true, false, Option, none, some, List, ◌∷◌, ◌==◌, if◌then◌else◌,
}
use cluster_api_control_plan.Errors.{
  Error, message, wrap, sentinel, enqueue_back, is_not_found, is_enqueue_back, Result, ok, err,
  error_of,
}
use cluster_api_control_plan.Api.{
  Key, key_of, Labels, Secret, Cluster, Condition, StewardControlPlane, VersionStatus,
  version_ready, version_upgrading, TenantControlPlane,
}
use cluster_api_control_plan.Conditions.{ConditionFunctions, track_condition_type, track_panicked}
use cluster_api_control_plan.Kube.{get_cluster, Trace, Exec}
use cluster_api_control_plan.Kube.Retry.{Retry}
use cluster_api_control_plan.Kube.Sets.{StringSets}
use cluster_api_control_plan.Kube.Writer.{Writer}
use cluster_api_control_plan.Controller.Remote.{Reconciler}
use cluster_api_control_plan.Controller.Infrastructure.Operations.{Unstructured, Patcher}
use cluster_api_control_plan.Controller.Tenant.{
  RemoteClient, nil_reference, create_or_update_tenant_control_plane,
}
use cluster_api_control_plan.Controller.Tenant.Mutation.{TenantLibrary}
use cluster_api_control_plan.Controller.Secrets.Mutations.{SecretLibrary}
use cluster_api_control_plan.Controller.Status.{Modifier, update_steward_control_plane_status_of}
use cluster_api_control_plan.Controller.Reconcile.Flow.{
  Ending, finished, requeued, failed, Flow, go_on, stop, Step,
}

-- The reconciler, and the libraries that it uses. `clock` is the time after these calls, and
-- `new_tenant_control_plane` the zero value with a name and a namespace.
pub record Environment : Type 1 where
  pub reconciler : Reconciler
  pub dynamic_infrastructure_clusters : List String
  pub sets : StringSets
  pub retry : Retry
  pub conditions : ConditionFunctions
  pub clock : Trace → ℕ
  pub objects : Unstructured
  pub tenants : Writer TenantControlPlane
  pub tenant_library : TenantLibrary
  pub new_tenant_control_plane : Key → TenantControlPlane
  pub secrets : Writer Secret
  pub secret_library : SecretLibrary
  pub is_paused : Cluster → StewardControlPlane → Bool
  -- The tracked conditions once the answer to the patch of the endpoint is decoded: they start as the
  -- object's slice, and the answer is decoded into the object's array, which they may still share.
  pub shared_conditions : Trace → List Condition → List Condition
  pub version_text : VersionStatus → String
  pub format_label_selector : Option Labels → String

abbrev pub patcher : Environment → Patcher
patcher env = record {
  client = env.reconciler.client;
  objects = env.objects;
  is_dynamic = env.sets.has env.dynamic_infrastructure_clusters;
}

-- A callback: it may replace the captured `scp`.
abbrev pub Action : Type 0 → Type 0
Action A = StewardControlPlane → Trace → Result A × StewardControlPlane × Trace

abbrev pub keeping : {A : Type 0} → (StewardControlPlane → Exec A) → Action A
keeping f scp trace = ((f scp trace).0, scp, (f scp trace).1)

abbrev pub result_of : Option Error → Result (Unit {0})
result_of none = ok tt
result_of (some e) = err e

abbrev pub of_error :
    (StewardControlPlane → Trace → Option Error × StewardControlPlane × Trace) → Action (Unit {0})
of_error f scp trace = (result_of (f scp trace).0, (f scp trace).1, (f scp trace).2)

abbrev pub flow_of : {A : Type 0} → (Error → Ending) → Result A → Flow A
flow_of ending (ok a) = go_on a
flow_of ending (err e) = stop (ending e)

-- `requeued` for ErrEnqueueBack, as after the last two steps.
abbrev pub enqueue_or_fail : Error → Ending
enqueue_or_fail e = if is_enqueue_back e then requeued else failed e

abbrev pub stop_if : Bool → Ending → Step (Unit {0})
stop_if true ending s = (stop ending, s)
stop_if false ending s = (go_on tt, s)

-- A step that no condition records.
unfoldable pub untracked : {A : Type 0} → Action A → (Error → Ending) → Step A
untracked action ending s =
    let (r, scp, t) = action s.scp s.trace in
    (flow_of ending r, record { scp = scp; conditions = s.conditions; trace = t })

module _ (env : Environment) where
  -- `TrackConditionType(&conditions, type, scp.Generation, …)`, and the test of the error behind it.
  unfoldable pub tracked : {A : Type 0} → String → Action A → (Error → Ending) → Step A
  tracked type action ending s =
      let (r, scp, t) = action s.scp s.trace in
      (
        flow_of ending r,
        record {
          scp = scp;
          conditions =
              track_condition_type env.conditions s.conditions type s.scp.meta.generation
                (env.clock t) (error_of r);
          trace = t;
        },
      )

  unfoldable pub decode_conditions : Step (Unit {0})
  decode_conditions s =
      (go_on tt, record s { conditions = env.shared_conditions s.trace s.conditions })

  -- A callback that panics, or does not: a panic is recovered by the caller of `Reconcile`, after its
  -- deferred function, and is an error to it.
  unfoldable pub recover_panic : String → Bool → Step (Unit {0})
  recover_panic type false s = (go_on tt, s)
  recover_panic type true s = (
    stop (failed nil_reference),
    record s { conditions = track_panicked env.conditions s.conditions type s.scp.meta.generation },
  )

  abbrev pub update_status : Modifier → Action (Unit {0})
  update_status modifier_fn =
      of_error (update_steward_control_plane_status_of env.reconciler.client env.retry modifier_fn)

  abbrev pub create_tenant : Cluster → RemoteClient → Action TenantControlPlane
  create_tenant cluster remote = keeping (λ scp.
      create_or_update_tenant_control_plane env.tenant_library env.tenants env.retry cluster scp
        remote (env.new_tenant_control_plane (key_of scp.meta)))

  abbrev pub require_address : TenantControlPlane → Action (Unit {0})
  require_address tcp scp trace = (
    if tcp.status.control_plane_endpoint == ""
        then err
            (message "Control Plane Endpoint is not yet available since unprocessed by Steward")
        else ok tt,
    scp,
    trace,
  )

  -- The cluster is read again.
  unfoldable pub refetch_cluster : Cluster → Step Cluster
  refetch_cluster cluster s =
      let t = get_cluster (key_of cluster.meta) ∷ s.trace in
      (
        flow_of (λ e. if is_not_found e then finished else failed e)
            (env.reconciler.client.stored_cluster s.trace (key_of cluster.meta)),
        record s { trace = t },
      )

  abbrev pub set_initialized : Modifier
  set_initialized scp = record scp.status { initialized = true }

  abbrev pub report_scale : TenantControlPlane → Modifier
  report_scale tcp scp = record scp.status {
    ready_replicas = tcp.status.ready_replicas;
    replicas = tcp.status.replicas;
    selector = env.format_label_selector scp.meta.labels;
    unavailable_replicas = tcp.status.unavailable_replicas;
    updated_replicas = tcp.status.updated_replicas;
    version = tcp.status.version;
  }

  abbrev pub is_ready : VersionStatus → Bool
  is_ready version_ready = true
  is_ready version_upgrading = true
  is_ready _ = false

  abbrev require_ready : VersionStatus → Bool → Result (Unit {0}) → Result (Unit {0})
  require_ready version ready (err e) = err e
  require_ready version true (ok u) = ok tt
  require_ready version false (ok u) = err (
      wrap ("TenantControlPlane in " ++ (env.version_text version ++ " status, "))
        (sentinel enqueue_back))

  -- The last callback: the readiness is written, and must have been.
  unfoldable pub report_ready : VersionStatus → Action (Unit {0})
  report_ready version scp trace =
      let (r, new, t) =
        update_status (λ s. record s.status { ready = is_ready version }) scp trace in
      (require_ready version new.status.ready r, new, t)
