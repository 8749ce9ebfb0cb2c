-- ===== src/Examples/Reconciliations.antt =====
-- A reconciliation that runs to its end.
use cluster_api_control_plan.Prelude.{true, false, none, some, List, [], ◌∷◌, ◌≡◌, refl, lookup}
use cluster_api_control_plan.Errors.{Error, sentinel, external_cluster_reference_not_enabled, ok}
use cluster_api_control_plan.Api.{
  key_of, Condition, OwnerReference, Secret, StewardControlPlane, TenantControlPlane,
}
use cluster_api_control_plan.Kube.{
  get_steward_control_plane, Client, update_steward_control_plane_status, Trace,
}
use cluster_api_control_plan.Controller.Status.Laws.{Captured}
use cluster_api_control_plan.Controller.Reconcile.{reconcile_objects}
use cluster_api_control_plan.Controller.Reconcile.Flow.{
  Ending, finished, failed, State, go_on, ◌>>=◌, ◌>>◌,
}
use cluster_api_control_plan.Net.{contains, cut_last, split_host_port}
use cluster_api_control_plan.Strconv.{parse_int, parse_uint, scan, signed}
use cluster_api_control_plan.Endpoint.{parse_status_endpoint, control_plane_endpoint}
use cluster_api_control_plan.Controller.Infrastructure.{patch_control_plane_endpoint}
use cluster_api_control_plan.Controller.Tenant.{write_tenant, create_or_update_tenant_control_plane}
use cluster_api_control_plan.Controller.Tenant.Mutation.{check_cert_sans, mutate}
use cluster_api_control_plan.Controller.Secrets.{
  create_or_update_kubeconfig, create_or_update_certificate_authority, create_required_resources,
}
use cluster_api_control_plan.Controller.Secrets.Mutations.{
  filled, secret_key_of, mutate_kubeconfig, mutate_certificate_authority,
}
use cluster_api_control_plan.Controller.Status.{
  modified, write_status, update_steward_control_plane_status_of,
}
use cluster_api_control_plan.Controller.Reconcile.Steps.{
  Environment, untracked, tracked, decode_conditions, recover_panic, refetch_cluster, report_ready,
}
use cluster_api_control_plan.Controller.Reconcile.Stages.{
  remote_client, with_remote_client, tenant_stage, infrastructure_stage, endpoint_stage,
  require_version, ready_stage, initialize, initialize_if_ready, require_initialized, tracked_only,
  status_stage, completion_stage, stages, reconcile_normal,
}
use cluster_api_control_plan.Conditions.{new_condition, track_condition_type}
use cluster_api_control_plan.Controller.Reconcile.Truth.{RevertsNone}
use cluster_api_control_plan.Controller.Reconcile.Truth.Completed.{AllTrue}
use cluster_api_control_plan.Controller.Reconcile.Truth.Reported.{
  reporting, completed_reconciliation_reports,
}
use cluster_api_control_plan.Controller.Reconcile.Failures.{IsExplained}
use cluster_api_control_plan.Controller.Reconcile.Failures.Reported.{
  normal, failed_reconciliation_reports,
}
use cluster_api_control_plan.Controller.Reconcile.Securing.{IsSecured, with_remote_client-IsSecured}
use cluster_api_control_plan.Controller.Reconcile.Completion.{IsComplete, stages-IsComplete}
use cluster_api_control_plan.Ecr.Names.{generate_key_name_from_steward}
use cluster_api_control_plan.Ecr.Store.{get}
use cluster_api_control_plan.Controller.Remote.{gate, manager_for, extract_remote_client}
use cluster_api_control_plan.Controller.Finalizer.{handle_finalizer, set_finalizer}
use cluster_api_control_plan.Samples.Objects.{
  sample_control_plane, sample_cluster, sample_tenant, sample_steward_secret,
}
use cluster_api_control_plan.Samples.Parameters.{
  list_sets, single_run, list_conditions, list_conditions_laws, list_sets_laws, one_endpoint,
  creating, sample_tenant_library, sample_secret_library, sample_client,
}

abbrev owner : OwnerReference
owner = record { kind = "Cluster"; name = "cluster"; uid = "c" }

-- A control plane on the management cluster, without a gateway, owned by a cluster, and ready.
abbrev pub local_control_plane : StewardControlPlane
local_control_plane = record (sample_control_plane []) {
  meta = record (sample_control_plane []).meta { owner_references = owner ∷ [] };
  spec = record (sample_control_plane []).spec {
    fields = record (sample_control_plane []).spec.fields {
      network = record (sample_control_plane []).spec.fields.network { gateway = none };
      deployment = record (sample_control_plane []).spec.fields.deployment {
        external_cluster_reference = none;
      };
    };
  };
  status = record (sample_control_plane []).status { initialized = true; ready = true };
}

abbrev local_client : Client
local_client = record (sample_client [] (ok tt) "patched") {
  stored_secret = λ t server key. ok sample_steward_secret;
  stored_cluster = λ t key. ok sample_cluster;
  stored_steward_control_plane = λ t key. ok local_control_plane;
  patched_steward_control_plane = λ t before after. ok local_control_plane;
  updated_status = λ t s. ok local_control_plane;
}

-- `shared` is what the decoding of an answer makes of the tracked conditions.
abbrev pub environment_with : (Trace → List Condition → List Condition) → Environment
environment_with shared = record {
  reconciler = record {
    features = record {
      external_cluster_reference = false;
      external_cluster_reference_cross_namespace = false;
      skip_infra_cluster_patch = true;
      dynamic_infrastructure_cluster_patch = false;
    };
    store = record { store = []; stopped = [] };
    kind_for = λ mgr. none;
    client = local_client;
  };
  dynamic_infrastructure_clusters = [];
  sets = list_sets;
  retry = single_run;
  conditions = list_conditions;
  clock = λ t. 0;
  objects = one_endpoint;
  tenants = creating TenantControlPlane;
  tenant_library = sample_tenant_library;
  new_tenant_control_plane = λ key. sample_tenant;
  secrets = creating Secret;
  secret_library = sample_secret_library;
  is_paused = λ cluster s. false;
  shared_conditions = shared;
  version_text = λ v. "";
  format_label_selector = λ labels. "";
}

abbrev environment : Environment
environment = environment_with (λ t cs. cs)

abbrev pub start_state : State
start_state = record { scp = local_control_plane; conditions = []; trace = [] }

pub completes :
    (shared : Trace → List Condition → List Condition)
    → (stages (environment_with shared) sample_cluster start_state).0 ≡ go_on tt
unfolding ◌>>=◌ ◌>>◌ remote_client with_remote_client tenant_stage endpoint_stage
    infrastructure_stage require_version ready_stage initialize initialize_if_ready
    require_initialized tracked_only status_stage completion_stage stages untracked tracked
    refetch_cluster decode_conditions recover_panic report_ready write_tenant
    create_or_update_tenant_control_plane mutate check_cert_sans patch_control_plane_endpoint
    control_plane_endpoint parse_status_endpoint split_host_port contains cut_last parse_int
    parse_uint scan signed create_required_resources create_or_update_kubeconfig
    create_or_update_certificate_authority mutate_kubeconfig mutate_certificate_authority filled
    secret_key_of lookup write_status update_steward_control_plane_status_of
completes shared = refl

stages-IsComplete_example :
    IsComplete environment sample_cluster start_state
      (stages environment sample_cluster start_state).1
stages-IsComplete_example =
    stages-IsComplete environment sample_cluster start_state
      (stages environment sample_cluster start_state).1 (cc (completes (λ t cs. cs)))

pub report_accepted :
    (shared : Trace → List Condition → List Condition)
    → (update_steward_control_plane_status_of
        (environment_with shared).reconciler.client
        (environment_with shared).retry
        (reporting (stages (environment_with shared) sample_cluster start_state).1)
        (stages (environment_with shared) sample_cluster start_state).1.scp
        (stages (environment_with shared) sample_cluster start_state).1.trace).0
      ≡ none
unfolding write_status update_steward_control_plane_status_of
report_accepted shared = refl

reverts_none : RevertsNone environment list_conditions_laws
reverts_none t cs type c found holds = (c, found, holds)

completed_reconciliation_reports_example :
    (held fresh : StewardControlPlane) × (rest : Trace) × Captured environment.reconciler.client
      (reporting (stages environment sample_cluster start_state).1)
      single_run
      (stages environment sample_cluster start_state).1.scp
      held
    × (ok local_control_plane ≡ ok fresh)
    × (reconcile_objects environment local_control_plane sample_cluster [] ≡ (
      finished,
      update_steward_control_plane_status
            (modified (reporting (stages environment sample_cluster start_state).1) fresh)
          ∷ get_steward_control_plane (key_of held.meta)
          ∷ rest,
    ))
    × AllTrue environment list_conditions_laws start_state
        (record (stages environment sample_cluster start_state).1 {
          conditions =
              (modified
                (reporting (stages environment sample_cluster start_state).1)
                fresh).status.conditions;
        })
completed_reconciliation_reports_example =
    completed_reconciliation_reports environment list_conditions_laws local_control_plane
      sample_cluster [] refl refl (completes (λ t cs. cs)) reverts_none
      (report_accepted (λ t cs. cs))

-- A condition of another controller.
abbrev paused_state : State
paused_state = record start_state { conditions = new_condition "Paused" ∷ [] }

-- The same control plane, deployed to the cluster that the store has a manager for.
abbrev external_environment : Environment
external_environment = record environment {
  reconciler = record {
    features = record environment.reconciler.features { external_cluster_reference = true };
    store = record {
      store =
          ("clusters/remote/value", record { resource_version = "7"; manager = 4; stop_func = 3 })
          ∷ [];
      stopped = [];
    };
    kind_for = λ mgr. none;
    client = sample_client [] (ok tt) "patched";
  };
}

abbrev external_state : State
external_state = record { scp = sample_control_plane []; conditions = []; trace = [] }

has_client : (with_remote_client external_environment external_state).0 ≡ go_on (some 4)
unfolding with_remote_client remote_client ◌>>=◌ ◌>>◌ tracked untracked extract_remote_client gate
    manager_for generate_key_name_from_steward get lookup handle_finalizer set_finalizer
    track_condition_type
has_client = refl

with_remote_client-IsSecured_example :
    IsSecured external_environment external_state
      (some 4)
      (with_remote_client external_environment external_state).1
with_remote_client-IsSecured_example =
    with_remote_client-IsSecured external_environment list_sets_laws external_state
      (with_remote_client external_environment external_state).1 (some 4) tt (cc has_client)

-- The control plane refers to an external cluster, and the feature gate is off.
abbrev refused : Ending × State
refused = normal environment list_conditions_laws (sample_control_plane []) sample_cluster []

abbrev refusal : Error
refusal = sentinel external_cluster_reference_not_enabled

is_refused : refused.0 ≡ failed refusal
unfolding ◌>>=◌ ◌>>◌ remote_client with_remote_client stages reconcile_normal tracked
    extract_remote_client gate
is_refused = refl

refusal_sent :
    (update_steward_control_plane_status_of environment.reconciler.client environment.retry
      (reporting refused.1)
      refused.1.scp
      refused.1.trace).0
    ≡ none
unfolding write_status update_steward_control_plane_status_of
refusal_sent = refl

failed_reconciliation_reports_example :
    (held fresh : StewardControlPlane) × (rest : Trace) × Captured environment.reconciler.client
      (reporting refused.1)
      single_run
      refused.1.scp
      held
    × (ok local_control_plane ≡ ok fresh)
    × (reconcile_objects environment (sample_control_plane []) sample_cluster [] ≡ (
      failed refusal,
      update_steward_control_plane_status (modified (reporting refused.1) fresh)
          ∷ get_steward_control_plane (key_of held.meta)
          ∷ rest,
    ))
    × IsExplained environment sample_cluster refusal
        (record refused.1 { conditions = (modified (reporting refused.1) fresh).status.conditions })
failed_reconciliation_reports_example =
    failed_reconciliation_reports environment list_conditions_laws (sample_control_plane [])
      sample_cluster [] refusal refl refl is_refused refusal_sent
