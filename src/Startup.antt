-- ===== src/Startup.antt =====
-- main.go: the start of the manager. A call that fails is logged, and the process exits; flags, the
-- manager and its libraries are parameters.
pub mod Laws
pub mod Success
use cluster_api_control_plan.Prelude.{
  ℕ, String, Bool, true, false, not, ◌&&◌, ◌||◌, Option, none, some, List, [], ◌∷◌,
}
use cluster_api_control_plan.Prelude.Int.{ℤ, pos}
use cluster_api_control_plan.Errors.{Error, Result, ok, err}
use cluster_api_control_plan.Api.{Opaque}
use cluster_api_control_plan.Ecr.Indexers
use cluster_api_control_plan.Ecr.Indexers.{Indexer}
use cluster_api_control_plan.Controller.Features.{Features}
use cluster_api_control_plan.Controller.Setup.{
  Builder, Libraries, setup_steward_control_plane, setup_external_cluster_reference,
}

-- The variables that the flags set, and the gates.
pub record Arguments : Type 0 where
  pub dynamic_infra_clusters : List String
  pub metrics_addr : String
  pub probe_addr : String
  pub enable_leader_election : Bool
  pub max_concurrent_reconciles : ℤ
  pub manager_opts : Opaque
  pub gates : Features

-- Every gate is off by default.
abbrev pub default_gates : Features
default_gates = record {
  external_cluster_reference = false;
  external_cluster_reference_cross_namespace = false;
  skip_infra_cluster_patch = false;
  dynamic_infrastructure_cluster_patch = false;
}

abbrev pub default_arguments : Arguments
default_arguments = record {
  dynamic_infra_clusters = [];
  metrics_addr = ":8080";
  probe_addr = ":8081";
  enable_leader_election = false;
  max_concurrent_reconciles = pos 1;
  manager_opts = "";
  gates = default_gates;
}

-- `ctrl.Options`, as far as they are not fixed objects.
pub record ManagerOptions : Type 0 where
  pub metrics : Opaque
  pub webhook_port : ℕ
  pub health_probe_bind_address : String
  pub leader_election : Bool
  pub leader_election_id : String

abbrev pub manager_options : Arguments → Opaque → ManagerOptions
manager_options arguments metrics_opts = record {
  metrics = metrics_opts;
  webhook_port = 9443;
  health_probe_bind_address = arguments.probe_addr;
  leader_election = arguments.enable_leader_election;
  leader_election_id = "steward.controlplane.cluster.x-k8s.io";
}

-- What the manager has been given.
pub record Setup : Type 0 where
  pub controllers : List Builder
  pub indexes : List Indexer
  pub checks : List String

-- The answers of the libraries. `get_config` stands for `GetConfigOrDie`.
pub record Platform : Type 0 where
  pub add_gates : Features → Option Error
  pub parse : List String → Arguments → Result Arguments
  pub get_manager_options : Opaque → Result Opaque
  pub get_config : Option Error
  pub new_manager : ManagerOptions → Option Error
  pub libraries : Libraries
  pub index_field : List Indexer → Indexer → Option Error
  pub add_check : List String → String → Option Error
  pub start : Setup → Option Error

-- The process goes on, or logs a message and exits with status 1.
pub data Process (A : Type 0) : Type 0 where
  goes_on : A → Process A
  exits : String → Process A

infixl 5 ◌>>=◌
unfoldable pub ◌>>=◌ : {A B : Type 0} → Process A → (A → Process B) → Process B
goes_on a >>= f = f a
exits message >>= f = exits message

unfoldable pub result_or_exit : {A : Type 0} → String → Result A → Process A
result_or_exit message (ok a) = goes_on a
result_or_exit message (err e) = exits message

unfoldable pub success_or_exit : String → Option Error → Process (Unit {0})
success_or_exit message none = goes_on tt
success_or_exit message (some e) = exits message

abbrev pub has_no_clusters : List String → Bool
has_no_clusters [] = true
has_no_clusters (c ∷ cs) = false

-- The test behind the flags.
unfoldable pub check_dynamic : Arguments → Process (Unit {0})
check_dynamic arguments =
    elim (not arguments.gates.dynamic_infrastructure_cluster_patch
      && not (has_no_clusters arguments.dynamic_infra_clusters)) [
        | true ↦ exits "DynamicInfrastructureClusterPatch feature flag is disabled"
        | false ↦ goes_on tt
      ]

module _ (p : Platform) where
  unfoldable pub read_arguments : List String → Process (Arguments × Opaque)
  read_arguments args = do
    u ← success_or_exit "unable to add feature gates" (p.add_gates default_gates)
    arguments ← result_or_exit "unable to parse arguments" (p.parse args default_arguments)
    metrics_opts ←
        result_or_exit "Unable to start manager: invalid flags"
          (p.get_manager_options arguments.manager_opts)
    w ← check_dynamic arguments
    goes_on (arguments, metrics_opts)

  abbrev pub uses_external_clusters : Features → Bool
  uses_external_clusters gates =
      gates.external_cluster_reference || gates.external_cluster_reference_cross_namespace

  -- The indexes, and the controller of the kubeconfig secrets.
  unfoldable pub setup_references : List Builder → Bool → Process (List Builder × List Indexer)
  setup_references controllers false = goes_on (controllers, [])
  setup_references controllers true = do
    indexes ← result_or_exit "unable to create indexers" (Indexers.setup_with_manager p.index_field)
    more ←
        result_or_exit "unable to create controller"
          (setup_external_cluster_reference p.libraries controllers)
    goes_on (more, indexes)

  unfoldable pub setup_manager : Arguments → Opaque → Process Setup
  setup_manager arguments metrics_opts = do
    u ← success_or_exit "unable to get kubeconfig" p.get_config
    v ←
        success_or_exit "unable to start manager"
          (p.new_manager (manager_options arguments metrics_opts))
    first ←
        result_or_exit "unable to create controller"
          (setup_steward_control_plane p.libraries arguments.max_concurrent_reconciles [])
    (controllers, indexes) ← setup_references first (uses_external_clusters arguments.gates)
    w ← success_or_exit "unable to set up health check" (p.add_check [] "healthz")
    x ← success_or_exit "unable to set up ready check" (p.add_check ("healthz" ∷ []) "readyz")
    goes_on (record {
      controllers = controllers;
      indexes = indexes;
      checks = "readyz" ∷ "healthz" ∷ [];
    })

  -- `main`, until the manager has run.
  unfoldable pub main : List String → Process Setup
  main args = do
    (arguments, metrics_opts) ← read_arguments args
    setup ← setup_manager arguments metrics_opts
    u ← success_or_exit "problem running manager" (p.start setup)
    goes_on setup
