-- ===== src/Startup/Success.antt =====
-- When the manager starts, and what it serves with one gate alone.
use cluster_api_control_plan.Prelude.{
  String, Bool, true, false, none, List, [], ◌∷◌, ◌≡◌, inl, inr, refl, sym, ◌∙◌, arith, Bool-cases,
}
use cluster_api_control_plan.Errors.{sentinel, external_cluster_reference_not_enabled, ok, err}
use cluster_api_control_plan.Api.{Opaque, ExternalClusterReference, StewardControlPlane}
use cluster_api_control_plan.Kube.{Trace}
use cluster_api_control_plan.Ecr.Indexers.{Indexer, all_indexers, setup_with_manager_success}
use cluster_api_control_plan.Controller.Remote.{Reconciler, gate, extract_remote_client}
use cluster_api_control_plan.Controller.Setup.{
  Builder, steward_control_plane_builder, external_cluster_reference_builder,
  setup_steward_control_plane, setup_external_cluster_reference,
}
use cluster_api_control_plan.Startup.{
  Arguments, default_arguments, default_gates, manager_options, Setup, Platform, goes_on, ◌>>=◌,
  result_or_exit, success_or_exit, read_arguments, uses_external_clusters, check_dynamic,
  setup_references, setup_manager, main,
}
use cluster_api_control_plan.Startup.Laws.{Allowed, IsStarted, main-IsStarted}

-- No call of the libraries fails.
pub record Succeeds (p : Platform) (arguments : Arguments) : Type 0 where
  pub gates_added : p.add_gates default_gates ≡ none
  pub metrics_opts : Opaque
  pub flags_valid : p.get_manager_options arguments.manager_opts ≡ ok metrics_opts
  pub configured : p.get_config ≡ none
  pub created : p.new_manager (manager_options arguments metrics_opts) ≡ none
  pub client_set : p.libraries.new_for_config ≡ none
  pub completed :
      (controllers : List Builder) (b : Builder) → p.libraries.complete controllers b ≡ none
  pub indexed : (indexers : List Indexer) (i : Indexer) → p.index_field indexers i ≡ none
  pub checked : (checks : List String) (name : String) → p.add_check checks name ≡ none
  pub ran : (s : Setup) → p.start s ≡ none

module _ (p : Platform) (arguments : Arguments) (h : Succeeds p arguments) where
  check_dynamic-Allowed : Allowed arguments → check_dynamic arguments ≡ goes_on tt
  unfolding check_dynamic
  check_dynamic-Allowed (inl no_clusters) =
      rw no_clusters (elim (Bool-cases arguments.gates.dynamic_infrastructure_cluster_patch) [
        | inl on ↦ ground arith
        | inr off ↦ ground arith
      ])
  check_dynamic-Allowed (inr on) = ground arith

  read_arguments_success :
      (args : List String)
      → p.parse args default_arguments ≡ ok arguments
      → Allowed arguments
      → read_arguments p args ≡ goes_on (arguments, h.metrics_opts)
  unfolding read_arguments ◌>>=◌ success_or_exit result_or_exit
  read_arguments_success args parsed allowed =
      ground (arith, check_dynamic-Allowed allowed, h.gates_added, h.flags_valid)

  setup_steward_success :
      setup_steward_control_plane p.libraries arguments.max_concurrent_reconciles []
      ≡ ok (
          steward_control_plane_builder arguments.max_concurrent_reconciles
            p.libraries.server_resources_for_group_version
          ∷ [])
  unfolding setup_steward_control_plane
  setup_steward_success =
      let b : Builder =
        steward_control_plane_builder arguments.max_concurrent_reconciles
          p.libraries.server_resources_for_group_version in
      ground (arith, h.client_set, h.completed [] b)

  setup_external_success :
      (first : List Builder)
      → setup_external_cluster_reference p.libraries first
        ≡ ok (external_cluster_reference_builder ∷ first)
  unfolding setup_external_cluster_reference
  setup_external_success first =
      ground (arith, h.completed first external_cluster_reference_builder)

  setup_references_success :
      (first : List Builder) (used : Bool)
      → (both : List Builder × List Indexer) × (setup_references p first used ≡ goes_on both)
  unfolding setup_references ◌>>=◌ success_or_exit result_or_exit
  setup_references_success first false = ((first, []), refl)
  setup_references_success first true = (
    (external_cluster_reference_builder ∷ first, all_indexers p.index_field),
    rw (setup_with_manager_success p.index_field h.indexed, setup_external_success first) refl,
  )

  setup_manager_success : (s : Setup) × (setup_manager p arguments h.metrics_opts ≡ goes_on s)
  unfolding setup_manager ◌>>=◌ success_or_exit result_or_exit
  setup_manager_success =
      let (both, referring) =
        setup_references_success
          (steward_control_plane_builder arguments.max_concurrent_reconciles
              p.libraries.server_resources_for_group_version
            ∷ [])
          (uses_external_clusters p arguments.gates) in
      (
        record { controllers = both.0; indexes = both.1; checks = "readyz" ∷ "healthz" ∷ [] },
        simp (
          h.configured,
          h.created,
          setup_steward_success,
          referring,
          h.checked [] "healthz",
          h.checked ("healthz" ∷ []) "readyz",
        ),
      )

  -- Where the flags parse, dynamic infrastructure clusters are given only with their gate, and no call
  -- of the libraries fails, the process does not exit: the manager is set up and runs.
  pub main_starts :
      (args : List String)
      → p.parse args default_arguments ≡ ok arguments
      → Allowed arguments
      → (s : Setup) × (main p args ≡ goes_on s)
  unfolding main ◌>>=◌ success_or_exit result_or_exit
  main_starts args parsed allowed =
      let (s, set) = setup_manager_success in
      (s, rw (read_arguments_success args parsed allowed, set, h.ran s) refl)

-- When the manager runs with the gate ExternalClusterReferenceCrossNamespace and without
-- ExternalClusterReference, the controller of the kubeconfig secrets is set up, but a reconciler of the
-- StewardControlPlanes with these gates refuses every reference before it makes a call.
pub cross_namespace_alone :
    (p : Platform) (args : List String) (arguments : Arguments) (s : Setup)
    → main p args ≡ goes_on s
    → p.parse args default_arguments ≡ ok arguments
    → arguments.gates.external_cluster_reference ≡ false
    → arguments.gates.external_cluster_reference_cross_namespace ≡ true
    → (s.controllers
        ≡ external_cluster_reference_builder
          ∷ steward_control_plane_builder arguments.max_concurrent_reconciles
              p.libraries.server_resources_for_group_version
          ∷ [])
      × ((r : Reconciler) (scp : StewardControlPlane) (ecr : ExternalClusterReference)
            (trace : Trace)
          → r.features ≡ arguments.gates
          → extract_remote_client r scp ecr trace
            ≡ (err (sentinel external_cluster_reference_not_enabled), trace))
unfolding extract_remote_client gate
cross_namespace_alone p args arguments s h parsed off on =
    let started : IsStarted p args s = main-IsStarted p args s h in
    let same : ok started.arguments ≡ ok arguments = sym started.parsed ∙ parsed in
    let same_arguments : started.arguments ≡ arguments = cc in
    (
      ((rw same_arguments at started.references).0 (ground arith)).0,
      λ r scp ecr trace gates. ground arith,
    )
