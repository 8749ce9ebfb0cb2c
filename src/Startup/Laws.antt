-- ===== src/Startup/Laws.antt =====
-- What is set up when the manager starts.
use mathlib.Core.Path.{subst}
use cluster_api_control_plan.Prelude.{
  String, Bool, true, false, Option, none, some, List, [], ◌∷◌, ◌≡◌, ◌⊎◌, inl, inr, refl, sym, ap,
  ◌∙◌, arith, Bool-cases,
}
use cluster_api_control_plan.Prelude.Int.{ℤ}
use cluster_api_control_plan.Errors.{Error, Result, ok, err}
use cluster_api_control_plan.Api.{Opaque}
use cluster_api_control_plan.Ecr.Indexers.{all_indexers, setup_with_manager_ok}
use cluster_api_control_plan.Controller.Setup.{
  Builder, steward_control_plane_builder, external_cluster_reference_builder,
  setup_steward_control_plane, setup_external_cluster_reference,
}
use cluster_api_control_plan.Startup.{
  Arguments, default_arguments, Setup, Platform, Process, goes_on, exits, ◌>>=◌, result_or_exit,
  success_or_exit, read_arguments, uses_external_clusters, check_dynamic, has_no_clusters,
  setup_references, setup_manager, main,
}

goes_on-bind :
    {A B : Type 0} (m : Process A) (f : A → Process B) (b : B)
    → (m >>= f) ≡ goes_on b
    → (a : A) × (m ≡ goes_on a) × (f a ≡ goes_on b)
unfolding ◌>>=◌
goes_on-bind (goes_on a) f b h = (a, refl, h)
goes_on-bind (exits message) f b h = absurd (cc)

goes_on_inj : {A : Type 0} (a b : A) → Process.goes_on a ≡ goes_on b → a ≡ b
goes_on_inj a b h = cc

result_or_exit_ok :
    {A : Type 0} (message : String) (r : Result A) (a : A)
    → result_or_exit message r ≡ goes_on a
    → r ≡ ok a
unfolding result_or_exit
result_or_exit_ok message (ok x) a h = cc
result_or_exit_ok message (err e) a h = absurd (cc)

success_or_exit_ok :
    (message : String) (o : Option Error) (u : Unit {0})
    → success_or_exit message o ≡ goes_on u
    → o ≡ none
unfolding success_or_exit
success_or_exit_ok message none u h = refl
success_or_exit_ok message (some e) u h = absurd (cc)

has_no_clusters-nil : (l : List String) → has_no_clusters l ≡ true → l ≡ []
has_no_clusters-nil [] h = refl
has_no_clusters-nil (x ∷ l) h = absurd (cc)

-- The dynamic infrastructure clusters have their gate.
abbrev pub Allowed : Arguments → Type 0
Allowed arguments =
    (arguments.dynamic_infra_clusters ≡ [])
    ⊎ (arguments.gates.dynamic_infrastructure_cluster_patch ≡ true)

check_dynamic_ok :
    (arguments : Arguments) (u : Unit {0}) → check_dynamic arguments ≡ goes_on u → Allowed arguments
unfolding check_dynamic
check_dynamic_ok arguments u h =
    elim (Bool-cases arguments.gates.dynamic_infrastructure_cluster_patch) [
      | inl on ↦ inr on
      | inr off ↦ elim (Bool-cases (has_no_clusters arguments.dynamic_infra_clusters)) [
        | inl empty ↦ inl (has_no_clusters-nil _ empty)
        | inr there ↦ absurd (ground arith)
      ]
    ]

module _ (p : Platform) where
  read_arguments_ok :
      (args : List String) (arguments : Arguments) (metrics_opts : Opaque)
      → read_arguments p args ≡ goes_on (arguments, metrics_opts)
      → (p.parse args default_arguments ≡ ok arguments) × Allowed arguments
  unfolding read_arguments
  read_arguments_ok args arguments metrics_opts h =
      let (u, gated, r1) = goes_on-bind _ _ (arguments, metrics_opts) h in
      let (x, parsed, r2) = goes_on-bind _ _ (arguments, metrics_opts) r1 in
      let (v, flags, r3) = goes_on-bind _ _ (arguments, metrics_opts) r2 in
      let (w, allowed, r4) = goes_on-bind _ _ (arguments, metrics_opts) r3 in
      let same = ap (λ r. r.0) (goes_on_inj (x, v) (arguments, metrics_opts) r4) in
      (result_or_exit_ok _ _ x parsed ∙ ap ok same, rw⁻¹ same (check_dynamic_ok x w allowed))

  setup_steward_ok :
      (max : ℤ) (controllers : List Builder)
      → setup_steward_control_plane p.libraries max [] ≡ ok controllers
      → (steward_control_plane_builder max p.libraries.server_resources_for_group_version ∷ [])
        ≡ controllers
  unfolding setup_steward_control_plane
  setup_steward_ok max controllers h = ground arith

  setup_external_ok :
      (first controllers : List Builder)
      → setup_external_cluster_reference p.libraries first ≡ ok controllers
      → external_cluster_reference_builder ∷ first ≡ controllers
  unfolding setup_external_cluster_reference
  setup_external_ok first controllers h = ground arith

  -- What is set up for the external clusters.
  abbrev pub HasReferences : List Builder → Bool → Setup → Type 0
  HasReferences first used s =
      (used ≡ true
        → (s.controllers ≡ external_cluster_reference_builder ∷ first)
          × (s.indexes ≡ all_indexers p.index_field))
      × (used ≡ false → (s.controllers ≡ first) × (s.indexes ≡ []))

  setup_references_ok :
      (first : List Builder) (used : Bool) (s : Setup)
      → setup_references p first used ≡ goes_on (s.controllers, s.indexes)
      → HasReferences first used s
  unfolding setup_references
  setup_references_ok first false s h =
      let same = goes_on_inj (first, []) (s.controllers, s.indexes) h in
      (λ e. absurd (cc), λ e. (sym (ap (λ x. x.0) same), sym (ap (λ x. x.1) same)))
  setup_references_ok first true s h =
      let (indexes, indexed, r1) = goes_on-bind _ _ (s.controllers, s.indexes) h in
      let (more, set, r2) = goes_on-bind _ _ (s.controllers, s.indexes) r1 in
      let same = goes_on_inj (more, indexes) (s.controllers, s.indexes) r2 in
      let all =
        setup_with_manager_ok p.index_field indexes (result_or_exit_ok _ _ indexes indexed) in
      let external = setup_external_ok first more (result_or_exit_ok _ _ more set) in
      (
        λ e. (sym (ap (λ x. x.0) same) ∙ sym external, sym (ap (λ x. x.1) same) ∙ all),
        λ e. absurd (cc),
      )

  pub record IsStarted (args : List String) (s : Setup) : Type 0 where
    pub arguments : Arguments
    pub parsed : p.parse args default_arguments ≡ ok arguments
    pub allowed : Allowed arguments
    pub checks : s.checks ≡ "readyz" ∷ "healthz" ∷ []
    pub references :
        HasReferences
          (steward_control_plane_builder arguments.max_concurrent_reconciles
              p.libraries.server_resources_for_group_version
            ∷ [])
          (uses_external_clusters p arguments.gates)
          s
    pub started : p.start s ≡ none

  setup_manager_ok :
      (arguments : Arguments) (metrics_opts : Opaque) (s : Setup)
      → setup_manager p arguments metrics_opts ≡ goes_on s
      → (s.checks ≡ "readyz" ∷ "healthz" ∷ [])
        × HasReferences
            (steward_control_plane_builder arguments.max_concurrent_reconciles
                p.libraries.server_resources_for_group_version
              ∷ [])
            (uses_external_clusters p arguments.gates)
            s
  unfolding setup_manager
  setup_manager_ok arguments metrics_opts s h =
      let (u, configured, r1) = goes_on-bind _ _ s h in
      let (v, created, r2) = goes_on-bind _ _ s r1 in
      let (first, set, r3) = goes_on-bind _ _ s r2 in
      let (both, referring, r4) = goes_on-bind _ _ s r3 in
      let (w, health, r5) = goes_on-bind _ _ s r4 in
      let (x, ready, r6) = goes_on-bind _ _ s r5 in
      let same = goes_on_inj _ s r6 in
      (
        sym (ap (λ (t : Setup). t.checks) same),
        rw
            (setup_steward_ok arguments.max_concurrent_reconciles first
              (result_or_exit_ok _ _ first set))
            (setup_references_ok first (uses_external_clusters p arguments.gates) s
              (referring ∙ ap (λ (t : Setup). goes_on (t.controllers, t.indexes)) same)),
      )

  -- The process does not exit only when the flags parse, dynamic infrastructure clusters are given only
  -- with their gate, both checks and the controller of the StewardControlPlanes are set up, the
  -- three indexes and the controller of the kubeconfig secrets are set up exactly when one of the two
  -- gates of the external clusters is on, and the manager ran without an error. The TenantControlPlanes
  -- of the management cluster are watched exactly when the discovery found them.
  pub main-IsStarted : (args : List String) (s : Setup) → main p args ≡ goes_on s → IsStarted args s
  unfolding main
  main-IsStarted args s h =
      let ((arguments, metrics_opts), got, r1) = goes_on-bind _ _ s h in
      let (t, set, r2) = goes_on-bind _ _ s r1 in
      let (u, ran, r3) = goes_on-bind _ _ s r2 in
      let same = goes_on_inj t s r3 in
      let (parsed, allowed) = read_arguments_ok args arguments metrics_opts got in
      let (checks, references) = setup_manager_ok arguments metrics_opts t set in
      record {
        arguments = arguments;
        parsed = parsed;
        allowed = allowed;
        checks = rw⁻¹ same checks;
        references =
            subst
              (HasReferences
                (steward_control_plane_builder arguments.max_concurrent_reconciles
                    p.libraries.server_resources_for_group_version
                  ∷ [])
                (uses_external_clusters p arguments.gates))
              same references;
        started = rw⁻¹ same (success_or_exit_ok _ _ u ran);
      }
