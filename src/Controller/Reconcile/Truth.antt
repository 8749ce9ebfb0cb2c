-- ===== src/Controller/Reconcile/Truth.antt =====
-- The conditions of a reconciliation that runs to its end: its steps.
pub mod Stagewise
pub mod Completed
pub mod Reported
use mathlib.Core.Path.{subst}
use cluster_api_control_plan.Prelude.{
  String, Bool, true, false, not, ◌&&◌, Option, none, some, List, [], ◌∷◌, ◌≡◌, ◌≢◌, refl, sym, ap,
  ◌∙◌, arith, All, inl, inr, ◌==◌, eq_iff, Bool-cases,
}
use cluster_api_control_plan.Errors.{Error, Result, ok, error_of}
use cluster_api_control_plan.Api.{
  Cluster, is_true, Condition, ExternalClusterReference, VersionStatus, TenantControlPlane,
}
use cluster_api_control_plan.Conditions.{ConditionFunctions, ConditionLaws}
use cluster_api_control_plan.Conditions.Laws.{track_condition_type-IsOutcome}
use cluster_api_control_plan.Conditions.Types.{
  found_external_cluster_reference, tenant_control_plane_created,
  tenant_control_plane_address_ready, control_plane_endpoint_patched,
  infrastructure_cluster_patched, steward_control_plane_initialized, steward_control_plane_ready,
  kubeadm_resources_created_ready,
}
use cluster_api_control_plan.Kube.{Trace}
use cluster_api_control_plan.Controller.Tenant.{RemoteClient}
use cluster_api_control_plan.Controller.Reconcile.Flow.{
  Ending, State, Flow, Step, go_on, stop, GoesOn, GoesOn-bind, GoesOn-then,
}
use cluster_api_control_plan.Controller.Reconcile.Steps.{
  Environment, Action, flow_of, stop_if, untracked, tracked, decode_conditions, recover_panic,
  refetch_cluster,
}
use cluster_api_control_plan.Controller.Reconcile.Stages.{
  pure, require_version, remote_client, with_remote_client, tenant_stage, infrastructure_stage,
  endpoint_stage, ready_stage, initialize, initialize_if_ready, require_initialized, tracked_only,
  status_stage, completion_stage, stages,
}
use cluster_api_control_plan.Controller.Reconcile.Completion.{flow_of_ok}

module _ (env : Environment) (laws : ConditionLaws env.conditions) where
  -- The condition of the type is there, and true.
  abbrev pub IsTrue : String → State → Type 0
  IsTrue type s =
      (c : Condition) × (env.conditions.find_status_condition s.conditions type ≡ some c)
      × (c.status ≡ is_true)

  -- Conditions but for one type stay true.
  abbrev pub Keeps : State → State → Type 0
  Keeps s s' =
      (type : String) → type ≢ steward_control_plane_initialized → IsTrue type s → IsTrue type s'

  pub Keeps-trans : (s t u : State) → Keeps s t → Keeps t u → Keeps s u
  Keeps-trans s t u first second type other h = second type other (first type other h)

  pub tracked-conditions :
      {A : Type 0} (t : String) (action : Action A) (ending : Error → Ending) (s : State)
      (type : String)
      → t ≢ type
      → IsTrue type s
      → IsTrue type (tracked env t action ending s).1
  unfolding tracked
  tracked-conditions t action ending s type other (c, found, holds) =
      let r = action s.scp s.trace in
      let outcome =
        track_condition_type-IsOutcome env.conditions laws s.conditions t s.scp.meta.generation
          (env.clock r.2) (error_of r.0) in
      (c, outcome.3 type other ∙ found, holds)

  pub tracked-IsTrue :
      {A : Type 0} (t : String) (action : Action A) (ending : Error → Ending) (s s' : State) (a : A)
      → GoesOn (tracked env t action ending) s a s'
      → IsTrue t s'
  unfolding tracked
  tracked-IsTrue t action ending s s' a h =
      let r = action s.scp s.trace in
      let success : error_of r.0 ≡ none = ap error_of (flow_of_ok ending r.0 a (ap (λ x. x.0) h)) in
      let (c, found, outcome, others) =
        track_condition_type-IsOutcome env.conditions laws s.conditions t s.scp.meta.generation
          (env.clock r.2) (error_of r.0) in
      (
        c,
        ap (λ cs. env.conditions.find_status_condition cs t) (sym (ap (λ x. x.1.conditions) h))
            ∙ found,
        (outcome.succeeded success).0,
      )

  pub tracked-Keeps :
      {A : Type 0} (t : String) (action : Action A) (ending : Error → Ending) (s s' : State) (a : A)
      → GoesOn (tracked env t action ending) s a s'
      → Keeps s s'
  tracked-Keeps t action ending s s' a h type other before = elim (Bool-cases (t == type)) [
    | inl same ↦
        subst (λ x. IsTrue x s') ((eq_iff t type).0 same) (tracked-IsTrue t action ending s s' a h)
    | inr different ↦
        subst (IsTrue type) (ap (λ x. x.1) h)
          (tracked-conditions t action ending s type (ground (arith, eq_iff t type)) before)
  ]

  -- A step that leaves the conditions as they are.
  pub same-Keeps : (s s' : State) → s.conditions ≡ s'.conditions → Keeps s s'
  same-Keeps s s' same type other (c, found, holds) =
      (c, ap (λ cs. env.conditions.find_status_condition cs type) (sym same) ∙ found, holds)

  -- The decoding of an answer into the shared array reverts no true condition.
  abbrev pub RevertsNone : Type 0
  RevertsNone =
      (t : Trace) (cs : List Condition) (type : String) (c : Condition)
      → env.conditions.find_status_condition cs type ≡ some c
      → c.status ≡ is_true
      → (d : Condition) × (env.conditions.find_status_condition (env.shared_conditions t cs) type
          ≡ some d)
        × (d.status ≡ is_true)

  pub decode_conditions-Keeps :
      (s s' : State) (u : Unit {0})
      → RevertsNone
      → GoesOn (decode_conditions env) s u s'
      → Keeps s s'
  unfolding decode_conditions
  decode_conditions-Keeps s s' u reverts_none h type other (c, found, holds) =
      subst (IsTrue type) (ap (λ x. x.1) h) (reverts_none s.trace s.conditions type c found holds)

  pub recover_panic-Keeps :
      (t : String) (b : Bool) (s s' : State) (u : Unit {0})
      → GoesOn (recover_panic env t b) s u s'
      → Keeps s s'
  unfolding recover_panic
  recover_panic-Keeps t true s s' u h = absurd (cc (ap (λ x. x.0) h))
  recover_panic-Keeps t false s s' u h = same-Keeps s s' (ap (λ x. x.1.conditions) h)

  pub untracked-Keeps :
      {A : Type 0} (action : Action A) (ending : Error → Ending) (s s' : State) (a : A)
      → GoesOn (untracked action ending) s a s'
      → Keeps s s'
  unfolding untracked
  untracked-Keeps action ending s s' a h = same-Keeps s s' (ap (λ x. x.1.conditions) h)
