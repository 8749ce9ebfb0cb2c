-- ===== src/Controller/Reconcile/Failures.antt =====
-- The error that a reconciliation returns, and where it is reported.
pub mod Stagewise
pub mod Reported
use cluster_api_control_plan.Prelude.{
  String, Bool, true, false, Option, none, some, ◌≡◌, ◌≢◌, refl, ap, ◌∷◌, elem, ◌⊎◌, inl, inr,
  Option-cases, Bool-cases, ◌∙◌, if◌then◌else◌, arith,
}
use cluster_api_control_plan.Errors.{Error, is_not_found, Result, ok, err, error_of}
use cluster_api_control_plan.Api.{Key, key_of, Cluster, Condition, is_false, StewardControlPlane}
use cluster_api_control_plan.Conditions.{ConditionLaws}
use cluster_api_control_plan.Conditions.Laws.{track_condition_type-IsOutcome}
use cluster_api_control_plan.Conditions.Types.{condition_types}
use cluster_api_control_plan.Kube.{get_cluster, Trace}
use cluster_api_control_plan.Controller.Finalizer.{handle_finalizer}
use cluster_api_control_plan.Controller.Tenant.{RemoteClient, nil_reference, dereferences_nil}
use cluster_api_control_plan.Controller.Reconcile.Flow.{
  Ending, finished, requeued, failed, State, go_on, stop, Explains,
}
use cluster_api_control_plan.Controller.Reconcile.Steps.{
  Environment, Action, flow_of, result_of, of_error, enqueue_or_fail, stop_if, untracked, tracked,
  decode_conditions, recover_panic, refetch_cluster,
}
use cluster_api_control_plan.Controller.Reconcile.Stages.{pure}

-- An ending that fails, fails with the error that it is given.
abbrev Passes : (Error → Ending) → Type 0
Passes ending = (e x : Error) → ending e ≡ failed x → e ≡ x

pub failed-Passes : Passes failed
failed-Passes e x h = cc h

pub requeued-Passes : Passes (λ _. requeued)
requeued-Passes e x h = absurd (cc)

pub enqueue_or_fail-Passes : Passes enqueue_or_fail
enqueue_or_fail-Passes e x h = ground arith

after_get-Passes : Passes (λ e. if is_not_found e then finished else failed e)
after_get-Passes e x h = ground arith

split_failure :
    {A : Type 0} (ending : Error → Ending) (r : Result A) (x : Error)
    → Passes ending
    → flow_of ending r ≡ stop (failed x)
    → r ≡ err x
split_failure ending (ok a) x passes h = absurd (cc)
split_failure ending (err e) x passes h = let same : e ≡ x = passes e x (cc h) in cc same

split_result : (o : Option Error) (x : Error) → result_of o ≡ err x → o ≡ some x
split_result none x h = absurd (cc)
split_result (some e) x h = cc h

pub never_stops : {A : Type 0} (a : A) (e : Ending) → go_on a ≢ stop e
never_stops a e h = cc h

module _ (env : Environment) where
  -- A tracked condition is false, with the error's text.
  abbrev pub IsReported : Error → State → Type 0
  IsReported x s =
      (type : String) × (c : Condition) × (elem type condition_types ≡ true)
      × (env.conditions.find_status_condition s.conditions type ≡ some c)
      × (c.status ≡ is_false)
      × (c.message ≡ env.conditions.error_text x)

  -- The error with which the finalizer's update, or the second read of the cluster, has just ended, or
  -- the panic where the object, read again, has lost its reference.
  abbrev pub IsUntracked : Cluster → Error → State → Type 0
  IsUntracked cluster x s =
      ((scp : StewardControlPlane) × (trace : Trace) × (handle_finalizer env.reconciler env.sets
            env.retry scp trace
          ≡ (some x, s.scp, s.trace)))
      ⊎ ((trace : Trace) × (env.reconciler.client.stored_cluster trace (key_of cluster.meta)
            ≡ err x)
          × (s.trace ≡ get_cluster (key_of cluster.meta) ∷ trace))
      ⊎ ((x ≡ nil_reference) × (s.scp.spec.fields.deployment.external_cluster_reference ≡ none))

  abbrev pub IsExplained : Cluster → Error → State → Type 0
  IsExplained cluster x s = IsReported x s ⊎ IsUntracked cluster x s

lost_reference :
    (remote : RemoteClient) (scp : StewardControlPlane)
    → dereferences_nil remote scp ≡ true
    → scp.spec.fields.deployment.external_cluster_reference ≡ none
lost_reference none scp h = absurd (cc)
lost_reference (some mgr) scp h =
    elim (Option-cases scp.spec.fields.deployment.external_cluster_reference) [
      | inl lost ↦ lost
      | inr (ecr, has) ↦ absurd (ground arith)
    ]

module _ (env : Environment) (laws : ConditionLaws env.conditions) (cluster : Cluster) where
  pub tracked-Explains :
      {A : Type 0} (type : String) (action : Action A) (ending : Error → Ending)
      → elem type condition_types ≡ true
      → Passes ending
      → Explains (IsExplained env cluster) (tracked env type action ending)
  unfolding tracked
  tracked-Explains type action ending listed passes s x h =
      let r = action s.scp s.trace in
      let fails : r.0 ≡ err x = split_failure ending r.0 x passes h in
      let (c, found, outcome, others) =
        track_condition_type-IsOutcome env.conditions laws s.conditions type s.scp.meta.generation
          (env.clock r.2) (error_of r.0) in
      let (status, text, reason) = outcome.failed x (ap error_of fails) in
      inl (type, c, listed, found, status, text)

  pub pure-Explains : {A : Type 0} (a : A) → Explains (IsExplained env cluster) (pure a)
  pure-Explains a s x h = absurd (never_stops a (failed x) h)

  pub stop_if-Explains : (b : Bool) → Explains (IsExplained env cluster) (stop_if b requeued)
  stop_if-Explains true s x h = absurd (cc)
  stop_if-Explains false s x h = absurd (cc)

  pub finalizer-Explains :
      Explains
        (IsExplained env cluster)
        (untracked (of_error (handle_finalizer env.reconciler env.sets env.retry)) failed)
  unfolding untracked
  finalizer-Explains s x h =
      let r = handle_finalizer env.reconciler env.sets env.retry s.scp s.trace in
      let fails : r.0 ≡ some x =
        split_result r.0 x (split_failure failed (result_of r.0) x failed-Passes h) in
      inr (inl (s.scp, s.trace, cc fails))

  pub refetch_cluster-Explains : Explains (IsExplained env cluster) (refetch_cluster env cluster)
  unfolding refetch_cluster
  refetch_cluster-Explains s x h =
      inr (inr (inl (s.trace, split_failure _ _ x after_get-Passes h, refl)))

  pub recover_panic-Explains :
      (type : String) (remote : RemoteClient)
      → Explains
          (IsExplained env cluster)
          (λ s. recover_panic env type (dereferences_nil remote s.scp) s)
  unfolding recover_panic
  recover_panic-Explains type remote s x h = elim (Bool-cases (dereferences_nil remote s.scp)) [
    | inl panics ↦
        let (stops, same) = panicked _ s x panics h in
        inr (inr (inr (stops, same ∙ lost_reference remote s.scp panics)))
    | inr fine ↦ absurd (goes_on _ s x fine h)
  ]
    where
      panicked :
          (b : Bool) (s : State) (x : Error)
          → b ≡ true
          → (recover_panic env type b s).0 ≡ stop (failed x)
          → (x ≡ nil_reference)
            × ((recover_panic env type b s).1.scp.spec.fields.deployment.external_cluster_reference
                ≡ s.scp.spec.fields.deployment.external_cluster_reference)
      panicked true s x h k = (cc k, refl)
      panicked false s x h k = absurd (cc)

      goes_on :
          (b : Bool) (s : State) (x : Error)
          → b ≡ false
          → (recover_panic env type b s).0 ≡ stop (failed x)
          → ⊥
      goes_on true s x h k = absurd (cc)
      goes_on false s x h k = cc k

  pub decode_conditions-Explains : Explains (IsExplained env cluster) (decode_conditions env)
  unfolding decode_conditions
  decode_conditions-Explains s x h = absurd (never_stops tt (failed x) h)
