-- ===== src/Controller/Reconcile/Securing.antt =====
-- What stands before anything is written to an external cluster.
use mathlib.Core.Path.{subst}
use cluster_api_control_plan.Prelude.{
  String, true, Option, none, some, ◌≡◌, ◌⊎◌, inl, inr, refl, sym, ap, elem, All,
}
use cluster_api_control_plan.Errors.{Error, ok}
use cluster_api_control_plan.Api.{ExternalClusterReference, StewardControlPlane}
use cluster_api_control_plan.Kube.{Trace}
use cluster_api_control_plan.Kube.Sets.{SetLaws}
use cluster_api_control_plan.Controller.Remote.{extract_remote_client}
use cluster_api_control_plan.Controller.Remote.Laws.{
  IsReady, extract_remote_client_iff, extract_remote_client_reads,
}
use cluster_api_control_plan.Controller.Finalizer.{
  external_cluster_reference_finalizer, handle_finalizer,
}
use cluster_api_control_plan.Controller.Finalizer.Setting.{
  Carries, EndsInUpdate, handle_finalizer_lem,
}
use cluster_api_control_plan.Controller.Tenant.{RemoteClient}
use cluster_api_control_plan.Conditions.Types.{found_external_cluster_reference}
use cluster_api_control_plan.Controller.Reconcile.Flow.{
  Ending, failed, State, GoesOn, GoesOn-bind, GoesOn-then,
}
use cluster_api_control_plan.Controller.Reconcile.Steps.{
  Environment, Action, keeping, of_error, result_of, untracked, tracked,
}
use cluster_api_control_plan.Controller.Reconcile.Stages.{remote_client, with_remote_client}
use cluster_api_control_plan.Controller.Reconcile.Completion.{flow_of_ok, tracked_ok}

module _ (env : Environment) where
  tracked_trace :
      {A : Type 0} (type : String) (action : Action A) (ending : Error → Ending) (s s' : State)
      (a : A)
      → GoesOn (tracked env type action ending) s a s'
      → (action s.scp s.trace).2 ≡ s'.trace
  unfolding tracked
  tracked_trace type action ending s s' a h = ap (λ r. r.1.trace) h

  untracked_ok :
      {A : Type 0} (action : Action A) (ending : Error → Ending) (s s' : State) (a : A)
      → GoesOn (untracked action ending) s a s'
      → ((action s.scp s.trace).0 ≡ ok a) × ((action s.scp s.trace).2 ≡ s'.trace)
  unfolding untracked
  untracked_ok action ending s s' a h =
      (flow_of_ok ending (action s.scp s.trace).0 a (ap (λ r. r.0) h), ap (λ r. r.1.trace) h)

  result_of-none : (o : Option Error) (u : Unit {0}) → result_of o ≡ ok u → o ≡ none
  result_of-none none u h = refl
  result_of-none (some e) u h = absurd (cc)

  -- A remote client is ready, and the finalizer of the external clusters is there.
  abbrev pub IsSecured : State → RemoteClient → State → Type 0
  IsSecured s none s' = s.scp.spec.fields.deployment.external_cluster_reference ≡ none
  IsSecured s (some mgr) s' =
      (ecr : ExternalClusterReference) × (s.scp.spec.fields.deployment.external_cluster_reference
        ≡ some ecr)
      × IsReady env.reconciler s.scp ecr s.trace mgr
      × ((elem external_cluster_reference_finalizer s.scp.meta.finalizers ≡ true)
          ⊎ EndsInUpdate env.reconciler.client s'.trace)

  extract-Carries :
      (scp : StewardControlPlane) (ecr : ExternalClusterReference) (t : Trace)
      → All (Carries scp.meta.finalizers) t
      → All (Carries scp.meta.finalizers) (extract_remote_client env.reconciler scp ecr t).1
  extract-Carries scp ecr t carried = elim (extract_remote_client_reads env.reconciler scp ecr t) [
    | inl same ↦ rw same carried
    | inr (read, allowed) ↦ rw read (tt, carried)
  ]

  module _ (laws : SetLaws env.sets) where
    remote_client-IsSecured :
        (o : Option ExternalClusterReference) (s s' : State) (remote : RemoteClient)
        → s.scp.spec.fields.deployment.external_cluster_reference ≡ o
        → All (Carries s.scp.meta.finalizers) s.trace
        → GoesOn (remote_client env o) s remote s'
        → IsSecured s remote s'
    unfolding remote_client
    remote_client-IsSecured none s s' none has carried h = has
    remote_client-IsSecured none s s' (some mgr) has carried h = absurd (cc (ap (λ r. r.0) h))
    remote_client-IsSecured (some ecr) s s' remote has carried h =
        let (mgr, s1, got, r1) = GoesOn-bind _ _ s s' remote h in
        let (u, s2, set, r2) = GoesOn-then _ _ s1 s' remote r1 in
        let (extracted, same_scp) =
          tracked_ok env found_external_cluster_reference
            (keeping (λ scp. extract_remote_client env.reconciler scp ecr)) failed s s1 mgr got in
        let trace1 =
          tracked_trace found_external_cluster_reference
            (keeping (λ scp. extract_remote_client env.reconciler scp ecr)) failed s s1 mgr got in
        let (done, trace2) =
          untracked_ok (of_error (handle_finalizer env.reconciler env.sets env.retry)) failed s1 s2
            u set in
        let carried1 : All (Carries s1.scp.meta.finalizers) s1.trace =
          subst (λ x. All (Carries x.meta.finalizers) s1.trace) same_scp
            (subst (λ t. All (Carries s.scp.meta.finalizers) t) trace1
              (extract-Carries s.scp ecr s.trace carried)) in
        let (_, wrote) =
          handle_finalizer_lem env.reconciler env.sets laws env.retry s1.scp s1.trace carried1 in
        let secured : (elem external_cluster_reference_finalizer s.scp.meta.finalizers ≡ true)
            ⊎ EndsInUpdate env.reconciler.client s2.trace =
          subst
            (λ x.
              (elem external_cluster_reference_finalizer x.meta.finalizers ≡ true)
              ⊎ EndsInUpdate env.reconciler.client s2.trace)
            (sym same_scp)
            (subst
              (λ t.
                (elem external_cluster_reference_finalizer s1.scp.meta.finalizers ≡ true)
                ⊎ EndsInUpdate env.reconciler.client t)
              trace2 (wrote (result_of-none _ u done))) in
        let last : some mgr ≡ remote = cc (ap (λ r. r.0) r2) in
        subst (λ x. IsSecured s x s') last
          (subst (λ x. IsSecured s (some mgr) x) (ap (λ r. r.1) r2)
            (
              ecr,
              has,
              (extract_remote_client_iff env.reconciler s.scp ecr s.trace mgr).0 extracted,
              secured,
            ))

    -- A reconciliation goes on with a client of an external cluster only if the control plane has a
    -- reference, the client is ready, and the finalizer was there or has been written by an update that
    -- was accepted, the last call by then; without a reference it goes on without one. Every update so far carried the
    -- object's finalizers; the sets have their laws.
    pub with_remote_client-IsSecured :
        (s s' : State) (remote : RemoteClient)
        → All (Carries s.scp.meta.finalizers) s.trace
        → GoesOn (with_remote_client env) s remote s'
        → IsSecured s remote s'
    unfolding with_remote_client
    with_remote_client-IsSecured s s' remote carried h =
        remote_client-IsSecured s.scp.spec.fields.deployment.external_cluster_reference s s' remote
          refl carried h
