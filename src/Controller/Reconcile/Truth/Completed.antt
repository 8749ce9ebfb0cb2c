-- ===== src/Controller/Reconcile/Truth/Completed.antt =====
-- The conditions of a reconciliation that runs to its end: the last stages, and all of them.
use mathlib.Core.Path.{subst}
use cluster_api_control_plan.Prelude.{
  String, Bool, true, false, Option, none, some, ◌≡◌, ◌≢◌, sym, ap, ◌∙◌, ◌⊎◌, inl, inr,
  Option-cases,
}
use cluster_api_control_plan.Api.{Cluster, VersionStatus, TenantControlPlane}
use cluster_api_control_plan.Conditions.{ConditionLaws}
use cluster_api_control_plan.Conditions.Types.{
  found_external_cluster_reference, tenant_control_plane_created,
  tenant_control_plane_address_ready, control_plane_endpoint_patched,
  infrastructure_cluster_patched, steward_control_plane_initialized, steward_control_plane_ready,
  kubeadm_resources_created_ready,
}
use cluster_api_control_plan.Controller.Tenant.{RemoteClient}
use cluster_api_control_plan.Controller.Reconcile.Flow.{
  Ending, State, GoesOn, GoesOn-bind, GoesOn-then,
}
use cluster_api_control_plan.Controller.Reconcile.Steps.{Environment, stop_if}
use cluster_api_control_plan.Controller.Reconcile.Stages.{
  require_version, remote_client, with_remote_client, ready_stage, initialize, initialize_if_ready,
  require_initialized, tracked_only, status_stage, completion_stage, stages,
}
use cluster_api_control_plan.Controller.Reconcile.Truth.{
  RevertsNone, IsTrue, tracked-conditions, Keeps, Keeps-trans, tracked-IsTrue, tracked-Keeps,
  same-Keeps,
}
use cluster_api_control_plan.Controller.Reconcile.Truth.Stagewise.{
  remote_client-some, remote_client-none, tenant_stage-Keeps, endpoint_stage-Keeps,
}

module _ (env : Environment) (laws : ConditionLaws env.conditions) where
  stop_if-Keeps :
      (b : Bool) (e : Ending) (s s' : State) (u : Unit {0})
      → GoesOn (stop_if b e) s u s'
      → Keeps env laws s s'
  stop_if-Keeps true e s s' u h = absurd (cc (ap (λ x. x.0) h))
  stop_if-Keeps false e s s' u h = same-Keeps env laws s s' (ap (λ x. x.1.conditions) h)

  require_version-Keeps :
      (o : Option VersionStatus) (s s' : State) (v : VersionStatus)
      → GoesOn (require_version o) s v s'
      → Keeps env laws s s'
  unfolding require_version
  require_version-Keeps none s s' v h = absurd (cc (ap (λ x. x.0) h))
  require_version-Keeps (some x) s s' v h = same-Keeps env laws s s' (ap (λ y. y.1.conditions) h)

  ready_stage-Keeps :
      (cluster : Cluster) (tcp : TenantControlPlane) (s s' : State) (version : VersionStatus)
      → GoesOn (ready_stage env cluster tcp) s version s'
      → Keeps env laws s s'
  unfolding ready_stage
  ready_stage-Keeps cluster tcp s s' version h =
      let (u, s1, host, r1) = GoesOn-then _ _ s s' version h in
      let (v, s2, infrastructure, r2) = GoesOn-then _ _ s1 s' version r1 in
      Keeps-trans env laws s s1 s' (stop_if-Keeps _ _ s s1 u host) (
        Keeps-trans env laws s1 s2 s' (stop_if-Keeps _ _ s1 s2 v infrastructure)
          (require_version-Keeps _ s2 s' version r2))

  initialize-Keeps :
      (b : Bool) (s s' : State) (u : Unit {0})
      → GoesOn (initialize env b) s u s'
      → Keeps env laws s s'
  unfolding initialize
  initialize-Keeps true s s' u h =
      tracked-Keeps env laws steward_control_plane_initialized _ _ s s' u h
  initialize-Keeps false s s' u h = same-Keeps env laws s s' (ap (λ x. x.1.conditions) h)

  -- The status update whose error is dropped is recorded as the one condition that need not be true.
  tracked_only-Keeps :
      (s s' : State) (u : Unit {0}) → GoesOn (tracked_only env) s u s' → Keeps env laws s s'
  unfolding tracked_only
  tracked_only-Keeps s s' u h type other before = subst (IsTrue env laws type) (ap (λ x. x.1) h) (
      tracked-conditions env laws steward_control_plane_initialized _ _ s type (λ e. other (sym e))
        before)

  status_stage-Keeps :
      (version : VersionStatus) (tcp : TenantControlPlane) (s s' : State) (u : Unit {0})
      → GoesOn (status_stage env version tcp) s u s'
      → Keeps env laws s s'
  unfolding status_stage initialize_if_ready require_initialized
  status_stage-Keeps version tcp s s' u h =
      let (u1, s1, initialized, r1) = GoesOn-then _ _ s s' u h in
      let (u2, s2, required, r2) = GoesOn-then _ _ s1 s' u r1 in
      let (u3, s3, reported, r3) = GoesOn-then _ _ s2 s' u r2 in
      Keeps-trans env laws s s1 s' (initialize-Keeps _ s s1 u1 initialized) (
        Keeps-trans env laws s1 s2 s' (stop_if-Keeps _ _ s1 s2 u2 required) (
          Keeps-trans env laws s2 s3 s'
            (tracked-Keeps env laws steward_control_plane_initialized _ _ s2 s3 u3 reported)
            (tracked_only-Keeps s3 s' u r3)))

  completion_stage-Keeps :
      (cluster : Cluster) (remote : RemoteClient) (tcp : TenantControlPlane)
      (version : VersionStatus) (s s' : State) (u : Unit {0})
      → GoesOn (completion_stage env cluster remote tcp version) s u s'
      → Keeps env laws s s'
        × IsTrue env laws kubeadm_resources_created_ready s'
        × IsTrue env laws steward_control_plane_ready s'
  unfolding completion_stage
  completion_stage-Keeps cluster remote tcp version s s' u h =
      let (v, s1, replicated, r1) = GoesOn-then _ _ s s' u h in
      let first = tracked-Keeps env laws kubeadm_resources_created_ready _ _ s s1 v replicated in
      let last = tracked-Keeps env laws steward_control_plane_ready _ _ s1 s' u r1 in
      (
        Keeps-trans env laws s s1 s' first last,
        last kubeadm_resources_created_ready (λ e. cc)
            (tracked-IsTrue env laws kubeadm_resources_created_ready _ _ s s1 v replicated),
        tracked-IsTrue env laws steward_control_plane_ready _ _ s1 s' u r1,
      )

  kept_or :
      {P : Type 0} (s s' : State) (type : String)
      → Keeps env laws s s'
      → type ≢ steward_control_plane_initialized
      → P ⊎ IsTrue env laws type s
      → P ⊎ IsTrue env laws type s'
  kept_or s s' type kept other (inl p) = inl p
  kept_or s s' type kept other (inr holds) = inr (kept type other holds)

  -- The remote client: its condition, where there is a reference.
  with_remote_client-Keeps :
      (s s' : State) (remote : RemoteClient)
      → GoesOn (with_remote_client env) s remote s'
      → Keeps env laws s s'
        × ((s.scp.spec.fields.deployment.external_cluster_reference ≡ none)
            ⊎ IsTrue env laws found_external_cluster_reference s')
  unfolding with_remote_client
  with_remote_client-Keeps s s' remote h =
      elim (Option-cases s.scp.spec.fields.deployment.external_cluster_reference) [
        | inl absent ↦ (
          remote_client-none env laws s s' remote
              (ap (λ o. remote_client env o s) (sym absent) ∙ h),
          inl absent,
        )
        | inr (ecr, has) ↦
            let (kept, found) =
              remote_client-some env laws ecr s s' remote
                (ap (λ o. remote_client env o s) (sym has) ∙ h) in
            (kept, inr found)
      ]

  abbrev pub AllTrue : State → State → Type 0
  AllTrue s s' =
      ((s.scp.spec.fields.deployment.external_cluster_reference ≡ none)
        ⊎ IsTrue env laws found_external_cluster_reference s')
      × IsTrue env laws tenant_control_plane_created s'
      × IsTrue env laws tenant_control_plane_address_ready s'
      × IsTrue env laws control_plane_endpoint_patched s'
      × ((env.reconciler.features.skip_infra_cluster_patch ≡ true)
          ⊎ IsTrue env laws infrastructure_cluster_patched s')
      × IsTrue env laws kubeadm_resources_created_ready s'
      × IsTrue env laws steward_control_plane_ready s'

  -- A reconciliation that runs to its end leaves true conditions: that of the external cluster where
  -- there is a reference, that of the infrastructure unless its patch is skipped, and each other
  -- tracked one but that of the initialization, whose last status update may fail unseen. The decoding of
  -- the answer to the endpoint's patch reverts no true condition, and the functions
  -- on conditions have their laws.
  pub stages-AllTrue :
      (cluster : Cluster) (s s' : State)
      → RevertsNone env laws
      → GoesOn (stages env cluster) s tt s'
      → AllTrue s s'
  unfolding stages
  stages-AllTrue cluster s s' reverts_none h =
      let (remote, s1, got_remote, r1) = GoesOn-bind _ _ s s' tt h in
      let (tcp, s2, got_tenant, r2) = GoesOn-bind _ _ s1 s' tt r1 in
      let (fresh, s3, got_cluster, r3) = GoesOn-bind _ _ s2 s' tt r2 in
      let (version, s4, got_version, r4) = GoesOn-bind _ _ s3 s' tt r3 in
      let (u, s5, reported, r5) = GoesOn-then _ _ s4 s' tt r4 in
      let (k1, found) = with_remote_client-Keeps s s1 remote got_remote in
      let (k2, created, addressed) =
        tenant_stage-Keeps env laws cluster remote s1 s2 tcp got_tenant in
      let (k3, patched, infrastructure) =
        endpoint_stage-Keeps env laws cluster fresh tcp s2 s3 reverts_none got_cluster in
      let k4 = ready_stage-Keeps fresh tcp s3 s4 version got_version in
      let k5 = status_stage-Keeps version tcp s4 s5 u reported in
      let (k6, replicated, ready) = completion_stage-Keeps fresh remote tcp version s5 s' tt r5 in
      let from3 = Keeps-trans env laws s3 s4 s' k4 (Keeps-trans env laws s4 s5 s' k5 k6) in
      let from2 = Keeps-trans env laws s2 s3 s' k3 from3 in
      let from1 = Keeps-trans env laws s1 s2 s' k2 from2 in
      (
        kept_or s1 s' found_external_cluster_reference from1 (λ e. cc) found,
        from2 _ (λ e. cc) created,
        from2 _ (λ e. cc) addressed,
        from3 _ (λ e. cc) patched,
        kept_or s3 s' infrastructure_cluster_patched from3 (λ e. cc) infrastructure,
        replicated,
        ready,
      )
