-- ===== src/Controller/Reconcile/Truth/Stagewise.antt =====
-- The conditions of a reconciliation that runs to its end: its stages.
use mathlib.Core.Path.{subst}
use cluster_api_control_plan.Prelude.{Bool, true, false, none, some, ◌≡◌, refl, ap, ◌⊎◌, inl, inr}
use cluster_api_control_plan.Api.{Cluster, ExternalClusterReference, TenantControlPlane}
use cluster_api_control_plan.Conditions.{ConditionLaws}
use cluster_api_control_plan.Conditions.Types.{
  found_external_cluster_reference, tenant_control_plane_created,
  tenant_control_plane_address_ready, control_plane_endpoint_patched,
  infrastructure_cluster_patched,
}
use cluster_api_control_plan.Controller.Tenant.{RemoteClient}
use cluster_api_control_plan.Controller.Reconcile.Flow.{State, GoesOn, GoesOn-bind, GoesOn-then}
use cluster_api_control_plan.Controller.Reconcile.Steps.{Environment, refetch_cluster}
use cluster_api_control_plan.Controller.Reconcile.Stages.{
  remote_client, tenant_stage, infrastructure_stage, endpoint_stage,
}
use cluster_api_control_plan.Controller.Reconcile.Truth.{
  IsTrue, Keeps, Keeps-trans, RevertsNone, decode_conditions-Keeps, recover_panic-Keeps,
  tracked-IsTrue, tracked-Keeps, same-Keeps, untracked-Keeps,
}

module _ (env : Environment) (laws : ConditionLaws env.conditions) where
  pub remote_client-some :
      (ecr : ExternalClusterReference) (s s' : State) (remote : RemoteClient)
      → GoesOn (remote_client env (some ecr)) s remote s'
      → Keeps env laws s s' × IsTrue env laws found_external_cluster_reference s'
  unfolding remote_client
  remote_client-some ecr s s' remote h =
      let (mgr, s1, got, r1) = GoesOn-bind _ _ s s' remote h in
      let (u, s2, set, r2) = GoesOn-then _ _ s1 s' remote r1 in
      let first = tracked-Keeps env laws found_external_cluster_reference _ _ s s1 mgr got in
      let last =
        Keeps-trans env laws s1 s2 s' (untracked-Keeps env laws _ _ s1 s2 u set)
          (same-Keeps env laws s2 s' (ap (λ x. x.1.conditions) r2)) in
      (
        Keeps-trans env laws s s1 s' first last,
        last found_external_cluster_reference (λ x. cc)
            (tracked-IsTrue env laws found_external_cluster_reference _ _ s s1 mgr got),
      )

  pub remote_client-none :
      (s s' : State) (remote : RemoteClient)
      → GoesOn (remote_client env none) s remote s'
      → Keeps env laws s s'
  unfolding remote_client
  remote_client-none s s' remote h = same-Keeps env laws s s' (ap (λ x. x.1.conditions) h)

  pub tenant_stage-Keeps :
      (cluster : Cluster) (remote : RemoteClient) (s s' : State) (tcp : TenantControlPlane)
      → GoesOn (tenant_stage env cluster remote) s tcp s'
      → Keeps env laws s s'
        × IsTrue env laws tenant_control_plane_created s'
        × IsTrue env laws tenant_control_plane_address_ready s'
  unfolding tenant_stage
  tenant_stage-Keeps cluster remote s s' tcp h =
      let (p, s0, recovered, r0) = GoesOn-then _ _ s s' tcp h in
      let before = recover_panic-Keeps env laws tenant_control_plane_created _ s s0 p recovered in
      let (x, s1, created, r1) = GoesOn-bind _ _ s0 s' tcp r0 in
      let (u, s2, addressed, r2) = GoesOn-then _ _ s1 s' tcp r1 in
      let first = tracked-Keeps env laws tenant_control_plane_created _ _ s0 s1 x created in
      let second =
        tracked-Keeps env laws tenant_control_plane_address_ready _ _ s1 s2 u addressed in
      let last = same-Keeps env laws s2 s' (ap (λ x. x.1.conditions) r2) in
      (
        Keeps-trans env laws s s0 s' before
            (Keeps-trans env laws s0 s1 s' first (Keeps-trans env laws s1 s2 s' second last)),
        last _ (λ x. cc)
            (second _ (λ x. cc)
              (tracked-IsTrue env laws tenant_control_plane_created _ _ s0 s1 x created)),
        last _ (λ x. cc)
            (tracked-IsTrue env laws tenant_control_plane_address_ready _ _ s1 s2 u addressed),
      )

  infrastructure_stage-Keeps :
      (cluster : Cluster) (tcp : TenantControlPlane) (skipped : Bool) (s s' : State) (u : Unit {0})
      → GoesOn (infrastructure_stage env cluster tcp skipped) s u s'
      → Keeps env laws s s' × ((skipped ≡ true) ⊎ IsTrue env laws infrastructure_cluster_patched s')
  unfolding infrastructure_stage
  infrastructure_stage-Keeps cluster tcp true s s' u h =
      (same-Keeps env laws s s' (ap (λ x. x.1.conditions) h), inl refl)
  infrastructure_stage-Keeps cluster tcp false s s' u h = (
    tracked-Keeps env laws infrastructure_cluster_patched _ _ s s' u h,
    inr (tracked-IsTrue env laws infrastructure_cluster_patched _ _ s s' u h),
  )

  pub endpoint_stage-Keeps :
      (cluster fresh : Cluster) (tcp : TenantControlPlane) (s s' : State)
      → RevertsNone env laws
      → GoesOn (endpoint_stage env cluster tcp) s fresh s'
      → Keeps env laws s s'
        × IsTrue env laws control_plane_endpoint_patched s'
        × ((env.reconciler.features.skip_infra_cluster_patch ≡ true)
            ⊎ IsTrue env laws infrastructure_cluster_patched s')
  unfolding endpoint_stage refetch_cluster
  endpoint_stage-Keeps cluster fresh tcp s s' reverts_none h =
      let (u, s1, patched, r1) = GoesOn-then _ _ s s' fresh h in
      let (w, s0, decoded, r0) = GoesOn-then _ _ s1 s' fresh r1 in
      let between = decode_conditions-Keeps env laws s1 s0 w reverts_none decoded in
      let (x, s2, fetched, r2) = GoesOn-bind _ _ s0 s' fresh r0 in
      let (v, s3, infrastructure, r3) = GoesOn-then _ _ s2 s' fresh r2 in
      let first = tracked-Keeps env laws control_plane_endpoint_patched _ _ s s1 u patched in
      let second = same-Keeps env laws s0 s2 (ap (λ y. y.1.conditions) fetched) in
      let (third, done) = infrastructure_stage-Keeps x tcp _ s2 s3 v infrastructure in
      let rest =
        Keeps-trans env laws s1 s0 s3 between (Keeps-trans env laws s0 s2 s3 second third) in
      subst
        (λ y.
          Keeps env laws s y
          × IsTrue env laws control_plane_endpoint_patched y
          × ((env.reconciler.features.skip_infra_cluster_patch ≡ true)
              ⊎ IsTrue env laws infrastructure_cluster_patched y))
        (ap (λ y. y.1) r3)
        (
          Keeps-trans env laws s s1 s3 first rest,
          rest control_plane_endpoint_patched (λ e. cc)
              (tracked-IsTrue env laws control_plane_endpoint_patched _ _ s s1 u patched),
          done,
        )
