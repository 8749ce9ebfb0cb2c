-- ===== src/Controller/Tenant/Repeated.antt =====
-- The mutation applied to what it has made.
use cluster_api_control_plan.Prelude.{
  String, Option, none, some, ◌≡◌, sym, ap, ◌∙◌, lookup, IsUnique, arith, ℕ,
}
use cluster_api_control_plan.Errors.{ok}
use cluster_api_control_plan.Api.{ObjectMeta, Cluster, StewardControlPlane, TenantControlPlane}
use cluster_api_control_plan.Controller.Tenant.Mutation.{
  TenantLibrary, or_empty, spec_of, with_owner, meta_of, mutate,
}
use cluster_api_control_plan.Controller.Tenant.Annotations.{annotations_of_again}
use cluster_api_control_plan.Controller.Tenant.Names.{mutate_ok}
use cluster_api_control_plan.Controller.Tenant.Settling.{spec_of-spec_of}

module _ (l : TenantLibrary) (cluster : Cluster) (scp : StewardControlPlane)
    (remote : Option ℕ) where
  -- `SetControllerReference` changes only the owner references.
  module _
      (keeps : (m m' : ObjectMeta)
        → l.set_controller_reference scp m ≡ ok m'
        → (m'.annotations ≡ m.annotations) × (m'.labels ≡ m.labels)) where
    with_owner_keeps :
        (o : Option ℕ) (m m' : ObjectMeta)
        → with_owner l scp o m ≡ ok m'
        → (m'.annotations ≡ m.annotations) × (m'.labels ≡ m.labels)
    with_owner_keeps none m m' h = keeps m m' h
    with_owner_keeps (some mgr) m m' h = ground arith

    -- If the mutation, applied to what it has made, succeeds, it makes the same specification and
    -- labels again, and under every key the same annotation: setting the owner changes neither labels
    -- nor annotations, and the annotations of the StewardControlPlane are a map.
    pub mutate_again :
        (tcp tcp' again : TenantControlPlane) (k : String)
        → IsUnique (or_empty scp.meta.annotations)
        → mutate l cluster scp remote tcp ≡ ok tcp'
        → mutate l cluster scp remote tcp' ≡ ok again
        → (again.spec ≡ tcp'.spec)
          × (again.meta.labels ≡ tcp'.meta.labels)
          × (lookup k (or_empty again.meta.annotations) ≡ lookup k (or_empty tcp'.meta.annotations))
    mutate_again tcp tcp' again k unique first second =
        let (_, owned, spec) = mutate_ok l cluster scp remote tcp tcp' first in
        let (_, owned', spec') = mutate_ok l cluster scp remote tcp' again second in
        let (annotated, labelled) =
          with_owner_keeps remote (meta_of l scp tcp.meta) tcp'.meta owned in
        let (annotated', labelled') =
          with_owner_keeps remote (meta_of l scp tcp'.meta) again.meta owned' in
        (
          spec'
              ∙ ap (spec_of l cluster scp) spec
              ∙ spec_of-spec_of l cluster scp tcp.spec
              ∙ sym spec,
          labelled' ∙ sym labelled,
          rw (annotated', annotated)
              (annotations_of_again l scp.meta.annotations tcp.meta.annotations k unique),
        )
