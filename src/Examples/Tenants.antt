-- ===== src/Examples/Tenants.antt =====
-- The TenantControlPlane of one StewardControlPlane.
use cluster_api_control_plan.Prelude.{
  arith, none, some, [], ◌∷◌, ◌≡◌, refl, ◌==◌, lookup, if◌then◌else◌,
}
use cluster_api_control_plan.Errors.{ok}
use cluster_api_control_plan.Api.{Labels, StewardControlPlane, TenantControlPlane}
use cluster_api_control_plan.Controller.Tenant.Mutation.{
  or_empty, check_cert_sans, value_at, annotations_of, spec_of, mutate,
}
use cluster_api_control_plan.Controller.Tenant.Annotations.{merged, lookup-annotations_of}
use cluster_api_control_plan.Controller.Tenant.Repeated.{mutate_again}
use cluster_api_control_plan.Samples.Objects.{sample_control_plane, sample_cluster, sample_tenant}
use cluster_api_control_plan.Samples.Parameters.{sample_tenant_library}

abbrev wanted : Labels
wanted = ("kubeconfig-secret-key", "super.conf") ∷ ("last-applied", "x") ∷ []

lookup-annotations_of_example :
    lookup "kubeconfig-secret-key" (annotations_of sample_tenant_library (some wanted) none) ≡ (
      if "kubeconfig-secret-key" == "kubeconfig-secret-key"
      then (if value_at "kubeconfig-secret-key" wanted == ""
          then none
          else some (value_at "kubeconfig-secret-key" wanted))
      else merged sample_tenant_library wanted [] "kubeconfig-secret-key")
unfolding lookup
lookup-annotations_of_example =
    lookup-annotations_of sample_tenant_library (some wanted) none "kubeconfig-secret-key"
      (refl, (refl, tt))

abbrev made_tenant : TenantControlPlane
made_tenant = record sample_tenant {
  meta = record sample_tenant.meta {
    annotations = some (annotations_of sample_tenant_library none none);
  };
  spec = spec_of sample_tenant_library sample_cluster (sample_control_plane []) sample_tenant.spec;
}

abbrev annotated : StewardControlPlane
annotated = record (sample_control_plane []) {
  meta = record (sample_control_plane []).meta { annotations = some wanted };
}

abbrev mutated : TenantControlPlane → TenantControlPlane
mutated tcp = record tcp {
  meta = record tcp.meta {
    annotations = some (annotations_of sample_tenant_library (some wanted) tcp.meta.annotations);
    labels = none;
  };
  spec = spec_of sample_tenant_library sample_cluster annotated tcp.spec;
}

mutates :
    (tcp : TenantControlPlane)
    → mutate sample_tenant_library sample_cluster annotated none tcp ≡ ok (mutated tcp)
unfolding mutate check_cert_sans
mutates tcp = refl

mutate_again_example :
    ((mutated (mutated sample_tenant)).spec ≡ (mutated sample_tenant).spec)
    × ((mutated (mutated sample_tenant)).meta.labels ≡ (mutated sample_tenant).meta.labels)
    × (lookup "last-applied" (or_empty (mutated (mutated sample_tenant)).meta.annotations)
        ≡ lookup "last-applied" (or_empty (mutated sample_tenant).meta.annotations))
unfolding lookup
mutate_again_example =
    mutate_again sample_tenant_library sample_cluster annotated none (λ m m' h. ground arith)
      sample_tenant (mutated sample_tenant) (mutated (mutated sample_tenant)) "last-applied"
      (refl, (refl, tt)) (mutates sample_tenant) (mutates (mutated sample_tenant))
