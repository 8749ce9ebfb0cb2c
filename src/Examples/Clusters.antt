-- ===== src/Examples/Clusters.antt =====
-- A Proxmox cluster with and without an address.
use cluster_api_control_plan.Prelude.{false, [], ◌∷◌, ◌≡◌, ◌↔◌, refl}
use cluster_api_control_plan.Prelude.Int.{pos}
use cluster_api_control_plan.Errors.{ok}
use cluster_api_control_plan.Api.{Opaque}
use cluster_api_control_plan.Kube.{get_infrastructure}
use cluster_api_control_plan.Controller.Infrastructure.Operations.{
  Patcher, compare_endpoint, check_generic_cluster, check_or_patch_generic_cluster,
  patch_generic_cluster, generic_object, send_patch, get_infrastructure_cluster,
}
use cluster_api_control_plan.Controller.Infrastructure.Checks.{
  Matches, check_generic_cluster_iff, managed_address_kept,
}
use cluster_api_control_plan.Controller.Infrastructure.Writes.{IsPatched, patch_generic_cluster_ok}
use cluster_api_control_plan.Samples.Objects.{
  sample_infrastructure, sample_cluster, sample_control_plane,
}
use cluster_api_control_plan.Controller.Infrastructure.{patch_cluster}
use cluster_api_control_plan.Controller.Infrastructure.Calls.{Touches, patch_cluster-Touches}
use cluster_api_control_plan.Samples.Parameters.{one_endpoint, one_endpoint_laws, sample_client}

abbrev patcher : Opaque → Patcher
patcher infra = record {
  client = sample_client [] (ok tt) infra;
  objects = one_endpoint;
  is_dynamic = λ kind. false;
}

check_generic_cluster_iff_example :
    ((check_generic_cluster (patcher "patched") sample_infrastructure "10.0.0.1" (pos 6443) []).1
      ≡ get_infrastructure sample_infrastructure ∷ [])
    × (((check_generic_cluster (patcher "patched") sample_infrastructure "10.0.0.1" (pos 6443) []).0
          ≡ ok tt)
        ↔ ((o : Opaque) × (ok "patched" ≡ ok o)
            × Matches (patcher "patched") sample_infrastructure "10.0.0.1" (pos 6443) o))
check_generic_cluster_iff_example =
    check_generic_cluster_iff (patcher "patched") sample_infrastructure "10.0.0.1" (pos 6443) []

managed_address_kept_example :
    check_or_patch_generic_cluster
      (patcher "patched")
      sample_infrastructure
      "10.0.0.2"
      (pos 6443)
      []
    ≡ (
      compare_endpoint (patcher "patched") sample_infrastructure "10.0.0.2" (pos 6443) "patched",
      get_infrastructure sample_infrastructure ∷ [],
    )
managed_address_kept_example =
    managed_address_kept (patcher "patched") sample_infrastructure "10.0.0.2" (pos 6443)
      (λ o e h. cc) [] "patched" refl ("10.0.0.1", refl, λ e. cc)

accepts_patch :
    (patch_generic_cluster (patcher "new") sample_infrastructure "10.0.0.1" (pos 6443) false []).0
    ≡ ok tt
unfolding patch_generic_cluster generic_object send_patch get_infrastructure_cluster
accepts_patch = refl

patch_generic_cluster_ok_example :
    IsPatched
      (patcher "new")
      sample_infrastructure
      "10.0.0.1"
      (pos 6443)
      false
      []
      (patch_generic_cluster (patcher "new") sample_infrastructure "10.0.0.1" (pos 6443) false []).1
patch_generic_cluster_ok_example =
    patch_generic_cluster_ok (patcher "new") sample_infrastructure "10.0.0.1" (pos 6443) false
      one_endpoint_laws [] accepts_patch

patch_cluster-Touches_example :
    Touches
      (patcher "new")
      sample_infrastructure
      []
      (patch_cluster (patcher "new") sample_cluster (sample_control_plane []) "10.0.0.1:6443" []).1
patch_cluster-Touches_example =
    patch_cluster-Touches (patcher "new") sample_infrastructure sample_cluster
      (sample_control_plane []) "10.0.0.1:6443" [] refl
