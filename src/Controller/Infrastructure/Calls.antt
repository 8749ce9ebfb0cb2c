-- ===== src/Controller/Infrastructure/Calls.antt =====
-- Which calls the patch of the infrastructure cluster makes, for every kind.
use cluster_api_control_plan.Prelude.{
  String, Bool, true, false, some, ◌∷◌, ◌≡◌, ◌==◌, inl, inr, Bool-cases, if◌then◌else◌,
}
use cluster_api_control_plan.Prelude.Int.{ℤ}
use cluster_api_control_plan.Errors.{is_unmanaged_address, ok, Result-cases}
use cluster_api_control_plan.Api.{Opaque, ObjectReference, Cluster, StewardControlPlane}
use cluster_api_control_plan.Kube.{get_infrastructure, patch_infrastructure, Trace, Exec}
use cluster_api_control_plan.Endpoint.{control_plane_endpoint}
use cluster_api_control_plan.Controller.Infrastructure.{patch_by_kind, patch_cluster}
use cluster_api_control_plan.Controller.Infrastructure.Operations.{
  Patcher, get_infrastructure_cluster, send_patch, generic_object, patch_generic_cluster,
  check_generic_cluster, check_or_patch_generic_cluster, open_stack_object,
  patch_open_stack_cluster,
}
use cluster_api_control_plan.Controller.Infrastructure.Checks.{check_generic_cluster_iff}

module _ (p : Patcher) (ref : ObjectReference) where
  -- One read, and then at most one patch, of what was read.
  pub data ReadsThen (t : Trace) : Trace → Type 0 where
    only_read : ReadsThen t (get_infrastructure ref ∷ t)
    written :
        (before after : Opaque)
        → p.client.stored_infrastructure t ref ≡ ok before
        → ReadsThen t (patch_infrastructure before after ∷ get_infrastructure ref ∷ t)

  -- No call, or these calls, perhaps after a first read.
  pub data Touches (t : Trace) : Trace → Type 0 where
    untouched : Touches t t
    once : {t' : Trace} → ReadsThen t t' → Touches t t'
    again : {t' : Trace} → ReadsThen (get_infrastructure ref ∷ t) t' → Touches t t'

  module _ (endpoint : String) (port : ℤ) where
    patch_generic-ReadsThen :
        (status : Bool) (t : Trace)
        → ReadsThen t (patch_generic_cluster p ref endpoint port status t).1
    unfolding patch_generic_cluster get_infrastructure_cluster send_patch
    patch_generic-ReadsThen status t = elim (Result-cases (p.client.stored_infrastructure t ref)) [
      | inr (e, refused) ↦ rw (refused, patch_generic_cluster) only_read
      | inl (infra, stored) ↦ elim (Result-cases (p.objects.new_helper infra)) [
        | inr (e, refused) ↦ rw (stored, refused, patch_generic_cluster) only_read
        | inl (u, helped) ↦ elim (Result-cases (generic_object p ref endpoint port status infra)) [
          | inr (e, refused) ↦ rw (stored, helped, refused, patch_generic_cluster) only_read
          | inl (o, made) ↦
              rw (stored, helped, made, patch_generic_cluster) (written infra o stored)
        ]
      ]
    ]

    patch_open_stack-ReadsThen :
        (t : Trace) → ReadsThen t (patch_open_stack_cluster p ref endpoint port t).1
    unfolding patch_open_stack_cluster get_infrastructure_cluster send_patch
    patch_open_stack-ReadsThen t = elim (Result-cases (p.client.stored_infrastructure t ref)) [
      | inr (e, refused) ↦ rw (refused, patch_open_stack_cluster) only_read
      | inl (infra, stored) ↦ elim (Result-cases (p.objects.new_helper infra)) [
        | inr (e, refused) ↦ rw (stored, refused, patch_open_stack_cluster) only_read
        | inl (u, helped) ↦ elim (Result-cases (open_stack_object p ref endpoint port infra)) [
          | inr (e, refused) ↦ rw (stored, helped, refused, patch_open_stack_cluster) only_read
          | inl (o, made) ↦
              rw (stored, helped, made, patch_open_stack_cluster) (written infra o stored)
        ]
      ]
    ]

    check-Touches : (t : Trace) → Touches t (check_generic_cluster p ref endpoint port t).1
    check-Touches t = rw ((check_generic_cluster_iff p ref endpoint port t).0) (once only_read)

    check_or_patch-Touches :
        (t : Trace) → Touches t (check_or_patch_generic_cluster p ref endpoint port t).1
    unfolding check_or_patch_generic_cluster
    check_or_patch-Touches t =
        let read = (check_generic_cluster_iff p ref endpoint port t).0 in
        elim (Result-cases (check_generic_cluster p ref endpoint port t).0) [
          | inl (u, equal) ↦ rw (equal, check_or_patch_generic_cluster) (check-Touches t)
          | inr (e, refused) ↦ elim (Bool-cases (is_unmanaged_address e)) [
            | inr other ↦ rw (refused, other, check_or_patch_generic_cluster) (check-Touches t)
            | inl unmanaged ↦
                rw (refused, unmanaged, read, check_or_patch_generic_cluster)
                  (again (patch_generic-ReadsThen false (get_infrastructure ref ∷ t)))
          ]
        ]

    by_test :
        (b : Bool) (m n : Exec (Unit {0})) (t : Trace)
        → Touches t (m t).1
        → Touches t (n t).1
        → Touches t ((if b then m else n) t).1
    by_test true m n t hm hn = hm
    by_test false m n t hm hn = hn

    patch_by_kind-Touches : (t : Trace) → Touches t (patch_by_kind p ref endpoint port t).1
    unfolding patch_by_kind
    patch_by_kind-Touches t =
        let generic : (status : Bool)
            → Touches t (patch_generic_cluster p ref endpoint port status t).1 =
          λ status. once (patch_generic-ReadsThen status t) in
        let checked = check_or_patch-Touches t in
        by_test (ref.kind == "AWSCluster") _ _ t (generic false) (
          by_test (ref.kind == "AzureCluster") _ _ t (generic false) (
            by_test (ref.kind == "HetznerCluster") _ _ t (generic false) (
              by_test (ref.kind == "IonosCloudCluster") _ _ t (generic false) (
                by_test (ref.kind == "KubevirtCluster") _ _ t (generic true) (
                  by_test (ref.kind == "Metal3Cluster") _ _ t (check-Touches t) (
                    by_test (ref.kind == "NutanixCluster") _ _ t (generic true) (
                      by_test (ref.kind == "OpenStackCluster") _ _ t
                        (once (patch_open_stack-ReadsThen t))
                        (by_test (ref.kind == "PacketCluster") _ _ t (generic true) (
                          by_test (ref.kind == "ProxmoxCluster") _ _ t checked (
                            by_test (ref.kind == "TinkerbellCluster") _ _ t checked (
                              by_test (ref.kind == "VSphereCluster") _ _ t checked (
                                by_test (p.is_dynamic ref.kind) _ _ t (generic false)
                                  untouched))))))))))))

  -- Whatever the kind of the infrastructure cluster that the cluster refers to, the patch reads no
  -- other object, and sends at most one patch, as its last call, on the object that it read right
  -- before.
  pub patch_cluster-Touches :
      (cluster : Cluster) (scp : StewardControlPlane) (host_port : String) (t : Trace)
      → cluster.infrastructure_ref ≡ some ref
      → Touches t (patch_cluster p cluster scp host_port t).1
  unfolding patch_cluster
  patch_cluster-Touches cluster scp host_port t refers =
      elim (Result-cases (control_plane_endpoint scp host_port)) [
        | inr (e, refused) ↦ rw (refers, refused, patch_cluster) untouched
        | inl (e, endpoint) ↦ rw (refers, endpoint, patch_cluster) (patch_by_kind-Touches e.0 e.1 t)
      ]
