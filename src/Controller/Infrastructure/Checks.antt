-- ===== src/Controller/Infrastructure/Checks.antt =====
-- The comparison with the infrastructure cluster: what it accepts, and that an address which is there
-- is never overwritten by it.
use cluster_api_control_plan.Prelude.{
  String, true, false, ◌∷◌, ◌≡◌, ◌≢◌, inl, inr, ◌↔◌, refl, arith, ◌==◌, eq_iff, Bool-cases,
}
use cluster_api_control_plan.Prelude.Int.{ℤ, pos, negsuc}
use cluster_api_control_plan.Errors.{Error, is_unmanaged_address, ok, err, Result-cases}
use cluster_api_control_plan.Api.{Opaque, ObjectReference}
use cluster_api_control_plan.Kube.{get_infrastructure, Trace}
use cluster_api_control_plan.Controller.Infrastructure.Operations.{
  Patcher, host_path, port_path, equal_int, get_infrastructure_cluster, compare_endpoint,
  check_generic_cluster, check_or_patch_generic_cluster,
}

pub equal_int_iff : (m n : ℤ) → (equal_int m n ≡ true) ↔ (m ≡ n)
equal_int_iff (pos m) (pos n) = ground arith
equal_int_iff (pos m) (negsuc n) = ground arith
equal_int_iff (negsuc m) (pos n) = ground arith
equal_int_iff (negsuc m) (negsuc n) = ground arith

module _ (p : Patcher) (ref : ObjectReference) (endpoint : String) (port : ℤ) where
  -- The object that is stored has this endpoint, with a host.
  abbrev pub Matches : Opaque → Type 0
  Matches o =
      (endpoint ≢ "")
      × (p.objects.nested_string o host_path ≡ ok endpoint)
      × (p.objects.nested_int64 o port_path ≡ ok port)

  compare_endpoint_iff : (o : Opaque) → (compare_endpoint p ref endpoint port o ≡ ok tt) ↔ Matches o
  unfolding compare_endpoint
  compare_endpoint_iff o = elim (Result-cases (p.objects.nested_string o host_path)) [
    | inr (e, failed) ↦ ground (arith, failed)
    | inl (h, host) ↦ elim (Bool-cases (h == "")) [
      | inl unset ↦ ground (arith, eq_iff h "", host)
      | inr is_set ↦ elim (Result-cases (p.objects.nested_int64 o port_path)) [
        | inr (e, failed) ↦ ground (arith, eq_iff h "", host, failed)
        | inl (n, is_port) ↦
            ground
              (arith, eq_iff h "", eq_iff h endpoint, equal_int_iff n port, equal_int_iff n (pos 0))
      ]
    ]
  ]

  -- The check makes one call, a read, and succeeds exactly when the stored object has the endpoint's
  -- host, which is not empty, and its port.
  pub check_generic_cluster_iff :
      (t : Trace)
      → ((check_generic_cluster p ref endpoint port t).1 ≡ get_infrastructure ref ∷ t)
        × (((check_generic_cluster p ref endpoint port t).0 ≡ ok tt)
            ↔ ((o : Opaque) × (p.client.stored_infrastructure t ref ≡ ok o) × Matches o))
  unfolding check_generic_cluster get_infrastructure_cluster
  check_generic_cluster_iff t = elim (Result-cases (p.client.stored_infrastructure t ref)) [
    | inr (e, failed) ↦ (
      rw (failed, check_generic_cluster) refl,
      (λ h. absurd (ground arith), λ h. absurd (ground arith)),
    )
    | inl (o, stored) ↦ (
      rw (stored, check_generic_cluster) refl,
      (
        λ h. (o, stored, (compare_endpoint_iff o).0 (ground arith)),
        λ h. ground (arith, compare_endpoint_iff o, compare_endpoint_iff h.0),
      ),
    )
  ]

  -- The stored object has a host already.
  abbrev pub HasHost : Opaque → Type 0
  HasHost o = (h : String) × (p.objects.nested_string o host_path ≡ ok h) × (h ≢ "")

  -- The getters never report the error of an address that is not managed.
  abbrev pub OwnErrors : Type 0
  OwnErrors =
      (o : Opaque) (e : Error)
      → p.objects.nested_int64 o port_path ≡ err e
      → is_unmanaged_address e ≡ false

  compare_endpoint_managed :
      OwnErrors
      → (o : Opaque) (e : Error) → HasHost o
      → compare_endpoint p ref endpoint port o ≡ err e
      → is_unmanaged_address e ≡ false
  unfolding compare_endpoint is_unmanaged_address
  compare_endpoint_managed own o e (h, host, is_set) failed =
      elim (Result-cases (p.objects.nested_int64 o port_path)) [
        | inr (e', no_port) ↦ ground (arith, eq_iff h "", own o e' no_port)
        | inl (n, is_port) ↦ ground (arith, eq_iff h "")
      ]

  -- Where the address may be unmanaged, and the object is stored, a host that it has is not
  -- overwritten: the only call is the read, and the outcome is that of the comparison. The errors of the getter of the port are not those of an
  -- unmanaged address.
  pub managed_address_kept :
      OwnErrors
      → (t : Trace) (o : Opaque) → p.client.stored_infrastructure t ref ≡ ok o
      → HasHost o
      → check_or_patch_generic_cluster p ref endpoint port t
        ≡ (compare_endpoint p ref endpoint port o, get_infrastructure ref ∷ t)
  unfolding check_or_patch_generic_cluster check_generic_cluster get_infrastructure_cluster
  managed_address_kept own t o stored set =
      elim (Result-cases (compare_endpoint p ref endpoint port o)) [
        | inl (u, equal) ↦ ground arith
        | inr (e, differs) ↦ ground (arith, compare_endpoint_managed own o e set differs)
      ]
