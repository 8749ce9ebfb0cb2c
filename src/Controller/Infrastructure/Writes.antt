-- ===== src/Controller/Infrastructure/Writes.antt =====
-- What a successful patch has written to the infrastructure cluster.
use cluster_api_control_plan.Prelude.{
  String, Bool, true, List, [], ◌∷◌, ◌≡◌, inl, inr, refl, arith, Bool-cases,
}
use cluster_api_control_plan.Prelude.Int.{ℤ}
use cluster_api_control_plan.Errors.{ok, Result-cases}
use cluster_api_control_plan.Api.{Opaque, ObjectReference}
use cluster_api_control_plan.Kube.{get_infrastructure, patch_infrastructure, Trace}
use cluster_api_control_plan.Controller.Infrastructure.Operations.{
  Value, text, int, flag, Unstructured, Patcher, host_path, port_path, endpoint_path, ready_path,
  get_infrastructure_cluster, patch_generic_cluster, generic_object, send_patch,
}

-- What is read back from an object after a write to it.
pub record UnstructuredLaws (u : Unstructured) : Type 0 where
  pub host-set_nested_map :
      (o o' : Opaque) (host : String) (port : ℤ)
      → u.set_nested_map o (("host", text host) ∷ ("port", int port) ∷ []) endpoint_path ≡ ok o'
      → u.nested_string o' host_path ≡ ok host
  pub port-set_nested_map :
      (o o' : Opaque) (host : String) (port : ℤ)
      → u.set_nested_map o (("host", text host) ∷ ("port", int port) ∷ []) endpoint_path ≡ ok o'
      → u.nested_int64 o' port_path ≡ ok port
  pub host-set_ready :
      (o o' : Opaque) (b : Bool)
      → u.set_nested_field o (flag b) ready_path ≡ ok o'
      → u.nested_string o' host_path ≡ u.nested_string o host_path
  pub port-set_ready :
      (o o' : Opaque) (b : Bool)
      → u.set_nested_field o (flag b) ready_path ≡ ok o'
      → u.nested_int64 o' port_path ≡ u.nested_int64 o port_path

module _ (p : Patcher) (ref : ObjectReference) (endpoint : String) (port : ℤ) (status : Bool) where
  -- The object that was read and the object that was sent, which has the endpoint.
  pub record IsPatched (t t' : Trace) : Type 0 where
    pub infra : Opaque
    pub patched : Opaque
    pub stored : p.client.stored_infrastructure t ref ≡ ok infra
    pub host : p.objects.nested_string patched host_path ≡ ok endpoint
    pub port_is : p.objects.nested_int64 patched port_path ≡ ok port
    pub calls : t' ≡ patch_infrastructure infra patched ∷ get_infrastructure ref ∷ t
    pub was_accepted :
        p.client.patched_infrastructure (get_infrastructure ref ∷ t) infra patched ≡ ok tt

  abbrev fields : List (String × Value)
  fields = ("host", text endpoint) ∷ ("port", int port) ∷ []

  generic_object-reads :
      UnstructuredLaws p.objects
      → (o o' : Opaque) → generic_object p ref endpoint port status o ≡ ok o'
      → (p.objects.nested_string o' host_path ≡ ok endpoint)
        × (p.objects.nested_int64 o' port_path ≡ ok port)
  unfolding generic_object
  generic_object-reads laws o o' h =
      elim (Result-cases (p.objects.set_nested_map o fields endpoint_path)) [
        | inr (e, failed) ↦ absurd (ground arith)
        | inl (written, set) ↦
            let host = laws.host-set_nested_map o written endpoint port set in
            let port_is = laws.port-set_nested_map o written endpoint port set in
            elim (Bool-cases status) [
              | inr plain ↦ ground arith
              | inl ready ↦
                  elim (Result-cases (p.objects.set_nested_field written (flag true) ready_path)) [
                    | inr (e, failed) ↦ absurd (ground arith)
                    | inl (o'', set') ↦ ground (
                      arith,
                      laws.host-set_ready written o'' true set',
                      laws.port-set_ready written o'' true set',
                    )
                  ]
            ]
      ]

  -- A patch that reports success was sent once, after the read, and was accepted, and the object
  -- that it sent has the endpoint's host and port. What is set in an object is read back, by the
  -- laws of the setters.
  pub patch_generic_cluster_ok :
      UnstructuredLaws p.objects
      → (t : Trace) → (patch_generic_cluster p ref endpoint port status t).0 ≡ ok tt
      → IsPatched t (patch_generic_cluster p ref endpoint port status t).1
  unfolding patch_generic_cluster get_infrastructure_cluster send_patch
  patch_generic_cluster_ok laws t h = elim (Result-cases (p.client.stored_infrastructure t ref)) [
    | inr (e, failed) ↦ absurd (ground arith)
    | inl (infra, stored) ↦ elim (Result-cases (p.objects.new_helper infra)) [
      | inr (e, failed) ↦ absurd (ground arith)
      | inl (u, helped) ↦ elim (Result-cases (generic_object p ref endpoint port status infra)) [
        | inr (e, failed) ↦ absurd (ground arith)
        | inl (patched, made) ↦
            let (host, port_is) = generic_object-reads laws infra patched made in
            record {
              infra = infra;
              patched = patched;
              stored = stored;
              host = host;
              port_is = port_is;
              calls = rw (stored, helped, made, patch_generic_cluster) refl;
              was_accepted = ground arith;
            }
      ]
    ]
  ]
