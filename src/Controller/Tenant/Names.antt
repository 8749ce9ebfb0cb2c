-- ===== src/Controller/Tenant/Names.antt =====
-- The names by which the TenantControlPlane's API server is reached, and which are refused.
use Prim.Native.String.{◌++◌}
use cluster_api_control_plan.Prelude.{
  ℕ, String, true, Option, List, [], ◌∷◌, ◌≡◌, ◌↔◌, ◌⊎◌, inl, inr, refl, arith, All, append,
}
use cluster_api_control_plan.Errors.{
  Error, sentinel, unsupported_certificate_san, wrap, Result, ok, err, Result-cases,
}
use cluster_api_control_plan.Net.{Address, host_port, addr_error, split_host_port}
use cluster_api_control_plan.Net.HostPort.{Reads, split_host_port_iff}
use cluster_api_control_plan.Strings.{has_prefix}
use cluster_api_control_plan.Strings.Parts.{has_prefix-append}
use cluster_api_control_plan.Api.{Cluster, StewardControlPlane, TenantControlPlane}
use cluster_api_control_plan.Controller.Tenant.Mutation.{
  TenantLibrary, version_of, check_cert_sans, ingress_sans, gateway_sans, cert_sans_of, with_owner,
  meta_of, spec_of, mutate,
}

-- A name that has no reading as a host and a port.
abbrev pub HasNoPort : String → Type 0
HasNoPort s = (host port : String) → Reads s host port → ⊥

address-cases :
    (a : Address)
    → ((host : String) × (port : String) × (a ≡ host_port host port))
      ⊎ ((host port : String) → a ≡ host_port host port → ⊥)
address-cases (host_port host port) = inl (host, port, refl)
address-cases (addr_error e) = inr (λ host port h. cc)

no_port :
    (i : String)
    → ((host port : String) → split_host_port i ≡ host_port host port → ⊥)
    → HasNoPort i
no_port i none_read host port reads =
    none_read host port ((split_host_port_iff i host port).1 reads)

check_step :
    (a : Address) (i : String) (rest : Result (Unit {0}))
    → ((elim a as (λ _. Result (Unit {0})) [
      | host_port host port ↦
          err (wrap ("entry " ++ (i ++ " is invalid")) (sentinel unsupported_certificate_san))
      | addr_error e ↦ rest
    ])
        ≡ ok tt)
      ↔ (((host port : String) → a ≡ host_port host port → ⊥) × (rest ≡ ok tt))
check_step (host_port host port) i rest = (λ h. absurd (cc), λ h. absurd (h.0 host port refl))
check_step (addr_error e) i rest = (λ h. ((λ host port g. cc), h), λ h. h.1)

check_cert_sans_iff : (l : List String) → (check_cert_sans l ≡ ok tt) ↔ All HasNoPort l
unfolding check_cert_sans
check_cert_sans_iff [] = (λ h. tt, λ h. refl)
check_cert_sans_iff (i ∷ rest) =
    let (to, from) = check_step (split_host_port i) i (check_cert_sans rest) in
    let (to_rest, from_rest) = check_cert_sans_iff rest in
    (
      λ h. (no_port i (to h).0, to_rest (to h).1),
      λ h.
          from
            ((λ host port e. h.0 host port ((split_host_port_iff i host port).0 e)), from_rest h.1),
    )

All-append_here :
    (P : String → Type 0) (before : List String) (i : String) (after : List String)
    → All P (append before (i ∷ after))
    → P i
All-append_here P [] i after h = h.0
All-append_here P (x ∷ xs) i after h = All-append_here P xs i after h.1

version_of-has_prefix : (version : String) → has_prefix (version_of version) "v" ≡ true
unfolding version_of
version_of-has_prefix version = ground (arith, has_prefix-append "v" version)

module _ (l : TenantLibrary) (cluster : Cluster) (scp : StewardControlPlane)
    (remote : Option ℕ) where
  pub mutate_ok :
      (tcp tcp' : TenantControlPlane)
      → mutate l cluster scp remote tcp ≡ ok tcp'
      → (check_cert_sans scp.spec.fields.network.cert_sans ≡ ok tt)
        × (with_owner l scp remote (meta_of l scp tcp.meta) ≡ ok tcp'.meta)
        × (tcp'.spec ≡ spec_of l cluster scp tcp.spec)
  unfolding mutate
  mutate_ok tcp tcp' h = elim (Result-cases (check_cert_sans scp.spec.fields.network.cert_sans)) [
    | inr (e, refused) ↦ absurd (ground arith)
    | inl (u, checked) ↦ elim (Result-cases (with_owner l scp remote (meta_of l scp tcp.meta))) [
      | inr (e, refused) ↦ absurd (ground arith)
      | inl (meta, owned) ↦ (checked, ground arith, ground arith)
    ]
  ]

  cert_sans-spec_of :
      (tcp : TenantControlPlane)
      → ((spec_of l cluster scp tcp.spec).network_profile.cert_sans
          ≡ cert_sans_of scp.spec.fields.network)
        × ((spec_of l cluster scp tcp.spec).kubernetes.version ≡ version_of scp.spec.version)
  unfolding spec_of
  cert_sans-spec_of tcp = ground arith

  -- The mutation succeeds only if no certificate name of the StewardControlPlane has a port; the
  -- TenantControlPlane then has these names, and the names of the ingress and the gateway behind
  -- them, and its version starts with a v.
  pub mutate_names :
      (tcp tcp' : TenantControlPlane)
      → mutate l cluster scp remote tcp ≡ ok tcp'
      → All HasNoPort scp.spec.fields.network.cert_sans
        × (tcp'.spec.network_profile.cert_sans
            ≡ append
                (append scp.spec.fields.network.cert_sans
                  (ingress_sans scp.spec.fields.network.ingress))
                (gateway_sans scp.spec.fields.network.gateway))
        × (has_prefix tcp'.spec.kubernetes.version "v" ≡ true)
  mutate_names tcp tcp' h =
      let (checked, owned, made) = mutate_ok tcp tcp' h in
      let (names, version) = cert_sans-spec_of tcp in
      (
        (check_cert_sans_iff scp.spec.fields.network.cert_sans).0 checked,
        rw made names,
        rw (made, version) (version_of-has_prefix scp.spec.version),
      )

  -- A certificate name with a port makes every write of the TenantControlPlane fail.
  pub mutate_refuses :
      (tcp : TenantControlPlane) (i host port : String) (before after : List String)
      → scp.spec.fields.network.cert_sans ≡ append before (i ∷ after)
      → Reads i host port
      → (e : Error) × (mutate l cluster scp remote tcp ≡ err e)
  mutate_refuses tcp i host port before after names reads =
      elim (Result-cases (mutate l cluster scp remote tcp)) [
        | inr refused ↦ refused
        | inl (tcp', made) ↦
            let free : All HasNoPort (append before (i ∷ after)) =
              rw (← names) (mutate_names tcp tcp' made).0 in
            absurd (All-append_here HasNoPort before i after free host port reads)
      ]
