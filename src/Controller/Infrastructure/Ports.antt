-- ===== src/Controller/Infrastructure/Ports.antt =====
-- The port of the endpoint on the StewardControlPlane, which is an `int32`, beside the port that the
-- infrastructure cluster gets.
use cluster_api_control_plan.Prelude.{
  ℕ, ◌+◌, ◌^◌, ◌<◌, String, Option, none, some, ◌∷◌, ◌≡◌, refl, arith,
}
use cluster_api_control_plan.Prelude.Int.{ℤ, pos, int32}
use cluster_api_control_plan.Errors.{Error, wrap, ok, err}
use cluster_api_control_plan.Api.{StewardControlPlane, GatewayComponent}
use cluster_api_control_plan.Kube.{patch_steward_control_plane, Trace, Client}
use cluster_api_control_plan.Net.Cuts.{Lacks}
use cluster_api_control_plan.Net.HostPort.{IsUnbracketed}
use cluster_api_control_plan.Endpoint.{
  control_plane_endpoint, default_gateway_port, parse_hostname_with_default,
}
use cluster_api_control_plan.Endpoint.Hostname.{colon_port, parse_hostname_port}
use cluster_api_control_plan.Endpoint.Precedence.{
  Parses, IngressParses, source, control_plane_endpoint_iff,
}
use cluster_api_control_plan.Endpoint.{parse_status_endpoint}
use cluster_api_control_plan.Controller.Infrastructure.{with_endpoint, patch_control_plane_endpoint}

-- The port that `int32` leaves of a port that is not negative.
int32_pos : (n : ℕ) → n < 2 ^ 31 → int32 (pos n) ≡ pos n
unfolding int32
int32_pos n h = ground arith

int32_wraps : (n : ℕ) → n < 2 ^ 31 → int32 (pos (2 ^ 32 + n)) ≡ pos n
unfolding int32
int32_wraps n h = ground arith

-- An object that carries an endpoint.
abbrev pub HasEndpoint : StewardControlPlane → String → ℤ → Type 0
HasEndpoint scp host port =
    (scp.spec.control_plane_endpoint.host ≡ host) × (scp.spec.control_plane_endpoint.port ≡ port)

module _ (client : Client) (scp : StewardControlPlane) (gateway : GatewayComponent) (host : String)
    (n : ℕ) (status : String) (t : Trace)
    (configured : scp.spec.fields.network.gateway ≡ some gateway)
    (hostname : gateway.hostname ≡ colon_port host n) (no_colon : Lacks b':' host)
    (is_host : IsUnbracketed host) (reported : Parses (parse_status_endpoint status))
    (ingress : IngressParses scp.spec.fields.network.ingress) where
  from_gateway : n < 2 ^ 63 → control_plane_endpoint scp status ≡ ok (host, pos n)
  from_gateway fits =
      let parsed : parse_hostname_with_default gateway.hostname default_gateway_port "Gateway"
          ≡ ok (host, pos n) =
        rw hostname (
          ground
            (arith, parse_hostname_port host default_gateway_port "Gateway" no_colon is_host n)) in
      (control_plane_endpoint_iff scp status (host, pos n)).1
        (reported, ingress, rw (configured, source) parsed)

  -- Where a gateway's hostname names the port n, the endpoint is n, and the StewardControlPlane is
  -- patched once, with n if it is below 2^31, and with k if n is 2^32 + k for a k below 2^31. The
  -- host has no colon and no brackets, n is below 2^63, and the reported endpoint and the ingress's
  -- hostname parse.
  pub gateway_port_wraps :
      n < 2 ^ 63
      → (control_plane_endpoint scp status ≡ ok (host, pos n))
        × ((sent : StewardControlPlane) × ((patch_control_plane_endpoint client scp status t).2
              ≡ patch_steward_control_plane scp sent ∷ t)
            × (n < 2 ^ 31 → HasEndpoint sent host (pos n))
            × ((k : ℕ) → n ≡ 2 ^ 32 + k → k < 2 ^ 31 → HasEndpoint sent host (pos k)))
  unfolding patch_control_plane_endpoint
  gateway_port_wraps fits = (
    from_gateway fits,
    (
      with_endpoint scp host (pos n),
      rw (from_gateway fits, patch_control_plane_endpoint) sent_patch,
      λ small. (refl, int32_pos n small),
      λ k e small. (refl, rw e (int32_wraps k small)),
    ),
  )
    where
      sent_patch :
          (elim (client.patched_steward_control_plane t scp (with_endpoint scp host (pos n)))
            as (λ _. Option Error × StewardControlPlane × Trace) [
              | ok new ↦
                  (none, new, patch_steward_control_plane scp (with_endpoint scp host (pos n)) ∷ t)
              | err e ↦ (
                some (wrap "cannot patch StewardControlPlane with ControlPlaneEndpoint" e),
                with_endpoint scp host (pos n),
                patch_steward_control_plane scp (with_endpoint scp host (pos n)) ∷ t,
              )
            ]).2
          ≡ patch_steward_control_plane scp (with_endpoint scp host (pos n)) ∷ t
      sent_patch = ground arith
