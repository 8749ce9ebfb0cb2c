-- ===== src/Endpoint/Precedence.antt =====
-- Which of the three sources gives the control plane endpoint.
use cluster_api_control_plan.Prelude.{String, Option, none, some, ◌≡◌, refl, ◌↔◌}
use cluster_api_control_plan.Prelude.Int.{ℤ}
use cluster_api_control_plan.Errors.{Error, Result, ok, err, ◌>>=◌}
use cluster_api_control_plan.Api.{IngressComponent, GatewayComponent, StewardControlPlane}
use cluster_api_control_plan.Endpoint.{
  default_ingress_port, default_gateway_port, parse_hostname_with_default, parse_status_endpoint,
  control_plane_endpoint, override_by_ingress, override_by_gateway,
}

abbrev pub Parses : Result (String × ℤ) → Type 0
Parses r = (e : String × ℤ) × (r ≡ ok e)

-- The hostname of an ingress must parse, if there is one.
abbrev pub IngressParses : Option IngressComponent → Type 0
IngressParses none = Unit
IngressParses (some ingress) =
    Parses (parse_hostname_with_default ingress.hostname default_ingress_port "Ingress")

-- The gateway's hostname, else the ingress's, else what the TenantControlPlane reports.
abbrev pub source : Option GatewayComponent → Option IngressComponent → String → Result (String × ℤ)
source (some gateway) ingress status =
    parse_hostname_with_default gateway.hostname default_gateway_port "Gateway"
source none (some ingress) status =
    parse_hostname_with_default ingress.hostname default_ingress_port "Ingress"
source none none status = parse_status_endpoint status

no_value : (x : Error) → Parses (err x) → ⊥
no_value x (e, h) = cc

-- A step whose value is dropped only has to succeed.
first_step :
    (r s : Result (String × ℤ)) (e : String × ℤ) → ((r >>= λ _. s) ≡ ok e) ↔ (Parses r × (s ≡ ok e))
first_step (ok a) s e = (λ h. ((a, refl), h), λ h. h.1)
first_step (err x) s e = (λ h. absurd (cc), λ h. absurd (no_value x h.0))

last_step :
    (r : Result (String × ℤ)) (e : String × ℤ)
    → ((r >>= λ a. ok a) ≡ ok e) ↔ (Parses r × (r ≡ ok e))
last_step (ok a) e = (λ h. ((a, refl), h), λ h. h.1)
last_step (err x) e = (λ h. absurd (cc), λ h. absurd (no_value x h.0))

-- The chain of the three steps, by what is configured.
chain_iff :
    (status : String) (ingress : Option IngressComponent) (gateway : Option GatewayComponent)
    (e : String × ℤ)
    → ((do
      e0 ← parse_status_endpoint status
      e1 ← override_by_ingress ingress e0
      override_by_gateway gateway e1)
        ≡ ok e)
      ↔ (Parses (parse_status_endpoint status)
          × IngressParses ingress
          × (source gateway ingress status ≡ ok e))
chain_iff status none none e =
    let (to, from) = last_step (parse_status_endpoint status) e in
    (λ h. ((to h).0, tt, (to h).1), λ h. from (h.0, h.2))
chain_iff status none (some gateway) e =
    let (to, from) =
      first_step (parse_status_endpoint status) (source (some gateway) none status) e in
    (λ h. ((to h).0, tt, (to h).1), λ h. from (h.0, h.2))
chain_iff status (some ingress) none e =
    let parse = source none (some ingress) status in
    let (to, from) = first_step (parse_status_endpoint status) (parse >>= λ a. ok a) e in
    let (to_last, from_last) = last_step parse e in
    (
      λ h. ((to h).0, (to_last (to h).1).0, (to_last (to h).1).1),
      λ h. from (h.0, from_last (h.1, h.2)),
    )
chain_iff status (some ingress) (some gateway) e =
    let parse = source none (some ingress) status in
    let final = source (some gateway) (some ingress) status in
    let (to, from) = first_step (parse_status_endpoint status) (parse >>= λ _. final) e in
    let (to_last, from_last) = first_step parse final e in
    (
      λ h. ((to h).0, (to_last (to h).1).0, (to_last (to h).1).1),
      λ h. from (h.0, from_last (h.1, h.2)),
    )

-- There is an endpoint exactly when the reported one parses, the ingress's hostname parses if there
-- is an ingress, and the source parses; the endpoint is the source's: the gateway's hostname, else
-- the ingress's, else the reported endpoint.
pub control_plane_endpoint_iff :
    (control_plane : StewardControlPlane) (status : String) (e : String × ℤ)
    → (control_plane_endpoint control_plane status ≡ ok e) ↔ (
        Parses (parse_status_endpoint status)
        × IngressParses control_plane.spec.fields.network.ingress
        × (source control_plane.spec.fields.network.gateway
              control_plane.spec.fields.network.ingress status
            ≡ ok e))
unfolding control_plane_endpoint
control_plane_endpoint_iff control_plane status e =
    chain_iff status control_plane.spec.fields.network.ingress
      control_plane.spec.fields.network.gateway e
