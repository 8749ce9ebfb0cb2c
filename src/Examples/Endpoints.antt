-- ===== src/Examples/Endpoints.antt =====
-- The endpoint of a control plane that is reached through a gateway.
use cluster_api_control_plan.Prelude.{
  ℕ, ◌^◌, none, some, [], ◌≡◌, refl, arith, ◌↔◌, ltb, if◌then◌else◌, ◌+◌, ◌<◌, ◌∷◌,
}
use cluster_api_control_plan.Prelude.Int.{pos}
use cluster_api_control_plan.Errors.{number, wrap, ok, err}
use cluster_api_control_plan.Net.{contains}
use cluster_api_control_plan.Net.Cuts.{Lacks}
use cluster_api_control_plan.Net.HostPort.{IsUnbracketed}
use cluster_api_control_plan.Strconv.{out_of_range, itoa}
use cluster_api_control_plan.Kube.{patch_steward_control_plane}
use cluster_api_control_plan.Api.{StewardControlPlane}
use cluster_api_control_plan.Endpoint.{
  parse_hostname_with_default, parse_status_endpoint, control_plane_endpoint,
}
use cluster_api_control_plan.Endpoint.Hostname.{colon_port, parse_hostname_lem}
use cluster_api_control_plan.Endpoint.Precedence.{
  Parses, IngressParses, source, control_plane_endpoint_iff,
}
use cluster_api_control_plan.Endpoint.StatusPort.{port_out_of_range, parse_status_endpoint_lem}
use cluster_api_control_plan.Controller.Infrastructure.{patch_control_plane_endpoint}
use cluster_api_control_plan.Controller.Infrastructure.Ports.{HasEndpoint, gateway_port_wraps}
use cluster_api_control_plan.Samples.Objects.{sample_control_plane, sample_gateway}
use cluster_api_control_plan.Samples.Parameters.{sample_client}

api_no_colon : Lacks b':' "api.example"
unfolding contains
api_no_colon = refl

api-IsUnbracketed : IsUnbracketed "api.example"
unfolding contains
api-IsUnbracketed = (refl, refl)

parse_hostname_lem_example :
    (parse_hostname_with_default "api.example" 443 "Ingress" ≡ ok ("api.example", pos 443))
    × (parse_hostname_with_default (colon_port "api.example" 8443) 443 "Ingress" ≡ (
        if ltb 8443 (2 ^ 63)
        then ok ("api.example", pos 8443)
        else err (wrap "cannot convert Steward Ingress hostname port pair" (number out_of_range))))
parse_hostname_lem_example =
    parse_hostname_lem "api.example" 443 "Ingress" api_no_colon api-IsUnbracketed 8443 (omega arith)

parse_status_endpoint_lem_example :
    parse_status_endpoint (colon_port "api.example" 6443)
    ≡ (if ltb 6443 (2 ^ 15) then ok ("api.example", pos 6443) else port_out_of_range)
parse_status_endpoint_lem_example =
    parse_status_endpoint_lem "api.example" 6443 api_no_colon api-IsUnbracketed

control_plane_endpoint_iff_example :
    (control_plane_endpoint (sample_control_plane []) "api.example:6443"
      ≡ ok ("api.example", pos 4294967739))
    ↔ (Parses (parse_status_endpoint "api.example:6443")
        × IngressParses none
        × (source (some sample_gateway) none "api.example:6443"
            ≡ ok ("api.example", pos 4294967739)))
control_plane_endpoint_iff_example =
    control_plane_endpoint_iff (sample_control_plane []) "api.example:6443"
      ("api.example", pos 4294967739)

reported-Parses : Parses (parse_status_endpoint (colon_port "api.example" 6443))
reported-Parses = (
  ("api.example", pos 6443),
  parse_status_endpoint_lem "api.example" 6443 api_no_colon api-IsUnbracketed,
)

gateway_port_wraps_example :
    (control_plane_endpoint (sample_control_plane []) (colon_port "api.example" 6443)
      ≡ ok ("api.example", pos 4294967739))
    × ((sent : StewardControlPlane) × ((patch_control_plane_endpoint
            (sample_client [] (ok tt) "patched")
            (sample_control_plane [])
            (colon_port "api.example" 6443)
            []).2
          ≡ patch_steward_control_plane (sample_control_plane []) sent ∷ [])
        × (4294967739 < 2 ^ 31 → HasEndpoint sent "api.example" (pos 4294967739))
        × ((k : ℕ) → 4294967739 ≡ 2 ^ 32 + k → k < 2 ^ 31 → HasEndpoint sent "api.example" (pos k)))
unfolding itoa
gateway_port_wraps_example =
    gateway_port_wraps (sample_client [] (ok tt) "patched") (sample_control_plane []) sample_gateway
      "api.example" 4294967739 (colon_port "api.example" 6443) [] refl refl api_no_colon
      api-IsUnbracketed reported-Parses tt (omega arith)
