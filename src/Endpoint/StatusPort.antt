-- ===== src/Endpoint/StatusPort.antt =====
-- The port of the endpoint that a TenantControlPlane reports is parsed with 16 bits and a sign.
use cluster_api_control_plan.Prelude.{ℕ, ◌^◌, ◌≤◌, String, ◌≡◌, arith, ltb, if◌then◌else◌}
use cluster_api_control_plan.Prelude.Int.{ℤ, pos}
use cluster_api_control_plan.Errors.{number, wrap, Result, ok, err}
use cluster_api_control_plan.Net.Cuts.{Lacks}
use cluster_api_control_plan.Net.HostPort.{IsUnbracketed}
use cluster_api_control_plan.Strconv.{out_of_range}
use cluster_api_control_plan.Strconv.RoundTrip.{parse_int-itoa}
use cluster_api_control_plan.Api.{StewardControlPlane}
use cluster_api_control_plan.Endpoint.{parse_status_endpoint, control_plane_endpoint}
use cluster_api_control_plan.Endpoint.Hostname.{colon_port, split_host_port-itoa}

abbrev pub port_out_of_range : Result (String × ℤ)
port_out_of_range = err (wrap "cannot convert port to integer" (number out_of_range))

module _ (host : String) (n : ℕ) (no_colon : Lacks b':' host) (is_host : IsUnbracketed host) where
  -- A reported host, without colon and brackets, and port are read as they are if the port is below
  -- 32768, and refused if it is not.
  pub parse_status_endpoint_lem :
      parse_status_endpoint (colon_port host n)
      ≡ (if ltb n (2 ^ 15) then ok (host, pos n) else port_out_of_range)
  unfolding parse_status_endpoint
  parse_status_endpoint_lem =
      ground (arith, split_host_port-itoa host n no_colon is_host, parse_int-itoa n 16)

  -- A TenantControlPlane that reports a host, without colon and brackets, and a port of 32768 or
  -- more gives no endpoint, whatever ingress or gateway is configured.
  pub high_port_refused :
      (control_plane : StewardControlPlane)
      → 2 ^ 15 ≤ n
      → control_plane_endpoint control_plane (colon_port host n) ≡ port_out_of_range
  unfolding control_plane_endpoint
  high_port_refused control_plane high = ground (arith, parse_status_endpoint_lem)
