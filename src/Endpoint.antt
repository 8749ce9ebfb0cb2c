-- ===== src/Endpoint.antt =====
-- The control plane endpoint: `controlPlaneEndpoint` and `parseHostnameWithDefault` of
-- controllers/stewardcontrolplane_controller_cluster_patch.go.
pub mod Hostname
pub mod Precedence
pub mod StatusPort
use Prim.Native.String.{◌++◌}
use cluster_api_control_plan.Prelude.{
  ℕ, String, Option, none, some, List, [], ◌∷◌, eqb, if◌then◌else◌,
}
use cluster_api_control_plan.Prelude.Int.{ℤ}
use cluster_api_control_plan.Errors.{Error, address, number, wrap, Result, ok, err, ◌>>=◌, wrapped}
use cluster_api_control_plan.Net.{Address, host_port, addr_error, split_host_port}
use cluster_api_control_plan.Strconv.{Number, parsed, num_error, itoa, parse_int}
use cluster_api_control_plan.Strings.{split}
use cluster_api_control_plan.Api.{IngressComponent, GatewayComponent, StewardControlPlane}

abbrev pub default_ingress_port : ℕ
default_ingress_port = 443

abbrev pub default_gateway_port : ℕ
default_gateway_port = 6443

-- A result of the standard library as a result of the model.
abbrev address_result : Address → Result (String × String)
address_result (host_port host port) = ok (host, port)
address_result (addr_error e) = err (address e)

abbrev number_result : Number ℤ → Result ℤ
number_result (parsed n) = ok n
number_result (num_error e) = err (number e)

-- The default port is appended where the hostname has no colon.
abbrev pub with_default : String → ℕ → String
with_default hostname default_port = elim (split b':' hostname) [
  | p ∷ rest ↦ elim rest [ [] ↦ hostname ++ (":" ++ itoa default_port) | q ∷ more ↦ hostname ]
  | [] ↦ hostname
]

unfoldable pub parse_hostname_with_default : String → ℕ → String → Result (String × ℤ)
parse_hostname_with_default hostname default_port label = do
  (host, str_port) ←
      wrapped ("cannot split the Steward " ++ (label ++ " hostname host port pair"))
        (address_result (split_host_port (with_default hostname default_port)))
  port ←
      wrapped ("cannot convert Steward " ++ (label ++ " hostname port pair"))
        (number_result (parse_int str_port 64))
  ok (host, port)

-- The endpoint and the port that the TenantControlPlane reports; the port is parsed with 16 bits.
unfoldable pub parse_status_endpoint : String → Result (String × ℤ)
parse_status_endpoint status_endpoint = do
  (endpoint, str_port) ←
      wrapped "cannot split the Steward endpoint host port pair"
        (address_result (split_host_port status_endpoint))
  port ← wrapped "cannot convert port to integer" (number_result (parse_int str_port 16))
  ok (endpoint, port)

-- `if ingress := …; ingress != nil { … }`
abbrev override_by_ingress : Option IngressComponent → String × ℤ → Result (String × ℤ)
override_by_ingress none e = ok e
override_by_ingress (some ingress) e =
    parse_hostname_with_default ingress.hostname default_ingress_port "Ingress"

-- `if gateway := …; gateway != nil { … }`
abbrev override_by_gateway : Option GatewayComponent → String × ℤ → Result (String × ℤ)
override_by_gateway none e = ok e
override_by_gateway (some gateway) e =
    parse_hostname_with_default gateway.hostname default_gateway_port "Gateway"

unfoldable pub control_plane_endpoint : StewardControlPlane → String → Result (String × ℤ)
control_plane_endpoint control_plane status_endpoint = do
  e ← parse_status_endpoint status_endpoint
  e' ← override_by_ingress control_plane.spec.fields.network.ingress e
  override_by_gateway control_plane.spec.fields.network.gateway e'
