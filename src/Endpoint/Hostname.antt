-- ===== src/Endpoint/Hostname.antt =====
-- What `parse_hostname_with_default` makes of a hostname with and without a port.
use Prim.Native.String.{[], ◌∷◌, ◌++◌}
use cluster_api_control_plan.Prelude.{
  ℕ, ◌^◌, ◌<◌, String, ◌≡◌, refl, inr, arith, ltb, [], ◌∷◌, if◌then◌else◌,
}
use cluster_api_control_plan.Prelude.Int.{pos}
use cluster_api_control_plan.Errors.{number, wrap, ok, err}
use cluster_api_control_plan.Net.{contains, host_port, split_host_port}
use cluster_api_control_plan.Net.Cuts.{Lacks}
use cluster_api_control_plan.Net.HostPort.{
  IsUnbracketed, IsPort, colon, colon_cons, split_host_port_iff,
}
use cluster_api_control_plan.Strconv.{out_of_range, itoa}
use cluster_api_control_plan.Strconv.Decimal.{IsDigits}
use cluster_api_control_plan.Strconv.RoundTrip.{itoa-Spells, parse_int-itoa}
use cluster_api_control_plan.Strings.{split}
use cluster_api_control_plan.Strings.Parts.{split-Lacks, split-append}
use cluster_api_control_plan.Endpoint.{with_default, parse_hostname_with_default}

Lacks-of_IsDigits : (b : ℕ) (s : String) → IsDigits s → b'9' < b → Lacks b s
unfolding contains
Lacks-of_IsDigits b [] _ _ = refl
Lacks-of_IsDigits b (c ∷ s) (hc, hs) big = ground (arith, Lacks-of_IsDigits b s hs big)

pub IsPort-of_IsDigits : (s : String) → IsDigits s → IsPort s
IsPort-of_IsDigits s h = (
  Lacks-of_IsDigits b':' s h (omega arith),
  Lacks-of_IsDigits b'[' s h (omega arith),
  Lacks-of_IsDigits b']' s h (omega arith),
)

-- A host without colon and brackets, with a colon and a number behind it.
pub split_host_port-itoa :
    (host : String) (n : ℕ)
    → Lacks b':' host
    → IsUnbracketed host
    → split_host_port (host ++ (":" ++ itoa n)) ≡ host_port host (itoa n)
split_host_port-itoa host n no_colon is_host =
    (split_host_port_iff _ host (itoa n)).1
      (IsPort-of_IsDigits (itoa n) (itoa-Spells n).0, is_host, inr (no_colon, refl))

abbrev pub colon_port : String → ℕ → String
colon_port host n = host ++ (":" ++ itoa n)

with_default_bare :
    (host : String) (n : ℕ) → Lacks b':' host → with_default host n ≡ colon_port host n
with_default_bare host n h = rw (split-Lacks b':' host h, with_default)

with_default_port :
    (host : String) (n d : ℕ)
    → Lacks b':' host
    → with_default (colon_port host n) d ≡ colon_port host n
with_default_port host n d h =
    let no_colon = (IsPort-of_IsDigits (itoa n) (itoa-Spells n).0).0 in
    let parts : split b':' (colon_port host n) ≡ host ∷ itoa n ∷ [] = rw (
      colon_cons colon _ refl,
      split-append b':' host (itoa n) colon refl h,
      split-Lacks b':' (itoa n) no_colon,
    ) in
    rw (parts, with_default)

module _ (host : String) (default_port : ℕ) (label : String) (no_colon : Lacks b':' host)
    (is_host : IsUnbracketed host) where
  parse_hostname_bare :
      default_port < 2 ^ 63
      → parse_hostname_with_default host default_port label ≡ ok (host, pos default_port)
  unfolding parse_hostname_with_default
  parse_hostname_bare fits = ground (
    arith,
    with_default_bare host default_port no_colon,
    split_host_port-itoa host default_port no_colon is_host,
    parse_int-itoa default_port 64,
  )

  pub parse_hostname_port :
      (n : ℕ)
      → parse_hostname_with_default (colon_port host n) default_port label ≡ (
          if ltb n (2 ^ 63)
          then ok (host, pos n)
          else err (
              wrap
                ("cannot convert Steward " ++ (label ++ " hostname port pair"))
                (number out_of_range)))
  unfolding parse_hostname_with_default
  parse_hostname_port n = ground (
    arith,
    with_default_port host n default_port no_colon,
    split_host_port-itoa host n no_colon is_host,
    parse_int-itoa n 64,
  )

  -- A hostname without colon and brackets gets the default port, which is below 2^63; one that a port
  -- follows is split from it, whatever the default is, if the port is below 2^63, and is reported as
  -- out of range if it is not.
  pub parse_hostname_lem :
      (n : ℕ)
      → default_port < 2 ^ 63
      → (parse_hostname_with_default host default_port label ≡ ok (host, pos default_port))
        × (parse_hostname_with_default (colon_port host n) default_port label ≡ (
            if ltb n (2 ^ 63)
            then ok (host, pos n)
            else err (
                wrap
                  ("cannot convert Steward " ++ (label ++ " hostname port pair"))
                  (number out_of_range))))
  parse_hostname_lem n fits = (parse_hostname_bare fits, parse_hostname_port n)
