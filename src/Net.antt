-- ===== src/Net.antt =====
-- The parts of Go's `strings`, `net` and `strconv` packages that the controllers call, over texts.
-- Texts are walked by code points: the separators are ASCII, so this is the walk over bytes.
pub mod Cuts
pub mod HostPort
use Prim.Native.String.{[], ◌∷◌}
use cluster_api_control_plan.Prelude.{
  ℕ, String, code, Bool, false, ◌||◌, Option, none, some, eqb, if◌then◌else◌,
}

-- `IndexByteString(s, b) >= 0`
unfoldable pub contains : ℕ → String → Bool
contains b [] = false
contains b (c ∷ s) = eqb (code c) b || contains b s

-- The texts around the first `b`.
unfoldable pub cut : ℕ → String → Option (String × String)
cut b [] = none
cut b (c ∷ s) =
    let rest = cut b s in
    if eqb (code c) b
    then some ("", s)
    else elim rest [ none ↦ none | some (before, after) ↦ some (c ∷ before, after) ]

-- The texts around the last `b`.
unfoldable pub cut_last : ℕ → String → Option (String × String)
cut_last b [] = none
cut_last b (c ∷ s) = elim (cut_last b s) [
  | none ↦ if eqb (code c) b then some ("", s) else none
  | some (before, after) ↦ some (c ∷ before, after)
]

pub data AddrError : Type 0 where
  missing_port too_many_colons missing_bracket unexpected_open unexpected_close : AddrError

pub data Address : Type 0 where
  host_port : String → String → Address
  addr_error : AddrError → Address

-- `hostport` is `[` and then `s`; `s` is `inner`, `]` and `after`. The `]` stands just before the
-- last colon when `after` is a colon and a port without one.
bracketed : String → String → String → Address
bracketed s inner [] = addr_error missing_port
bracketed s inner (c ∷ port) =
    if eqb (code c) b':'
    then if contains b':' port
      then addr_error too_many_colons
      else if contains b'[' s
      then addr_error unexpected_open
      else if contains b']' port
      then addr_error unexpected_close
      else host_port inner port
    else addr_error missing_port

plain : String → String → String → Address
plain hostport host port =
    if contains b':' host
    then addr_error too_many_colons
    else if contains b'[' hostport
    then addr_error unexpected_open
    else if contains b']' hostport
    then addr_error unexpected_close
    else host_port host port

after_last_colon : String → String → String → Address
unfolding bracketed plain
after_last_colon [] host port = addr_error missing_port
after_last_colon (c ∷ s) host port =
    if eqb (code c) b'['
    then elim (cut b']' s) [
      | none ↦ addr_error missing_bracket
      | some (inner, after) ↦ bracketed s inner after
    ]
    else plain (c ∷ s) host port

-- `net.SplitHostPort`
unfoldable pub split_host_port : String → Address
unfolding after_last_colon
split_host_port hostport = elim (cut_last b':' hostport) [
  | none ↦ addr_error missing_port
  | some (host, port) ↦ after_last_colon hostport host port
]
