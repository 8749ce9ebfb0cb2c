-- ===== src/Strings.antt =====
-- The parts of Go's `strings` package that the controllers call.
pub mod Parts
use Prim.Native.String.{[], ◌∷◌}
use Prim.Native.String
use cluster_api_control_plan.Prelude.{
  ℕ, String, Char, code, Bool, true, false, ◌&&◌, Option, none, some, List, [], ◌∷◌, eqb,
  if◌then◌else◌,
}

abbrev prepend : Char → List String → List String
prepend c [] = (c ∷ []) ∷ []
prepend c (p ∷ ps) = (c ∷ p) ∷ ps

-- `strings.Split(s, sep)` at a separator of one character
unfoldable pub split : ℕ → String → List String
split b [] = "" ∷ []
split b (c ∷ s) = let rest = split b s in if eqb (code c) b then "" ∷ rest else prepend c rest

-- The text behind a prefix.
unfoldable pub after_prefix : String → String → Option String
after_prefix [] s = some s
after_prefix (c ∷ p) [] = none
after_prefix (c ∷ p) (d ∷ s) =
    let rest = after_prefix p s in if eqb (code c) (code d) then rest else none

-- `strings.HasPrefix(s, prefix)`
unfoldable pub has_prefix : String → String → Bool
unfolding after_prefix
has_prefix s prefix = elim (after_prefix prefix s) [ none ↦ false | some _ ↦ true ]

-- `strings.TrimPrefix(s, prefix)`
unfoldable pub trim_prefix : String → String → String
unfolding after_prefix
trim_prefix s prefix = elim (after_prefix prefix s) [ none ↦ s | some rest ↦ rest ]
