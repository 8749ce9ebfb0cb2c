-- ===== src/Strings/Parts.antt =====
-- Splitting and trimming texts that are put together from parts.
use Prim.Native.String.{[], ◌∷◌, ◌++◌}
use text.Mathlib.TextLemmas.{nil-append, cons-append}
use cluster_api_control_plan.Prelude.{ℕ, String, Char, code, true, ◌≡◌, refl, some, [], ◌∷◌, arith}
use cluster_api_control_plan.Net.{contains}
use cluster_api_control_plan.Net.Cuts.{Lacks}
use cluster_api_control_plan.Strings.{split, after_prefix, has_prefix, trim_prefix}

module _ (b : ℕ) where
  pub split-Lacks : (s : String) → Lacks b s → split b s ≡ s ∷ []
  unfolding split contains
  split-Lacks [] h = refl
  split-Lacks (c ∷ s) h = ground (arith, split-Lacks s)

  pub split-append :
      (s t : String) (c : Char) → code c ≡ b → Lacks b s → split b (s ++ c ∷ t) ≡ s ∷ split b t
  unfolding split contains
  split-append [] t c is_b h = rw nil-append (ground arith)
  split-append (d ∷ s) t c is_b h = rw cons-append (ground (arith, split-append s t c is_b))

pub after_prefix-append : (p s : String) → after_prefix p (p ++ s) ≡ some s
unfolding after_prefix
after_prefix-append [] s = rw nil-append
after_prefix-append (c ∷ p) s = rw cons-append (ground (arith, after_prefix-append p s))

pub has_prefix-append : (p s : String) → has_prefix (p ++ s) p ≡ true
unfolding has_prefix
has_prefix-append p s = ground (arith, after_prefix-append p s)

pub trim_prefix-append : (p s : String) → trim_prefix (p ++ s) p ≡ s
unfolding trim_prefix
trim_prefix-append p s = ground (arith, after_prefix-append p s)
