-- ===== src/Prelude/Lists.antt =====
-- Lists: predicates by recursion, and membership of texts.
use Prim.Native.String.{String}
use mathlib.Core.Bool.{Bool, false, ◌||◌}
use mathlib.Core.List.{List, [], ◌∷◌}
use text.Mathlib.Text.{◌==◌}

abbrev pub All {ℓ κ} : {A : Type ℓ} → (A → Type κ) → List A → Type κ
All P [] = Unit
All P (x ∷ xs) = P x × All P xs

-- Whether a text is in a list.
abbrev pub elem : String → List String → Bool
elem x [] = false
elem x (y ∷ ys) = y == x || elem x ys

-- `append(xs, ys...)`, in files where ◌++◌ joins texts.
abbrev pub append {ℓ} : {A : Type ℓ} → List A → List A → List A
append [] ys = ys
append (x ∷ xs) ys = x ∷ append xs ys
