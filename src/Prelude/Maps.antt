-- ===== src/Prelude/Maps.antt =====
-- Go's `map[string]V` as an association list: `lookup` is `m[k]` with its second result, `insert`
-- is `m[k] = v` and `delete` is `delete(m, k)`. The order of the entries is not meant.
use Prim.Native.String.{String}
use mathlib.Core.Path.{◌≡◌, refl}
use mathlib.Core.Option.{Option, none, some}
use mathlib.Core.List.{List, [], ◌∷◌}
use native.Mathlib.Omega.{arith}
use text.Mathlib.Text.{◌==◌}
use text.Mathlib.TextEquality.{eq_iff}
use text.Mathlib.TextPositions.{eq_refl}
use mathlib.Core.Logic.{inl, inr}
use cluster_api_control_plan.Prelude.Tests.{if◌then◌else◌, Bool-cases}

module _ {ℓ} {V : Type ℓ} where
  unfoldable pub lookup : String → List (String × V) → Option V
  lookup name [] = none
  lookup name ((key, value) ∷ rest) = if key == name then some value else lookup name rest

  unfoldable pub delete : String → List (String × V) → List (String × V)
  delete k [] = []
  delete k ((j, v) ∷ m) = let rest = delete k m in if j == k then rest else (j, v) ∷ rest

  unfoldable pub insert : String → V → List (String × V) → List (String × V)
  unfolding delete
  insert k v m = (k, v) ∷ delete k m

  pub lookup-delete :
      (k j : String) (m : List (String × V))
      → lookup j (delete k m) ≡ (if k == j then none else lookup j m)
  unfolding lookup delete
  lookup-delete k j [] = ground arith
  lookup-delete k j ((i, v) ∷ m) =
      ground (arith, lookup-delete k j m, eq_iff i k, eq_iff i j, eq_iff k j)

  pub lookup-insert :
      (name other : String) (value : V) (m : List (String × V))
      → lookup other (insert name value m) ≡ (if name == other then some value else lookup other m)
  unfolding lookup insert
  lookup-insert name other value m = ground (arith, lookup-delete name other m)

  -- A Go map has one entry to a key.
  abbrev pub IsUnique : List (String × V) → Type ℓ
  IsUnique [] = Unit
  IsUnique ((k, v) ∷ m) = (lookup k m ≡ none) × IsUnique m

  pub delete-IsUnique : (k : String) (m : List (String × V)) → IsUnique m → IsUnique (delete k m)
  unfolding delete
  delete-IsUnique k [] h = h
  delete-IsUnique k ((j, v) ∷ m) (free, h) = elim (Bool-cases (j == k)) [
    | inl same ↦ rw same (delete-IsUnique k m h)
    | inr other ↦
        rw other
          (ground (arith, lookup-delete k j m, eq_iff k j, eq_iff j k), delete-IsUnique k m h)
  ]

  pub insert-IsUnique :
      (k : String) (v : V) (m : List (String × V)) → IsUnique m → IsUnique (insert k v m)
  unfolding insert
  insert-IsUnique k v m h = (rw lookup-delete (rw eq_refl), delete-IsUnique k m h)

  pub delete_free : (k : String) (m : List (String × V)) → lookup k m ≡ none → delete k m ≡ m
  unfolding lookup delete
  delete_free k [] h = refl
  delete_free k ((j, v) ∷ m) h = ground (arith, delete_free k m)
