-- ===== src/Ecr/Store/Refinement.antt =====
-- Any sequence of calls of the store behaves as on a map from names to managers.
use mathlib.Core.Path.{fun_ext}
use cluster_api_control_plan.Prelude.{
  ℕ, String, Bool, true, false, not, Option, none, some, List, [], ◌∷◌, ◌≡◌, refl, ap, ◌∙◌, ◌==◌,
  arith, lookup, if◌then◌else◌,
}
use cluster_api_control_plan.Ecr.Store.{MapStore, new_store, get, stop, add}
use cluster_api_control_plan.Ecr.Store.Laws.{view, get-view, view-stop, view-add}
use cluster_api_control_plan.Ecr.Store.Calls.{Op, stopping, adding, apply, run}

-- The version and the manager under a name.
abbrev pub AbstractStore : Type 0
AbstractStore = String → Option (String × ℕ)

abbrev pub empty : AbstractStore
empty name = none

abbrev pub is_present : Option (String × ℕ) → Bool
is_present none = false
is_present (some v) = true

abbrev pub answer : Option (String × ℕ) → String → Option ℕ × Bool
answer none resource_version = (none, false)
answer (some (rv, manager)) resource_version = (some manager, rv == resource_version)

-- Stopping frees the name; adding takes it if it is free.
abbrev pub apply_to : AbstractStore → Op → AbstractStore
apply_to s (stopping name) other = if name == other then none else s other
apply_to s (adding name rv manager cancel_fn) other = elim (s name) [
  | none ↦ if name == other then some (rv, manager) else s other
  | some v ↦ s other
]

abbrev pub run_on : AbstractStore → List Op → AbstractStore
run_on s [] = s
run_on s (op ∷ ops) = run_on (apply_to s op) ops

view-apply :
    (m : MapStore) (op : Op) (name : String) → view (apply m op) name ≡ apply_to (view m) op name
view-apply m (stopping name) other = (view-stop m name other).1
view-apply m (adding name rv manager cancel_fn) other =
    (view-add m name rv other manager cancel_fn).1

view-run : (m : MapStore) (ops : List Op) → view (run m ops) ≡ run_on (view m) ops
view-run m [] = refl
view-run m (op ∷ ops) =
    view-run (apply m op) ops ∙ ap (λ s. run_on s ops) (fun_ext (view-apply m op))

-- After any calls of `Stop` and `Add` on a new store, `Get`, `Stop` and `Add` answer as on the map that
-- the same calls make of the empty one: `Get` gives the manager under the name, and whether it has
-- the version; `Stop` reports whether there is one, and `Add` whether there is none.
pub store_refines :
    (ops : List Op) (name resource_version : String) (manager cancel_fn : ℕ)
    → (get (run new_store ops) name resource_version
        ≡ answer (run_on empty ops name) resource_version)
      × ((stop (run new_store ops) name).0 ≡ is_present (run_on empty ops name))
      × ((add (run new_store ops) name resource_version manager cancel_fn).0
          ≡ not (is_present (run_on empty ops name)))
unfolding lookup
store_refines ops name resource_version manager cancel_fn =
    let m = run new_store ops in
    let same : view m name ≡ run_on empty ops name = ap (λ s. s name) (view-run new_store ops) in
    ground (
      arith,
      get-view m name resource_version,
      view-stop m name name,
      view-add m name resource_version name manager cancel_fn,
    )
