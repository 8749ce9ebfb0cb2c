-- ===== src/Ecr/Store/Calls.antt =====
-- Every stop function that the store was given is either live in the store or has been called, and
-- called once for each time it was added.
use cluster_api_control_plan.Prelude.{
  ℕ, ◌+◌, String, Bool, true, false, some, List, [], ◌∷◌, ◌≡◌, arith, eq_iff, eqb, lookup, insert,
  delete, IsUnique, delete-IsUnique, insert-IsUnique, delete_free, Option-cases, inl, inr, ◌&&◌,
}
use cluster_api_control_plan.Ecr.Store.{Instance, MapStore, new_store, stop, add}

abbrev pub one_if : Bool → ℕ
one_if true = 1
one_if false = 0

-- How often a stop function has been called.
abbrev pub calls : ℕ → List ℕ → ℕ
calls f [] = 0
calls f (g ∷ gs) = one_if (eqb g f) + calls f gs

-- In how many entries it is live.
abbrev pub live : ℕ → List (String × Instance) → ℕ
live f [] = 0
live f ((k, v) ∷ m) = one_if (eqb v.stop_func f) + live f m

abbrev pub held : ℕ → MapStore → ℕ
held f m = calls f m.stopped + live f m.store

live-delete :
    (f : ℕ) (k : String) (v : Instance) (m : List (String × Instance))
    → IsUnique m
    → lookup k m ≡ some v
    → one_if (eqb v.stop_func f) + live f (delete k m) ≡ live f m
unfolding lookup delete
live-delete f k v [] u h = cc
live-delete f k v ((j, w) ∷ m) (free, u) h =
    ground (arith, live-delete f k v m u, delete_free j m free, eq_iff j k)

pub stop-IsUnique :
    (m : MapStore) (name : String) → IsUnique m.store → IsUnique (stop m name).1.store
unfolding stop
stop-IsUnique m name h = ground (arith, delete-IsUnique name m.store h)

pub held-stop :
    (f : ℕ) (m : MapStore) (name : String) → IsUnique m.store → held f (stop m name).1 ≡ held f m
unfolding stop
held-stop f m name h = elim (Option-cases (lookup name m.store)) [
  | inl free ↦ ground arith
  | inr (v, found) ↦ rw (found, stop) (omega (arith, live-delete f name v m.store h found))
]

module _ (m : MapStore) (name resource_version : String) (manager cancel_fn : ℕ) where
  pub add-IsUnique :
      IsUnique m.store → IsUnique (add m name resource_version manager cancel_fn).1.store
  unfolding add
  add-IsUnique h = elim (Option-cases (lookup name m.store)) [
    | inl free ↦ rw (free, add) (insert-IsUnique name _ m.store h)
    | inr (v, found) ↦ rw (found, add) h
  ]

  pub held-add :
      (f : ℕ)
      → held f (add m name resource_version manager cancel_fn).1
        ≡ held f m + one_if (eqb cancel_fn f && (add m name resource_version manager cancel_fn).0)
  unfolding add insert
  held-add f = elim (Option-cases (lookup name m.store)) [
    | inl free ↦ ground (arith, delete_free name m.store free)
    | inr (v, found) ↦ ground arith
  ]

-- A call of the store's methods that change it.
pub data Op : Type 0 where
  stopping : String → Op
  adding : String → String → ℕ → ℕ → Op

abbrev pub apply : MapStore → Op → MapStore
apply m (stopping name) = (stop m name).1
apply m (adding name rv manager cancel_fn) = (add m name rv manager cancel_fn).1

abbrev pub run : MapStore → List Op → MapStore
run m [] = m
run m (op ∷ ops) = run (apply m op) ops

abbrev accepts : ℕ → MapStore → Op → ℕ
accepts f m (stopping name) = 0
accepts f m (adding name rv manager cancel_fn) =
    one_if (eqb cancel_fn f && (add m name rv manager cancel_fn).0)

-- How often the store accepts a stop function.
abbrev pub accepted : ℕ → MapStore → List Op → ℕ
accepted f m [] = 0
accepted f m (op ∷ ops) = accepts f m op + accepted f (apply m op) ops

apply-IsUnique : (m : MapStore) (op : Op) → IsUnique m.store → IsUnique (apply m op).store
apply-IsUnique m (stopping name) h = stop-IsUnique m name h
apply-IsUnique m (adding name rv manager cancel_fn) h = add-IsUnique m name rv manager cancel_fn h

held-apply :
    (f : ℕ) (m : MapStore) (op : Op)
    → IsUnique m.store
    → held f (apply m op) ≡ held f m + accepts f m op
held-apply f m (stopping name) h = omega (arith, held-stop f m name h)
held-apply f m (adding name rv manager cancel_fn) h = held-add m name rv manager cancel_fn f

held-run :
    (f : ℕ) (m : MapStore) (ops : List Op)
    → IsUnique m.store
    → held f (run m ops) ≡ held f m + accepted f m ops
held-run f m [] h = omega arith
held-run f m (op ∷ ops) h =
    omega (arith, held-run f (apply m op) ops (apply-IsUnique m op h), held-apply f m op h)

-- After any calls of `Stop` and `Add` on a new store, every stop function has been called and is live
-- as often, together, as it was accepted: none is lost, and one that was accepted once is called at
-- most once.
pub stop_funcs_conserved :
    (f : ℕ) (ops : List Op)
    → calls f (run new_store ops).stopped + live f (run new_store ops).store
      ≡ accepted f new_store ops
stop_funcs_conserved f ops = omega (arith, held-run f new_store ops tt)
