-- ===== src/Ecr/Store/Laws.antt =====
-- What the store promises: it is a map from names to instances.
use cluster_api_control_plan.Prelude.{
  ℕ, String, true, false, Option, none, some, ◌≡◌, arith, ◌==◌, eq_iff, ◌↔◌, inl, inr, Option-cases,
  lookup, lookup-insert, lookup-delete, if◌then◌else◌,
}
use cluster_api_control_plan.Ecr.Store.{MapStore, get, stop, add}

-- The abstract store: the configuration and the manager under each name.
abbrev pub view : MapStore → String → Option (String × ℕ)
view m name = elim (lookup name m.store) [
  | none ↦ none
  | some v ↦ some (v.resource_version, v.manager)
]

-- `Get` reports a manager as found exactly when the store has it under the name with that resource
-- version; it returns the manager of the name also when the version differs.
pub get-view :
    (m : MapStore) (name resource_version : String)
    → get m name resource_version ≡ (elim (view m name) [
      | none ↦ (none, false)
      | some (rv, manager) ↦ (some manager, rv == resource_version)
    ])
unfolding get
get-view m name resource_version = ground arith

-- `Stop` reports whether there was an instance, and then the name has none and every other name what
-- it had.
pub view-stop :
    (m : MapStore) (name other : String)
    → ((stop m name).0 ≡ (elim (view m name) [ none ↦ false | some v ↦ true ]))
      × (view (stop m name).1 other ≡ (if name == other then none else view m other))
unfolding stop
view-stop m name other = ground (arith, lookup-delete name other m.store, eq_iff name other)

-- `Add` keeps an instance that is there: it succeeds exactly when the name is free, and then only
-- that name changes.
pub view-add :
    (m : MapStore) (name resource_version other : String) (manager cancel_fn : ℕ)
    → ((add m name resource_version manager cancel_fn).0
        ≡ (elim (view m name) [ none ↦ true | some v ↦ false ]))
      × (view (add m name resource_version manager cancel_fn).1 other ≡ (elim (view m name) [
        | none ↦ if name == other then some (resource_version, manager) else view m other
        | some v ↦ view m other
      ]))
unfolding add
view-add m name resource_version other manager cancel_fn = ground (
  arith,
  lookup-insert name other
      (record { resource_version = resource_version; manager = manager; stop_func = cancel_fn })
      m.store,
  eq_iff name other,
)

-- A manager is reported as found exactly when it is the one under the name, with that version.
pub get_found_iff :
    (m : MapStore) (name version : String) (mgr : ℕ)
    → (get m name version ≡ (some mgr, true)) ↔ (view m name ≡ some (version, mgr))
unfolding get
get_found_iff m name version mgr = elim (Option-cases (lookup name m.store)) [
  | inl free ↦ ground arith
  | inr (v, found) ↦ ground (arith, eq_iff v.resource_version version)
]
