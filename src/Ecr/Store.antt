-- ===== src/Ecr/Store.antt =====
-- pkg/externalclusterreference/store.go: the managers of the external clusters, one to a key. A
-- manager and a stop function are handles; the store keeps the stop functions that it has called,
-- the latest first. Every method holds the mutex, so a method is one step.
pub mod Laws
pub mod Calls
pub mod Refinement
use cluster_api_control_plan.Prelude.{
  ℕ, String, Bool, true, false, Option, none, some, List, [], ◌∷◌, ◌==◌, lookup, insert, delete,
  if◌then◌else◌,
}

pub record Instance : Type 0 where
  pub resource_version : String
  pub manager : ℕ
  pub stop_func : ℕ

pub record MapStore : Type 0 where
  pub store : List (String × Instance)
  pub stopped : List ℕ

-- `NewStore`
abbrev pub new_store : MapStore
new_store = record { store = []; stopped = [] }

-- `Get`: the manager, `none` for nil, and whether the configuration is the one that is asked for.
unfoldable pub get : MapStore → String → String → Option ℕ × Bool
get m name resource_version = elim (lookup name m.store) [
  | none ↦ (none, false)
  | some value ↦
      if value.resource_version == resource_version
      then (some value.manager, true)
      else (some value.manager, false)
]

-- `Stop`
unfoldable pub stop : MapStore → String → Bool × MapStore
stop m name = elim (lookup name m.store) [
  | none ↦ (false, m)
  | some v ↦ (true, record { store = delete name m.store; stopped = v.stop_func ∷ m.stopped })
]

-- `Add`
unfoldable pub add : MapStore → String → String → ℕ → ℕ → Bool × MapStore
add m name resource_version manager cancel_fn = elim (lookup name m.store) [
  | some v ↦ (false, m)
  | none ↦ (
    true,
    record m {
      store =
          insert name
            (record {
              resource_version = resource_version;
              manager = manager;
              stop_func = cancel_fn;
            })
            m.store;
    },
  )
]
