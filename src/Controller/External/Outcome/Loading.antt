-- ===== src/Controller/External/Outcome/Loading.antt =====
-- What the second loop leaves under each key.
use cluster_api_control_plan.Prelude.{
  ℕ, String, true, false, Option, none, some, List, [], ◌∷◌, ◌≡◌, ◌≢◌, refl, ◌∙◌, arith, ◌==◌,
  eq_iff, eq_refl, elem, inl, inr, Bool-cases, Option-cases,
}
use cluster_api_control_plan.Errors.{Result-cases}
use cluster_api_control_plan.Api.{Secret}
use cluster_api_control_plan.Ecr.Store
use cluster_api_control_plan.Ecr.Store.{MapStore}
use cluster_api_control_plan.Ecr.Store.Laws.{view, view-stop, view-add, get_found_iff, get-view}
use cluster_api_control_plan.Controller.External.Loops.{
  Managers, start, load_manager, load_managers,
}

module _ (managers : Managers) where
  module _ (secret : Secret) where
    abbrev pub Runs : Option (String × ℕ) → Type 0
    Runs v = (mgr : ℕ) × (v ≡ some (secret.meta.resource_version, mgr))

    load_other :
        (key : String) (store : MapStore) (name : String)
        → key ≢ name
        → view (load_manager managers secret key store).1 name ≡ view store name
    unfolding load_manager
    load_other key store name other =
        elim (Bool-cases (Store.get store key secret.meta.resource_version).1) [
          | inl found ↦ ground arith
          | inr missing ↦ elim (Result-cases (start managers secret key (Store.stop store key).1)) [
            | inr (e, failed) ↦ ground (arith, view-stop store key name, eq_iff key name)
            | inl (started, is_started) ↦
                let stopped : MapStore = (Store.stop store key).1 in
                let added =
                  view-add stopped key secret.meta.resource_version name started.0 started.1 in
                ground
                  (arith, view-stop store key name, view-stop store key key, eq_iff key name, added)
          ]
        ]

    load-Runs :
        (key : String) (store : MapStore)
        → (load_manager managers secret key store).0 ≡ none
        → Runs (view (load_manager managers secret key store).1 key)
    unfolding load_manager
    load-Runs key store h = elim (Bool-cases (Store.get store key secret.meta.resource_version).1) [
      | inl found ↦ elim (Option-cases (view store key)) [
        | inl free ↦ absurd (ground (arith, get-view store key secret.meta.resource_version))
        | inr (v, there) ↦ (
          v.1,
          ground (
            arith,
            get-view store key secret.meta.resource_version,
            eq_iff v.0 secret.meta.resource_version,
          ),
        )
      ]
      | inr missing ↦ elim (Result-cases (start managers secret key (Store.stop store key).1)) [
        | inr (e, failed) ↦ absurd (ground arith)
        | inl (started, is_started) ↦
            let stopped : MapStore = (Store.stop store key).1 in
            let added = view-add stopped key secret.meta.resource_version key started.0 started.1 in
            (started.0, ground (arith, view-stop store key key, eq_refl key, added))
      ]
    ]

    load_keeps :
        (key : String) (store : MapStore) (name : String) (mgr : ℕ)
        → view store name ≡ some (secret.meta.resource_version, mgr)
        → view (load_manager managers secret key store).1 name
          ≡ some (secret.meta.resource_version, mgr)
    unfolding load_manager
    load_keeps key store name mgr h = elim (Bool-cases (key == name)) [
      | inl same ↦
          let found =
            (get_found_iff store key secret.meta.resource_version mgr).1
              (ground (arith, eq_iff key name)) in
          rw (found, load_manager) h
      | inr other ↦ load_other key store name (ground (arith, eq_iff key name)) ∙ h
    ]

    pub load_managers_other :
        (keys : List String) (store : MapStore) (name : String)
        → elem name keys ≡ false
        → view (load_managers managers secret keys store).1 name ≡ view store name
    unfolding load_managers
    load_managers_other [] store name absent = refl
    load_managers_other (key ∷ keys) store name absent =
        let next : MapStore = (load_manager managers secret key store).1 in
        ground
          (arith, eq_iff key name, load_other key store name, load_managers_other keys next name)

    load_managers_keeps :
        (keys : List String) (store : MapStore) (name : String) (mgr : ℕ)
        → view store name ≡ some (secret.meta.resource_version, mgr)
        → view (load_managers managers secret keys store).1 name
          ≡ some (secret.meta.resource_version, mgr)
    unfolding load_managers
    load_managers_keeps [] store name mgr h = h
    load_managers_keeps (key ∷ keys) store name mgr h =
        let next : MapStore = (load_manager managers secret key store).1 in
        ground (arith, load_keeps key store name mgr h, load_managers_keeps keys next name mgr)

    pub load_managers-Runs :
        (keys : List String) (store : MapStore) (name : String)
        → (load_managers managers secret keys store).0 ≡ none
        → elem name keys ≡ true
        → Runs (view (load_managers managers secret keys store).1 name)
    unfolding load_managers
    load_managers-Runs [] store name h there = absurd (ground arith)
    load_managers-Runs (key ∷ keys) store name h there =
        let next : MapStore = (load_manager managers secret key store).1 in
        elim (Option-cases (load_manager managers secret key store).0) [
          | inr (e, failed) ↦ absurd (ground arith)
          | inl loaded ↦ elim (Bool-cases (key == name)) [
            | inl same ↦
                let (mgr, running) = load-Runs key store loaded in
                (mgr, ground (arith, eq_iff key name, load_managers_keeps keys next name mgr))
            | inr other ↦
                let (mgr, running) =
                  load_managers-Runs keys next name (ground arith) (ground arith) in
                (mgr, ground arith)
          ]
        ]
