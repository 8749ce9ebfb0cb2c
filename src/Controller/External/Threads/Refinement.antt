-- ===== src/Controller/External/Threads/Refinement.antt =====
-- A reconciliation that no goroutine interrupts is a sequence of the steps.
use cluster_api_control_plan.Prelude.{
  ℕ, String, none, List, [], ◌∷◌, ◌≡◌, refl, ap, ◌∙◌, arith, inl, inr, Bool-cases, Option-cases,
  sym,
}
use cluster_api_control_plan.Errors.{ok, Result-cases}
use cluster_api_control_plan.Api.{Secret}
use cluster_api_control_plan.Kube.{list_steward_control_planes, Trace}
use cluster_api_control_plan.Ecr.Names.{generate_key_name_from_secret}
use cluster_api_control_plan.Ecr.Store
use cluster_api_control_plan.Ecr.Store.{MapStore}
use cluster_api_control_plan.Ecr.Store.Calls.{held}
use cluster_api_control_plan.Controller.External.{reconcile_secret}
use cluster_api_control_plan.Controller.External.Loops.{
  Managers, is_empty, collect_keys, start, load_manager, load_managers,
}
use cluster_api_control_plan.Controller.External.Threads.{
  Goroutine, World, stopping, launching, adding, Steps, here, next,
}

-- The steps from a state reach one with this store, and with no manager that waits to be added.
abbrev pub Performs : Managers → (World → Goroutine → Type 0) → World → MapStore → Type 0
Performs managers MayFail w m =
    (u : World) × Steps managers MayFail w u × (u.store ≡ m) × (u.pending ≡ none)

module _ (managers : Managers) (MayFail : World → Goroutine → Type 0) (w : World) where
  stop-Performs :
      (key : String) (m : MapStore)
      → Performs managers MayFail w m
      → Performs managers MayFail w (Store.stop m key).1
  stop-Performs key m (u, r, same, idle) =
      (_, next r (stopping key idle), ap (λ s. (Store.stop s key).1) same, idle)

  collect-Performs :
      (keys : List String) (m : MapStore) (t : Trace)
      → Performs managers MayFail w m
      → Performs managers MayFail w (collect_keys managers keys m t).1
  unfolding collect_keys
  collect-Performs [] m t h = h
  collect-Performs (key ∷ keys) m t h =
      let u : Trace = list_steward_control_planes key ∷ t in
      elim (Result-cases (managers.referring key)) [
        | inr (e, failed) ↦ rw (failed, collect_keys) h
        | inl (items, listed) ↦ elim (Bool-cases (is_empty items)) [
          | inl unused ↦
              rw (listed, unused, collect_keys)
                (collect-Performs keys (Store.stop m key).1 u (stop-Performs key m h))
          | inr used ↦ rw (listed, used, collect_keys) (collect-Performs keys m u h)
        ]
      ]

  start_cancel :
      (secret : Secret) (key : String) (m : MapStore) (started : ℕ × ℕ)
      → start managers secret key m ≡ ok started
      → managers.with_cancel m started.0 ≡ started.1
  unfolding start
  start_cancel secret key m started h = ground arith

  -- The cancel function of a new context is a new one.
  module _ (new_fn : (m : MapStore) (mgr : ℕ) → held (managers.with_cancel m mgr) m ≡ 0) where
    start_fresh :
        (secret : Secret) (key : String) (m : MapStore) (started : ℕ × ℕ)
        → start managers secret key m ≡ ok started
        → held started.1 m ≡ 0
    unfolding start
    start_fresh secret key m started h =
        rw (sym (start_cancel secret key m started h)) (new_fn m started.0)

    add-Performs :
        (secret : Secret) (key : String) (m : MapStore) (started : ℕ × ℕ)
        → start managers secret key m ≡ ok started
        → Performs managers MayFail w m
        → Performs managers MayFail w
            (Store.add m key secret.meta.resource_version started.0 started.1).1
    add-Performs secret key m started is_started (u, r, same, idle) =
        let launch =
          launching secret key idle (ap (start managers secret key) same ∙ is_started)
            (ap (held started.1) same ∙ start_fresh secret key m started is_started) in
        (
          _,
          next (next r launch) (adding refl),
          ap (λ s. (Store.add s key secret.meta.resource_version started.0 started.1).1) same,
          refl,
        )

    load-Performs :
        (secret : Secret) (key : String) (m : MapStore)
        → Performs managers MayFail w m
        → Performs managers MayFail w (load_manager managers secret key m).1
    unfolding load_manager
    load-Performs secret key m h =
        elim (Bool-cases (Store.get m key secret.meta.resource_version).1) [
          | inl found ↦ rw (found, load_manager) h
          | inr missing ↦
              let stopped : MapStore = (Store.stop m key).1 in
              elim (Result-cases (start managers secret key stopped)) [
                | inr (e, failed) ↦ rw (missing, failed, load_manager) (stop-Performs key m h)
                | inl (started, is_started) ↦
                    rw (missing, is_started, load_manager)
                      (add-Performs secret key stopped started is_started (stop-Performs key m h))
              ]
        ]

    load_managers-Performs :
        (secret : Secret) (keys : List String) (m : MapStore)
        → Performs managers MayFail w m
        → Performs managers MayFail w (load_managers managers secret keys m).1
    unfolding load_managers
    load_managers-Performs secret [] m h = h
    load_managers-Performs secret (key ∷ keys) m h =
        let next_store : MapStore = (load_manager managers secret key m).1 in
        elim (Option-cases (load_manager managers secret key m).0) [
          | inr (e, failed) ↦ rw (failed, load_managers) (load-Performs secret key m h)
          | inl loaded ↦
              rw (loaded, load_managers)
                (load_managers-Performs secret keys next_store (load-Performs secret key m h))
        ]

    -- Where no manager waits to be added and every new context has a cancel function of its own, the
    -- reconciliation of a secret, whether it succeeds or fails, leaves the store as some sequence of the
    -- steps does, after which no manager waits to be added.
    pub reconcile_secret-Performs :
        (secret : Secret) (t : Trace)
        → w.pending ≡ none
        → Performs managers MayFail w (reconcile_secret managers secret w.store t).1
    unfolding reconcile_secret
    reconcile_secret-Performs secret t idle =
        let keys = generate_key_name_from_secret secret in
        let collected = collect_keys managers keys w.store t in
        let so_far = collect-Performs keys w.store t (w, here, refl, idle) in
        elim (Result-cases collected.0) [
          | inr (e, failed) ↦ rw (failed, reconcile_secret) so_far
          | inl (used, success) ↦
              rw (success, reconcile_secret) (load_managers-Performs secret used collected.1 so_far)
        ]
