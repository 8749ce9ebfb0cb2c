-- ===== src/Controller/External/Threads/Faults.antt =====
-- A goroutine stops whatever manager its key has when `mgr.Start` fails: two runs in which that is not
-- the manager that has failed.
use cluster_api_control_plan.Prelude.{
  ℕ, ◌≤◌, String, true, none, some, ◌∷◌, ◌≡◌, refl, arith, eq_refl, lookup, insert,
}
use cluster_api_control_plan.Errors.{Error, ok}
use cluster_api_control_plan.Api.{Secret}
use cluster_api_control_plan.Ecr.Store
use cluster_api_control_plan.Ecr.Store.{MapStore}
use cluster_api_control_plan.Ecr.Store.Calls.{calls, held}
use cluster_api_control_plan.Ecr.Store.Laws.{view, view-stop, view-add, get_found_iff}
use cluster_api_control_plan.Controller.External.{start_manager}
use cluster_api_control_plan.Controller.External.Loops.{Managers, start, load_manager}
use cluster_api_control_plan.Controller.External.Threads.{
  Goroutine, World, stopped, launched, added, returned, stopping, launching, adding, failing, Steps,
  here, next, Anytime, AfterAdd,
}
use cluster_api_control_plan.Controller.External.Threads.Running.{IsRunning}

stop_free : (m : MapStore) (key : String) → view m key ≡ none → (Store.stop m key).1 ≡ m
unfolding Store.stop
stop_free m key free = ground arith

module _ (m : MapStore) (key version : String) (mgr cancel_fn : ℕ) where
  stop-add :
      view m key ≡ none
      → (Store.stop (Store.add m key version mgr cancel_fn).1 key).1.stopped ≡ cancel_fn ∷ m.stopped
  unfolding Store.stop Store.add lookup insert
  stop-add free = ground (arith, eq_refl key)

  stop-add-calls :
      view m key ≡ none
      → 1 ≤ calls cancel_fn (Store.stop (Store.add m key version mgr cancel_fn).1 key).1.stopped
  stop-add-calls free = rw (stop-add free) (ground arith)

module _ (managers : Managers) (w : World) (key : String) (secret : Secret) (mgr cancel_fn : ℕ)
    (idle : w.pending ≡ none) (started : start managers secret key w.store ≡ ok (mgr, cancel_fn))
    (new_fn : held cancel_fn w.store ≡ 0) (free : view w.store key ≡ none) where
  -- Where no manager waits to be added, the key is free, and a manager starts for it with a new cancel
  -- function, there is a run in which `mgr.Start` fails before `Store.Add`: no goroutine is left for
  -- the manager, the store reports it as found with the secret's version, and the next round for the
  -- key leaves it there.
  pub early_failure_is_kept :
      (e : Error)
      → (u : World) × Steps managers Anytime w u
        × (u.running ≡ w.running)
        × (u.pending ≡ none)
        × (Store.get u.store key secret.meta.resource_version ≡ (some mgr, true))
        × (load_manager managers secret key u.store ≡ (none, u.store))
  unfolding start_manager load_manager
  early_failure_is_kept e =
      let g : Goroutine = record { manager = mgr; name = key; cancel_fn = cancel_fn } in
      let version = secret.meta.resource_version in
      let failed : World = returned 0 g (some e) (launched g version w) in
      let run : Steps managers Anytime w (added g version failed) =
        next (next (next here (launching secret key idle started new_fn)) (failing 0 e refl tt))
          (adding refl) in
      let added_view = view-add w.store key version key mgr cancel_fn in
      let running : Store.get (added g version failed).store key version ≡ (some mgr, true) =
        (get_found_iff (added g version failed).store key version mgr).1
          (ground (arith, added_view, eq_refl key, stop_free w.store key free, free)) in
      (added g version failed, run, refl, refl, running, rw (running, load_manager) refl)

  -- Where no manager waits to be added, the key is free, and a manager starts for it and, after it was
  -- added and stopped, another for a later version, each with a new cancel function, there is a run
  -- in which managers fail only once the store has them, and the first one's failure stops the
  -- second: its goroutine is in `mgr.Start`, its context is cancelled, and the key has no manager.
  pub late_failure_stops_replacement :
      (version : Secret) (mgr' cancel_fn' : ℕ) (e : Error)
      → start managers version key
          (Store.stop (Store.add w.store key secret.meta.resource_version mgr cancel_fn).1 key).1
        ≡ ok (mgr', cancel_fn')
      → held cancel_fn'
          (Store.stop (Store.add w.store key secret.meta.resource_version mgr cancel_fn).1 key).1
        ≡ 0
      → (u : World) × Steps managers AfterAdd w u
        × IsRunning (record { manager = mgr'; name = key; cancel_fn = cancel_fn' }) u.running
        × (1 ≤ calls cancel_fn' u.store.stopped)
        × (view u.store key ≡ none)
  unfolding start_manager
  late_failure_stops_replacement version mgr' cancel_fn' e started' new_fn' =
      let old : Goroutine = record { manager = mgr; name = key; cancel_fn = cancel_fn } in
      let new : Goroutine = record { manager = mgr'; name = key; cancel_fn = cancel_fn' } in
      let first : World =
        added old secret.meta.resource_version (launched old secret.meta.resource_version w) in
      let replaced : World = stopped key first in
      let second : World =
        added new version.meta.resource_version
          (launched new version.meta.resource_version replaced) in
      let run_first : Steps managers AfterAdd w first =
        next (next here (launching secret key idle started new_fn)) (adding refl) in
      let run : Steps managers AfterAdd w second =
        next
          (next (next run_first (stopping key refl)) (launching version key refl started' new_fn'))
          (adding refl) in
      let gone : view replaced.store key ≡ none =
        ground (arith, view-stop first.store key key, eq_refl key) in
      (
        returned 1 old (some e) second,
        next run (failing 1 e refl (λ p waits. cc)),
        (0, refl),
        stop-add-calls replaced.store key version.meta.resource_version mgr' cancel_fn' gone,
        ground (arith, view-stop second.store key key, eq_refl key),
      )
