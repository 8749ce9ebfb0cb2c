-- ===== src/Controller/External/Threads/Running.antt =====
-- When the managers in the store are running ones.
use cluster_api_control_plan.Prelude.{
  ℕ, zero, suc, String, some, List, [], ◌∷◌, ◌≡◌, ◌≢◌, arith, eq_iff, lookup, lookup-delete,
  lookup-insert, inl, inr, ◌⊎◌, ap, sym, ◌∙◌, Option-cases,
}
use cluster_api_control_plan.Ecr.Store
use cluster_api_control_plan.Ecr.Store.{Instance, MapStore}
use cluster_api_control_plan.Ecr.Store.Calls.{calls}
use cluster_api_control_plan.Controller.External.{start_manager}
use cluster_api_control_plan.Controller.External.Loops.{Managers}
use cluster_api_control_plan.Controller.External.Threads.{
  Goroutine, World, new_world, nth, remove_nth, stopping, launching, adding, ending, failing, Steps,
  here, next, AfterAdd,
}
use cluster_api_control_plan.Controller.External.Threads.Invariant.{
  not_cancelled, awaited_not_cancelled,
}

abbrev pub IsRunning : Goroutine → List Goroutine → Type 0
IsRunning g gs = (i : ℕ) × (nth i gs ≡ some g)

-- The goroutine of an entry of the store.
abbrev pub goroutine_of : String → Instance → Goroutine
goroutine_of name v = record { manager = v.manager; name = name; cancel_fn = v.stop_func }

remove-IsRunning :
    (i : ℕ) (g h : Goroutine) (gs : List Goroutine)
    → nth i gs ≡ some h
    → g ≢ h
    → IsRunning g gs
    → IsRunning g (remove_nth i gs)
remove-IsRunning i g h [] there other (j, at_j) = cc
remove-IsRunning zero g h (x ∷ gs) there other (zero, at_j) = absurd (ground arith)
remove-IsRunning zero g h (x ∷ gs) there other (suc j, at_j) = (j, at_j)
remove-IsRunning (suc i) g h (x ∷ gs) there other (zero, at_j) = (0, at_j)
remove-IsRunning (suc i) g h (x ∷ gs) there other (suc j, at_j) =
    let (k, at_k) = remove-IsRunning i g h gs there other (j, at_j) in (suc k, at_k)

record AllRun (w : World) : Type 0 where
  entries :
      (name : String) (v : Instance)
      → lookup name w.store.store ≡ some v
      → IsRunning (goroutine_of name v) w.running
  awaits : (p : Goroutine × String) → w.pending ≡ some p → IsRunning p.0 w.running

lookup-stop :
    (m : MapStore) (key name : String) (v : Instance)
    → lookup name (Store.stop m key).1.store ≡ some v
    → (lookup name m.store ≡ some v) × (key ≢ name)
unfolding Store.stop
lookup-stop m key name v h = elim (Option-cases (lookup key m.store)) [
  | inl free ↦ (ground arith, λ e. ground (arith, eq_iff key name))
  | inr (x, found) ↦ ground (arith, eq_iff key name, lookup-delete key name m.store)
]

module _ (g : Goroutine) (version : String) (m : MapStore) where
  -- An entry after `Add` was there, or is the goroutine's.
  lookup-add :
      (name : String) (v : Instance)
      → lookup name (Store.add m g.name version g.manager g.cancel_fn).1.store ≡ some v
      → (lookup name m.store ≡ some v) ⊎ (goroutine_of name v ≡ g)
  unfolding Store.add
  lookup-add name v h = elim (Option-cases (lookup g.name m.store)) [
    | inr (x, found) ↦ ground arith
    | inl free ↦ ground (
      arith,
      eq_iff g.name name,
      lookup-insert g.name name
          (record { resource_version = version; manager = g.manager; stop_func = g.cancel_fn })
          m.store,
    )
  ]

module _ {managers : Managers} where
  Steps-AllRun : {w : World} → Steps managers AfterAdd new_world w → AllRun w
  unfolding start_manager lookup
  Steps-AllRun here = record { entries = λ name v h. cc; awaits = λ p h. cc }
  Steps-AllRun (next {u = w} r (stopping key idle)) =
      let h = Steps-AllRun r in
      record {
        entries = λ name v there. h.entries name v (lookup-stop w.store key name v there).0;
        awaits = h.awaits;
      }
  Steps-AllRun (next {u = w} r (launching secret key {mgr} {cancel_fn} idle started fresh)) =
      let h = Steps-AllRun r in
      record {
        entries = λ name v there. (let (i, at_i) = h.entries name v there in (suc i, at_i));
        awaits = λ p waits. (0, ground arith);
      }
  Steps-AllRun (next {u = w} r (adding {g} {version} waits)) =
      let h = Steps-AllRun r in
      record {
        entries = λ name v there. elim (lookup-add g version w.store name v there) [
          | inl before ↦ h.entries name v before
          | inr same ↦ rw same (h.awaits (g, version) waits)
        ];
        awaits = λ p none_waits. cc;
      }
  Steps-AllRun (next {u = w} r (ending i {g} runs cancelled)) =
      let h = Steps-AllRun r in
      record {
        entries = λ name v there.
            remove-IsRunning i (goroutine_of name v) g w.running runs
              (λ e. cancelled (
                ap (λ (t : Goroutine). calls t.cancel_fn w.store.stopped) (sym e)
                ∙ not_cancelled r name v there))
              (h.entries name v there);
        awaits = λ p waits.
            remove-IsRunning i p.0 g w.running runs
              (λ e. cancelled (
                ap (λ (t : Goroutine). calls t.cancel_fn w.store.stopped) (sym e)
                ∙ awaited_not_cancelled r p waits))
              (h.awaits p waits);
      }
  Steps-AllRun (next {u = w} r (failing i {g} e runs may)) =
      let h = Steps-AllRun r in
      record {
        entries = λ name v there.
            (let (before, other) = lookup-stop w.store g.name name v there in
              remove-IsRunning i (goroutine_of name v) g w.running runs
                (λ same. other (ap (λ (t : Goroutine). t.name) (sym same)))
                (h.entries name v before));
        awaits =
            λ p waits. remove-IsRunning i p.0 g w.running runs (may p waits) (h.awaits p waits);
      }

-- As long as no manager fails before the store has it, every manager in the store is one whose
-- goroutine is in `mgr.Start`, in every state that the controller and its goroutines reach; and
-- its context is not cancelled.
pub stored_managers_run :
    {managers : Managers} {w : World}
    → Steps managers AfterAdd new_world w
    → (name : String) (v : Instance) → lookup name w.store.store ≡ some v
    → IsRunning (goroutine_of name v) w.running × (calls v.stop_func w.store.stopped ≡ 0)
stored_managers_run r name v there =
    ((Steps-AllRun r).entries name v there, not_cancelled r name v there)
