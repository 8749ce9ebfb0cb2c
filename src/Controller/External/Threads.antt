-- ===== src/Controller/External/Threads.antt =====
-- The controller of the kubeconfig secrets beside the goroutines that it starts: `Reconcile` runs
-- `go r.startManager(mgrCtx, mgr, key)` before `Store.Add`, and a goroutine whose `mgr.Start` returns
-- an error calls `Store.Stop` with its key. One worker reconciles the secrets.
pub mod Invariant
pub mod Running
pub mod Refinement
pub mod Faults
pub mod Clients
use cluster_api_control_plan.Prelude.{
  ℕ, zero, suc, String, Option, none, some, List, [], ◌∷◌, ◌≡◌, ◌≢◌,
}
use cluster_api_control_plan.Errors.{Error, Result, ok, err}
use cluster_api_control_plan.Api.{Secret}
use cluster_api_control_plan.Ecr.Store
use cluster_api_control_plan.Ecr.Store.{MapStore, new_store}
use cluster_api_control_plan.Ecr.Store.Calls.{calls, held}
use cluster_api_control_plan.Controller.External.{start_manager}
use cluster_api_control_plan.Controller.External.Loops.{Managers, start}

-- A goroutine in `startManager`, with the function that cancels its context.
pub record Goroutine : Type 0 where
  pub manager : ℕ
  pub name : String
  pub cancel_fn : ℕ

-- `pending` is the goroutine that was launched and not yet added, and the secret's version.
pub record World : Type 0 where
  pub store : MapStore
  pub running : List Goroutine
  pub pending : Option (Goroutine × String)

abbrev pub new_world : World
new_world = record { store = new_store; running = []; pending = none }

module _ {ℓ} {A : Type ℓ} where
  abbrev pub nth : ℕ → List A → Option A
  nth i [] = none
  nth zero (x ∷ xs) = some x
  nth (suc i) (x ∷ xs) = nth i xs

  abbrev pub remove_nth : ℕ → List A → List A
  remove_nth i [] = []
  remove_nth zero (x ∷ xs) = xs
  remove_nth (suc i) (x ∷ xs) = x ∷ remove_nth i xs

-- `Store.Stop(key)`, in either loop
abbrev pub stopped : String → World → World
stopped key w = record w { store = (Store.stop w.store key).1 }

-- `go r.startManager(mgrCtx, mgr, key)`
abbrev pub launched : Goroutine → String → World → World
launched g version w = record {
  store = w.store;
  running = g ∷ w.running;
  pending = some (g, version);
}

-- `r.Store.Add(key, secret.ResourceVersion, mgr, cancelFn)`
abbrev pub added : Goroutine → String → World → World
added g version w = record {
  store = (Store.add w.store g.name version g.manager g.cancel_fn).1;
  running = w.running;
  pending = none;
}

-- `startManager` ends, `mgr.Start` having returned the result.
abbrev pub returned : ℕ → Goroutine → Option Error → World → World
returned i g result w = record w {
  store = start_manager result g.name w.store;
  running = remove_nth i w.running;
}

-- `mgr.Start` returns nil only after its context is cancelled; when it may fail is a parameter. The
-- function that `context.WithCancel` returns is a new one.
pub data Step (managers : Managers) (MayFail : World → Goroutine → Type 0) (w : World)
    : World → Type 0 where
  stopping : (key : String) → w.pending ≡ none → Step managers MayFail w (stopped key w)
  launching :
      (secret : Secret) (key : String) {mgr cancel_fn : ℕ}
      → w.pending ≡ none
      → start managers secret key w.store ≡ ok (mgr, cancel_fn)
      → held cancel_fn w.store ≡ 0
      → Step managers MayFail w (
          launched
            (record { manager = mgr; name = key; cancel_fn = cancel_fn })
            secret.meta.resource_version
            w)
  adding :
      {g : Goroutine} {version : String}
      → w.pending ≡ some (g, version)
      → Step managers MayFail w (added g version w)
  ending :
      (i : ℕ) {g : Goroutine}
      → nth i w.running ≡ some g
      → calls g.cancel_fn w.store.stopped ≢ 0
      → Step managers MayFail w (returned i g none w)
  failing :
      (i : ℕ) {g : Goroutine} (e : Error)
      → nth i w.running ≡ some g
      → MayFail w g
      → Step managers MayFail w (returned i g (some e) w)

pub data Steps (managers : Managers) (MayFail : World → Goroutine → Type 0) (w : World)
    : World → Type 0 where
  here : Steps managers MayFail w w
  next :
      {u v : World}
      → Steps managers MayFail w u
      → Step managers MayFail u v
      → Steps managers MayFail w v

-- A manager may fail whenever it likes.
abbrev pub Anytime : World → Goroutine → Type 0
Anytime w g = Unit

-- A manager fails only once the store has it.
abbrev pub AfterAdd : World → Goroutine → Type 0
AfterAdd w g = (p : Goroutine × String) → w.pending ≡ some p → p.0 ≢ g
