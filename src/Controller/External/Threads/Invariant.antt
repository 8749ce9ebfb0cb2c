-- ===== src/Controller/External/Threads/Invariant.antt =====
-- What holds however the controller and its goroutines interleave.
use cluster_api_control_plan.Prelude.{
  ℕ, ◌+◌, ◌≤◌, String, Option, none, some, List, [], ◌∷◌, ◌≡◌, arith, eqb, lookup, IsUnique,
}
use cluster_api_control_plan.Ecr.Store
use cluster_api_control_plan.Ecr.Store.{Instance, MapStore}
use cluster_api_control_plan.Ecr.Store.Calls.{
  one_if, calls, live, held, stop-IsUnique, held-stop, add-IsUnique, held-add,
}
use cluster_api_control_plan.Controller.External.{start_manager}
use cluster_api_control_plan.Controller.External.Loops.{Managers}
use cluster_api_control_plan.Controller.External.Threads.{
  Goroutine, World, new_world, Step, stopping, launching, adding, ending, failing, Steps, here,
  next,
}

abbrev awaited : ℕ → Option (Goroutine × String) → ℕ
awaited f none = 0
awaited f (some (g, version)) = one_if (eqb g.cancel_fn f)

-- Each cancel function is called, live in the store or about to be added, and that once.
record IsSingle (w : World) : Type 0 where
  keys : IsUnique w.store.store
  once : (f : ℕ) → held f w.store + awaited f w.pending ≤ 1

stopped_once :
    (w : World) (name : String)
    → IsSingle w
    → (f : ℕ) → held f (Store.stop w.store name).1 + awaited f w.pending ≤ 1
stopped_once w name h f = omega (arith, held-stop f w.store name h.keys, h.once f)

module _ {managers : Managers} {MayFail : World → Goroutine → Type 0} where
  Step-IsSingle : {w u : World} → Step managers MayFail w u → IsSingle w → IsSingle u
  unfolding start_manager
  Step-IsSingle {w} (stopping key idle) h = record {
    keys = stop-IsUnique w.store key h.keys;
    once = stopped_once w key h;
  }
  Step-IsSingle {w} (launching secret key {mgr} {cancel_fn} idle started fresh) h = record {
    keys = h.keys;
    once = λ f. ground (arith, h.once f);
  }
  Step-IsSingle {w} (adding {g} {version} waits) h = record {
    keys = add-IsUnique w.store g.name version g.manager g.cancel_fn h.keys;
    once = λ f. ground (arith, held-add w.store g.name version g.manager g.cancel_fn f, h.once f);
  }
  Step-IsSingle {w} (ending i runs cancelled) h = record { keys = h.keys; once = h.once }
  Step-IsSingle {w} (failing i {g} e runs may) h = record {
    keys = stop-IsUnique w.store g.name h.keys;
    once = stopped_once w g.name h;
  }

  Steps-IsSingle : {w : World} → Steps managers MayFail new_world w → IsSingle w
  Steps-IsSingle here = record { keys = tt; once = λ f. omega arith }
  Steps-IsSingle (next r st) = Step-IsSingle st (Steps-IsSingle r)

lookup-live :
    (name : String) (v : Instance) (m : List (String × Instance))
    → lookup name m ≡ some v
    → 1 ≤ live v.stop_func m
unfolding lookup
lookup-live name v [] h = cc
lookup-live name v ((k, x) ∷ m) h = ground (arith, lookup-live name v m)

pub not_cancelled :
    {managers : Managers} {MayFail : World → Goroutine → Type 0} {w : World}
    → Steps managers MayFail new_world w
    → (name : String) (v : Instance) → lookup name w.store.store ≡ some v
    → calls v.stop_func w.store.stopped ≡ 0
not_cancelled {w} r name v there =
    omega (arith, lookup-live name v w.store.store there, (Steps-IsSingle r).once v.stop_func)

pub awaited_not_cancelled :
    {managers : Managers} {MayFail : World → Goroutine → Type 0} {w : World}
    → Steps managers MayFail new_world w
    → (p : Goroutine × String) → w.pending ≡ some p
    → calls p.0.cancel_fn w.store.stopped ≡ 0
awaited_not_cancelled r (g, version) waits = ground (arith, (Steps-IsSingle r).once g.cancel_fn)
