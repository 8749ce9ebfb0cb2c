-- ===== src/Examples/Threads.antt =====
-- The controller and its goroutines, with a cancel function for each manager.
use cluster_api_control_plan.Prelude.{
  ℕ, suc, ◌+◌, ◌<◌, ◌≤◌, String, true, false, none, some, List, [], ◌∷◌, ◌≡◌, refl, arith, lookup,
  delete, insert,
}
use cluster_api_control_plan.Errors.{message, ok}
use cluster_api_control_plan.Api.{Secret}
use cluster_api_control_plan.Strings.{split}
use cluster_api_control_plan.Ecr.Names.{generate_key_name_from_steward}
use cluster_api_control_plan.Ecr.Store
use cluster_api_control_plan.Ecr.Store.{Instance, MapStore, new_store}
use cluster_api_control_plan.Ecr.Store.Calls.{calls, live, held}
use cluster_api_control_plan.Ecr.Store.Laws.{view}
use cluster_api_control_plan.Controller.Remote.{
  Reconciler, gate, manager_for, extract_remote_client,
}
use cluster_api_control_plan.Controller.External.{reconcile_secret}
use cluster_api_control_plan.Controller.External.Loops.{Managers, start, load_manager}
use cluster_api_control_plan.Controller.External.Threads.{
  Goroutine, World, new_world, launched, added, Steps, here, next, launching, adding, Anytime,
  AfterAdd,
}
use cluster_api_control_plan.Controller.External.Threads.Running.{IsRunning}
use cluster_api_control_plan.Controller.External.Threads.Clients.{remote_client_runs}
use cluster_api_control_plan.Controller.External.Threads.Refinement.{
  Performs, reconcile_secret-Performs,
}
use cluster_api_control_plan.Controller.External.Threads.Faults.{
  early_failure_is_kept, late_failure_stops_replacement,
}
use cluster_api_control_plan.Samples.Objects.{sample_control_plane, sample_reference, sample_secret}
use cluster_api_control_plan.Samples.Parameters.{sample_managers, sample_client}

abbrev sum_called : List ℕ → ℕ
sum_called [] = 0
sum_called (f ∷ fs) = f + sum_called fs

abbrev sum_live : List (String × Instance) → ℕ
sum_live [] = 0
sum_live ((k, v) ∷ m) = v.stop_func + sum_live m

-- A number above those that the store holds.
abbrev fresh : MapStore → ℕ
fresh m = suc (sum_called m.stopped + sum_live m.store)

calls-above : (f : ℕ) (fs : List ℕ) → sum_called fs < f → calls f fs ≡ 0
calls-above f [] h = refl
calls-above f (g ∷ gs) h = ground (arith, calls-above f gs)

live-above : (f : ℕ) (m : List (String × Instance)) → sum_live m < f → live f m ≡ 0
live-above f [] h = refl
live-above f ((k, v) ∷ m) h = ground (arith, live-above f m)

abbrev counting_managers : Managers
counting_managers = record sample_managers { with_cancel = λ store mgr. fresh store }

counting_fresh : (m : MapStore) (mgr : ℕ) → held (counting_managers.with_cancel m mgr) m ≡ 0
counting_fresh m mgr = omega (
  arith,
  calls-above (fresh m) m.stopped (omega arith),
  live-above (fresh m) m.store (omega arith),
)

reconcile_secret-Performs_example :
    Performs counting_managers AfterAdd new_world
      (reconcile_secret counting_managers sample_secret new_store []).1
reconcile_secret-Performs_example =
    reconcile_secret-Performs counting_managers AfterAdd new_world counting_fresh sample_secret []
      refl

abbrev key : String
key = "clusters/remote/value"

abbrev first : Goroutine
first = record { manager = 5; name = key; cancel_fn = 1 }

starts : start counting_managers sample_secret key new_store ≡ ok (5, 1)
unfolding start split
starts = refl

abbrev running_world : World
running_world = added first "7" (launched first "7" new_world)

reached : Steps counting_managers AfterAdd new_world running_world
reached = next (next here (launching sample_secret key refl starts refl)) (adding refl)

abbrev serving : Reconciler
serving = record {
  features = record {
    external_cluster_reference = true;
    external_cluster_reference_cross_namespace = false;
    skip_infra_cluster_patch = false;
    dynamic_infrastructure_cluster_patch = false;
  };
  store = running_world.store;
  kind_for = λ mgr. none;
  client = sample_client [] (ok tt) "patched";
}

serves : (extract_remote_client serving (sample_control_plane []) sample_reference []).0 ≡ ok 5
unfolding extract_remote_client gate manager_for generate_key_name_from_steward lookup delete insert
    Store.get Store.add
serves = refl

remote_client_runs_example :
    (g : Goroutine) × IsRunning g running_world.running
    × (g.manager ≡ 5)
    × (calls g.cancel_fn running_world.store.stopped ≡ 0)
remote_client_runs_example =
    remote_client_runs counting_managers running_world serving (sample_control_plane [])
      sample_reference [] 5 reached refl serves

early_failure_is_kept_example :
    (u : World) × Steps counting_managers Anytime new_world u
    × (u.running ≡ [])
    × (u.pending ≡ none)
    × (Store.get u.store key "7" ≡ (some 5, true))
    × (load_manager counting_managers sample_secret key u.store ≡ (none, u.store))
unfolding lookup
early_failure_is_kept_example =
    early_failure_is_kept counting_managers new_world key sample_secret 5 1 refl starts refl refl
      (message "no route")

abbrev second_version : Secret
second_version = record sample_secret {
  meta = record sample_secret.meta { resource_version = "8" };
}

abbrev replaced : MapStore
replaced = (Store.stop (Store.add new_store key "7" 5 1).1 key).1

starts_again : start counting_managers second_version key replaced ≡ ok (5, 2)
unfolding start split lookup delete insert Store.add Store.stop
starts_again = refl

second_is_new : held 2 replaced ≡ 0
unfolding lookup delete insert Store.add Store.stop
second_is_new = refl

late_failure_stops_replacement_example :
    (u : World) × Steps counting_managers AfterAdd new_world u
    × IsRunning (record { manager = 5; name = key; cancel_fn = 2 }) u.running
    × (1 ≤ calls 2 u.store.stopped)
    × (view u.store key ≡ none)
unfolding lookup
late_failure_stops_replacement_example =
    late_failure_stops_replacement counting_managers new_world key sample_secret 5 1 refl starts
      refl refl second_version 5 2 (message "graceful shutdown timed out") starts_again
      second_is_new
