-- ===== src/Controller/External.antt =====
-- controllers/externalclusterreference_controller.go: the controller of the kubeconfig secrets, which
-- starts and stops the managers of the external clusters, and the one that each of these managers
-- runs, which tells the management cluster of changes.
pub mod Loops
pub mod Outcome
pub mod Push
pub mod Serving
pub mod Threads
pub mod Watches
use cluster_api_control_plan.Prelude.{
  ℕ, String, Bool, Option, none, some, List, [], ◌∷◌, if◌then◌else◌,
}
use cluster_api_control_plan.Errors.{Error, is_not_found, Result, ok, err}
use cluster_api_control_plan.Api.{Key, Secret, StewardControlPlane}
use cluster_api_control_plan.Kube.{Call, management, get_secret, Trace, Client}
use cluster_api_control_plan.Ecr.Names.{generate_key_name_from_secret}
use cluster_api_control_plan.Ecr.Store
use cluster_api_control_plan.Ecr.Store.{MapStore}
use cluster_api_control_plan.Controller.External.Loops.{Managers, collect_keys, load_managers}

-- `Reconcile`, from the point where the secret is read: the error, the store and the calls.
module _ (managers : Managers) where
  unfoldable pub reconcile_secret : Secret → MapStore → Trace → Option Error × MapStore × Trace
  reconcile_secret secret store trace =
      let (keys, store', t) =
        collect_keys managers (generate_key_name_from_secret secret) store trace in
      elim keys [
        | err e ↦ (some e, store', t)
        | ok used ↦
            (let (e, store'') = load_managers managers secret used store' in (e, store'', t))
      ]

  unfoldable pub reconcile : Client → Key → MapStore → Trace → Option Error × MapStore × Trace
  reconcile client request store trace =
      let t = get_secret management request ∷ trace in
      elim (client.stored_secret trace management request) [
        | err e ↦ (if is_not_found e then none else some e, store, t)
        | ok secret ↦ reconcile_secret secret store t
      ]

-- `startManager`, once `mgr.Start` has returned.
unfoldable pub start_manager : Option Error → String → MapStore → MapStore
start_manager none name store = store
start_manager (some mgr_err) name store = (Store.stop store name).1
