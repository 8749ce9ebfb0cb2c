-- ===== src/Controller/External/Threads/Clients.antt =====
-- What the StewardControlPlanes get while the controller and its goroutines run.
use cluster_api_control_plan.Prelude.{ℕ, String, some, ◌≡◌, arith, lookup, inl, inr, Option-cases}
use cluster_api_control_plan.Errors.{ok}
use cluster_api_control_plan.Api.{ExternalClusterReference, StewardControlPlane}
use cluster_api_control_plan.Kube.{Trace}
use cluster_api_control_plan.Ecr.Names.{generate_key_name_from_steward}
use cluster_api_control_plan.Ecr.Store.{Instance, MapStore}
use cluster_api_control_plan.Ecr.Store.Calls.{calls}
use cluster_api_control_plan.Ecr.Store.Laws.{view}
use cluster_api_control_plan.Controller.Remote.{Reconciler, extract_remote_client}
use cluster_api_control_plan.Controller.Remote.Laws.{extract_remote_client_iff}
use cluster_api_control_plan.Controller.External.Loops.{Managers}
use cluster_api_control_plan.Controller.External.Threads.{
  Goroutine, World, new_world, Steps, AfterAdd,
}
use cluster_api_control_plan.Controller.External.Threads.Running.{
  IsRunning, goroutine_of, stored_managers_run,
}

view-lookup :
    (m : MapStore) (name version : String) (mgr : ℕ)
    → view m name ≡ some (version, mgr)
    → (v : Instance) × (lookup name m.store ≡ some v) × (v.manager ≡ mgr)
view-lookup m name version mgr h = elim (Option-cases (lookup name m.store)) [
  | inl free ↦ absurd (ground arith)
  | inr (v, found) ↦ (v, found, ground arith)
]

-- However the controller and its goroutines interleave from a new store on, a client of an external
-- cluster that a reconciler with this store returns is that of a manager whose goroutine is in
-- `mgr.Start`, under a context that has not been cancelled, as long as no manager fails while it
-- waits to be added. New cancel functions are new, and `mgr.Start` returns nil only when its
-- context is cancelled.
pub remote_client_runs :
    (managers : Managers) (w : World) (r : Reconciler) (scp : StewardControlPlane)
    (ecr : ExternalClusterReference) (trace : Trace) (mgr : ℕ)
    → Steps managers AfterAdd new_world w
    → r.store ≡ w.store
    → (extract_remote_client r scp ecr trace).0 ≡ ok mgr
    → (g : Goroutine) × IsRunning g w.running
      × (g.manager ≡ mgr)
      × (calls g.cancel_fn w.store.stopped ≡ 0)
remote_client_runs managers w r scp ecr trace mgr reached same returned =
    let ready = (extract_remote_client_iff r scp ecr trace mgr).0 returned in
    let key = generate_key_name_from_steward scp ecr in
    let (v, there, is_mgr) =
      view-lookup w.store key ready.secret.meta.resource_version mgr (rw⁻¹ same ready.running) in
    let (running, live) = stored_managers_run reached key v there in
    (goroutine_of key v, running, is_mgr, live)
