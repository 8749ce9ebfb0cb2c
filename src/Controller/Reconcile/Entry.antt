-- ===== src/Controller/Reconcile/Entry.antt =====
-- When a reconciliation leaves everything as it is.
use cluster_api_control_plan.Prelude.{true, List, [], ◌∷◌, ◌≡◌, refl}
use cluster_api_control_plan.Errors.{ok}
use cluster_api_control_plan.Api.{Key, Cluster, OwnerReference, StewardControlPlane}
use cluster_api_control_plan.Kube.{get_steward_control_plane, get_cluster, Trace}
use cluster_api_control_plan.Controller.Reconcile.{
  reconcile, reconcile_owned, reconcile_objects, cluster_key,
}
use cluster_api_control_plan.Controller.Reconcile.Flow.{finished}
use cluster_api_control_plan.Controller.Reconcile.Steps.{Environment}

module _ (env : Environment) (request : Key) (t : Trace) (scp : StewardControlPlane)
    (stored : env.reconciler.client.stored_steward_control_plane t request ≡ ok scp) where
  -- An object without an owner is only read, and so is a paused one, with its cluster, also when it
  -- is being deleted; the reconciliation then ends without an error. The object is stored.
  pub reconcile_quiet :
      (scp.meta.owner_references ≡ []
        → reconcile env request t ≡ (finished, get_steward_control_plane request ∷ t))
      × ((owner : OwnerReference) (others : List OwnerReference) (cluster : Cluster)
          → scp.meta.owner_references ≡ owner ∷ others
          → env.reconciler.client.stored_cluster
              (get_steward_control_plane request ∷ t)
              (cluster_key env scp owner)
            ≡ ok cluster
          → env.is_paused cluster scp ≡ true
          → reconcile env request t ≡ (
            finished,
            get_cluster (cluster_key env scp owner) ∷ get_steward_control_plane request ∷ t,
          ))
  unfolding reconcile reconcile_owned reconcile_objects
  reconcile_quiet = (
    λ no_owner. rw (stored, no_owner, reconcile) refl,
    λ owner others cluster owned has_cluster paused.
        rw (stored, owned, reconcile)
          (rw (has_cluster, paused, reconcile_owned, reconcile_objects) refl),
  )
