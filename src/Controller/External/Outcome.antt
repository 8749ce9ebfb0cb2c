-- ===== src/Controller/External/Outcome.antt =====
-- Which managers run after the reconciliation of a secret.
mod Collecting
mod Loading
pub use Collecting.{in_use}
pub use Loading.{Runs}
use Collecting.{collect_other, collect_elem, collect_unused}
use Loading.{load_managers_other, load_managers-Runs}
use cluster_api_control_plan.Prelude.{
  ℕ, String, Bool, true, false, not, ◌&&◌, Option, none, some, List, [], ◌∷◌, ◌≡◌, ◌≢◌, refl, ◌∙◌,
  arith, ◌==◌, eq_iff, eq_refl, elem, inl, inr, Bool-cases, Option-cases,
}
use cluster_api_control_plan.Errors.{ok, err, Result-cases}
use cluster_api_control_plan.Api.{Secret}
use cluster_api_control_plan.Kube.{list_steward_control_planes, Trace}
use cluster_api_control_plan.Ecr.Names.{generate_key_name_from_secret}
use cluster_api_control_plan.Ecr.Store
use cluster_api_control_plan.Ecr.Store.{MapStore}
use cluster_api_control_plan.Ecr.Store.Laws.{view, view-stop, view-add, get_found_iff, get-view}
use cluster_api_control_plan.Controller.External.{reconcile_secret}
use cluster_api_control_plan.Controller.External.Loops.{
  Managers, is_empty, collect_keys, start, load_manager, load_managers,
}

module _ (managers : Managers) (secret : Secret) where
  -- The reconciliation of a secret changes no manager of another key, also when it fails; when it
  -- succeeds, each of the secret's keys that a StewardControlPlane refers to has a manager that was
  -- made from this version of the secret, and every other key of the secret has none.
  pub reconcile_secret_managers :
      (store : MapStore) (t : Trace) (name : String)
      → (elem name (generate_key_name_from_secret secret) ≡ false
          → view (reconcile_secret managers secret store t).1 name ≡ view store name)
        × ((reconcile_secret managers secret store t).0 ≡ none
            → elem name (generate_key_name_from_secret secret) ≡ true
            → (in_use managers name ≡ true
                → Runs managers secret (view (reconcile_secret managers secret store t).1 name))
              × (in_use managers name ≡ false
                  → view (reconcile_secret managers secret store t).1 name ≡ none))
  unfolding reconcile_secret
  reconcile_secret_managers store t name =
      let keys = generate_key_name_from_secret secret in
      let collected = collect_keys managers keys store t in
      elim (Result-cases collected.0) [
        | inr (e, failed) ↦ (
          λ absent. ground (arith, collect_other managers keys store t name absent),
          λ success there. absurd (ground arith),
        )
        | inl (used, success) ↦
            let listed = collect_elem managers keys used store t name success in
            let other = load_managers_other managers secret used collected.1 name in
            (
              λ absent. ground (arith, collect_other managers keys store t name absent, other),
              λ loaded there. (
                λ is_used.
                    let (mgr, running) =
                      load_managers-Runs managers secret used collected.1 name (ground arith)
                        (ground arith) in
                    (mgr, ground arith),
                λ unused. ground (
                  arith,
                  other,
                  collect_unused managers keys used store t name success there unused,
                ),
              ),
            )
      ]
