-- ===== src/Examples/Serving.antt =====
-- A secret that is reconciled, and the control plane that refers to it.
use cluster_api_control_plan.Prelude.{
  ℕ, String, true, false, none, List, [], ◌∷◌, ◌≡◌, ◌≢◌, ◌⊎◌, inr, refl, All, lookup, delete,
  insert,
}
use cluster_api_control_plan.Errors.{Result, ok}
use cluster_api_control_plan.Api.{Secret}
use cluster_api_control_plan.Net.{contains}
use cluster_api_control_plan.Strings.{split}
use cluster_api_control_plan.Ecr.Names.{key_names, generate_key_name_from_secret}
use cluster_api_control_plan.Ecr.Keys.{NoSlash}
use cluster_api_control_plan.Ecr.Store
use cluster_api_control_plan.Ecr.Store.{new_store}
use cluster_api_control_plan.Controller.Remote.{Reconciler, extract_remote_client}
use cluster_api_control_plan.Controller.External.{reconcile_secret}
use cluster_api_control_plan.Controller.External.Loops.{
  collect_keys, start, load_manager, load_managers,
}
use cluster_api_control_plan.Controller.External.Serving.{reconciled_secret_serves}
use cluster_api_control_plan.Controller.External.Watches.{
  requests_for, under, Names, referenced, requests_for-reference,
}
use cluster_api_control_plan.Samples.Objects.{sample_control_plane, sample_reference, sample_secret}
use cluster_api_control_plan.Samples.Parameters.{sample_managers, sample_client}

clusters-NoSlash : NoSlash "clusters"
unfolding contains
clusters-NoSlash = refl

remote-NoSlash : NoSlash "remote"
unfolding contains
remote-NoSlash = refl

abbrev client_reconciler : Reconciler
client_reconciler = record {
  features = record {
    external_cluster_reference = true;
    external_cluster_reference_cross_namespace = false;
    skip_infra_cluster_patch = false;
    dynamic_infrastructure_cluster_patch = false;
  };
  store = (reconcile_secret sample_managers sample_secret new_store []).1;
  kind_for = λ mgr. none;
  client = sample_client [] (ok tt) "patched";
}

reconciled : (reconcile_secret sample_managers sample_secret new_store []).0 ≡ none
unfolding reconcile_secret generate_key_name_from_secret key_names collect_keys load_managers
    load_manager start split lookup delete insert Store.get Store.stop Store.add
reconciled = refl

reconciled_secret_serves_example :
    (mgr : ℕ) × ((extract_remote_client client_reconciler
        (sample_control_plane [])
        sample_reference
        []).0
      ≡ ok mgr)
unfolding lookup
reconciled_secret_serves_example =
    reconciled_secret_serves client_reconciler (sample_control_plane []) sample_reference
      sample_managers sample_secret new_store [] [] _ refl reconciled (refl, inr refl) refl refl
      refl refl refl clusters-NoSlash remote-NoSlash refl (λ mgr. refl)

abbrev list_one : String → Result (List Secret)
list_one value = ok (under value (sample_secret ∷ []))

requests_for-reference_example :
    All
      (λ r. r ≡ referenced (sample_control_plane []) sample_reference)
      (requests_for list_one (sample_control_plane []))
    × (((requests_for list_one (sample_control_plane []) ≡ [])
          × ¬ Names (sample_control_plane []) sample_reference (sample_secret ∷ []))
        ⊎ ((requests_for list_one (sample_control_plane []) ≢ [])
            × Names (sample_control_plane []) sample_reference (sample_secret ∷ [])))
requests_for-reference_example =
    requests_for-reference list_one (sample_control_plane []) sample_reference clusters-NoSlash
      remote-NoSlash (sample_secret ∷ []) refl ((clusters-NoSlash, remote-NoSlash), tt) refl
