-- ===== src/Examples/Finalizers.antt =====
-- A reconciler whose store runs the manager of the referred cluster.
use cluster_api_control_plan.Prelude.{
  String, true, false, none, List, [], ◌∷◌, ◌≡◌, ◌⊎◌, refl, ◌↔◌, elem, All, lookup,
}
use cluster_api_control_plan.Errors.{not_found, is_not_found, Result, ok, err}
use cluster_api_control_plan.Kube.{external, management, get_secret, delete_tenant_control_plane}
use cluster_api_control_plan.Ecr.Names.{generate_key_name_from_steward}
use cluster_api_control_plan.Ecr.Store.{get}
use cluster_api_control_plan.Controller.Remote.{
  Reconciler, gate, manager_for, secret_key, extract_remote_client,
}
use cluster_api_control_plan.Controller.Remote.Laws.{
  IsAllowed, IsReady, extract_remote_client_reads, extract_remote_client_iff,
}
use cluster_api_control_plan.Controller.Finalizer.{
  external_cluster_reference_finalizer, handle_finalizer, handle_deletion, remote_key,
}
use cluster_api_control_plan.Controller.Finalizer.Setting.{
  Carries, EndsInUpdate, handle_finalizer_lem,
}
use cluster_api_control_plan.Controller.Finalizer.Deletion.{
  IsOrdered, handle_deletion-IsOrdered, already_deleted_keeps_finalizer,
}
use cluster_api_control_plan.Samples.Objects.{sample_control_plane, sample_reference}
use cluster_api_control_plan.Samples.Parameters.{
  list_sets, list_sets_laws, single_run, sample_client,
}

abbrev reconciler : Result (Unit {0}) → Reconciler
reconciler deleted = record {
  features = record {
    external_cluster_reference = true;
    external_cluster_reference_cross_namespace = false;
    skip_infra_cluster_patch = false;
    dynamic_infrastructure_cluster_patch = false;
  };
  store = record {
    store =
        ("clusters/remote/value", record { resource_version = "7"; manager = 0; stop_func = 3 })
        ∷ [];
    stopped = [];
  };
  kind_for = λ mgr. none;
  client = sample_client (external_cluster_reference_finalizer ∷ "other" ∷ []) deleted "patched";
}

abbrev finalized : List String
finalized = external_cluster_reference_finalizer ∷ []

extract_remote_client_iff_example :
    ((extract_remote_client (reconciler (ok tt)) (sample_control_plane []) sample_reference []).0
      ≡ ok 0)
    ↔ IsReady (reconciler (ok tt)) (sample_control_plane []) sample_reference [] 0
extract_remote_client_iff_example =
    extract_remote_client_iff (reconciler (ok tt)) (sample_control_plane []) sample_reference [] 0

extract_remote_client_reads_example :
    ((extract_remote_client (reconciler (ok tt)) (sample_control_plane []) sample_reference []).1
      ≡ [])
    ⊎ (((extract_remote_client (reconciler (ok tt)) (sample_control_plane []) sample_reference []).1
          ≡ get_secret management
              (secret_key (reconciler (ok tt)) (sample_control_plane []) sample_reference)
            ∷ [])
        × IsAllowed (reconciler (ok tt)).features (sample_control_plane []) sample_reference)
extract_remote_client_reads_example =
    extract_remote_client_reads (reconciler (ok tt)) (sample_control_plane []) sample_reference []

handle_finalizer_lem_example :
    All
      (Carries ("other" ∷ []))
      (handle_finalizer
        (reconciler (ok tt))
        list_sets
        single_run
        (sample_control_plane ("other" ∷ []))
        []).2
    × ((handle_finalizer
            (reconciler (ok tt))
            list_sets
            single_run
            (sample_control_plane ("other" ∷ []))
            []).0
          ≡ none
        → ((elem external_cluster_reference_finalizer ("other" ∷ []) ≡ true)
            ⊎ EndsInUpdate
                (reconciler (ok tt)).client
                (handle_finalizer
                  (reconciler (ok tt))
                  list_sets
                  single_run
                  (sample_control_plane ("other" ∷ []))
                  []).2))
handle_finalizer_lem_example =
    handle_finalizer_lem (reconciler (ok tt)) list_sets list_sets_laws single_run
      (sample_control_plane ("other" ∷ [])) [] tt

handle_deletion-IsOrdered_example :
    IsOrdered
      (reconciler (ok tt))
      (sample_control_plane finalized)
      (handle_deletion
        (reconciler (ok tt))
        list_sets
        single_run
        (sample_control_plane finalized)
        []).1
handle_deletion-IsOrdered_example =
    handle_deletion-IsOrdered (reconciler (ok tt)) list_sets list_sets_laws single_run
      (sample_control_plane finalized) [] tt

extracted :
    extract_remote_client
      (reconciler (err (not_found "gone")))
      (sample_control_plane finalized)
      sample_reference
      []
    ≡ (
      ok 0,
      get_secret management
            (secret_key (reconciler (ok tt)) (sample_control_plane finalized) sample_reference)
          ∷ [],
    )
unfolding extract_remote_client gate manager_for generate_key_name_from_steward get lookup
extracted = refl

already_deleted_keeps_finalizer_example :
    handle_deletion
      (reconciler (err (not_found "gone")))
      list_sets
      single_run
      (sample_control_plane finalized)
      []
    ≡ (
      none,
      delete_tenant_control_plane
            (external 0)
            (remote_key (sample_control_plane finalized) sample_reference)
          ∷ get_secret management
              (secret_key (reconciler (ok tt)) (sample_control_plane finalized) sample_reference)
          ∷ [],
    )
unfolding is_not_found
already_deleted_keeps_finalizer_example =
    already_deleted_keeps_finalizer (reconciler (err (not_found "gone"))) list_sets list_sets_laws
      single_run (sample_control_plane finalized) sample_reference [] _ 0 (not_found "gone") refl
      refl extracted refl refl
