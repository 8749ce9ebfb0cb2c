-- ===== src/Examples/References.antt =====
-- The names, the indexes and the store for one external cluster.
use cluster_api_control_plan.Prelude.{true, not, List, [], ◌∷◌, ◌≡◌, refl, ◌↔◌, elem}
use cluster_api_control_plan.Net.{contains}
use cluster_api_control_plan.Ecr.Names.{
  generate_key_name_from_secret, generate_key_name_from_steward, kubeconfig_namespace,
  parse_steward_control_plane_uid_from_tenant_control_plane,
  generate_remote_tenant_control_plane_names, parse-generate_remote_names,
}
use cluster_api_control_plan.Ecr.Keys.{NoSlash, key_in, entries, mem-generate_key_name_from_secret}
use cluster_api_control_plan.Ecr.Store.{new_store, get, stop, add}
use cluster_api_control_plan.Ecr.Store.Calls.{Op, adding, stopping, run}
use cluster_api_control_plan.Ecr.Store.Refinement.{empty, is_present, answer, run_on, store_refines}
use cluster_api_control_plan.Samples.Objects.{sample_control_plane, sample_reference, sample_secret}

parse-generate_remote_names_example :
    parse_steward_control_plane_uid_from_tenant_control_plane
      (generate_remote_tenant_control_plane_names (sample_control_plane []) sample_reference).name
    ≡ "uid-1"
parse-generate_remote_names_example =
    parse-generate_remote_names (sample_control_plane []) sample_reference

clusters-NoSlash : NoSlash "clusters"
unfolding contains
clusters-NoSlash = refl

remote-NoSlash : NoSlash "remote"
unfolding contains
remote-NoSlash = refl

mem-generate_key_name_from_secret_example :
    (elem
        (generate_key_name_from_steward (sample_control_plane []) sample_reference)
        (generate_key_name_from_secret sample_secret)
      ≡ true)
    ↔ (("clusters" ≡ kubeconfig_namespace (sample_control_plane []) sample_reference)
        × (sample_secret.meta.name ≡ "remote")
        × (key_in "value" (entries sample_secret) ≡ true))
mem-generate_key_name_from_secret_example =
    mem-generate_key_name_from_secret sample_secret (sample_control_plane []) sample_reference
      clusters-NoSlash remote-NoSlash clusters-NoSlash remote-NoSlash

abbrev restarted : List Op
restarted = adding "k" "7" 0 3 ∷ stopping "k" ∷ adding "k" "8" 1 4 ∷ []

store_refines_example :
    (get (run new_store restarted) "k" "8" ≡ answer (run_on empty restarted "k") "8")
    × ((stop (run new_store restarted) "k").0 ≡ is_present (run_on empty restarted "k"))
    × ((add (run new_store restarted) "k" "8" 2 5).0
        ≡ not (is_present (run_on empty restarted "k")))
store_refines_example = store_refines restarted "k" "8" 2 5
