-- ===== src/Examples/Managers.antt =====
-- The managers of one secret's entry, and the events of one remote control plane.
use cluster_api_control_plan.Prelude.{String, true, false, none, List, [], ◌∷◌, ◌≡◌, refl, elem}
use cluster_api_control_plan.Errors.{Result, ok}
use cluster_api_control_plan.Api.{Key, StewardControlPlane, TenantControlPlane}
use cluster_api_control_plan.Ecr.Names.{
  generate_key_name_from_secret, generate_remote_tenant_control_plane_names,
}
use cluster_api_control_plan.Ecr.Store.{new_store}
use cluster_api_control_plan.Ecr.Store.Laws.{view}
use cluster_api_control_plan.Controller.External.{reconcile_secret}
use cluster_api_control_plan.Controller.External.Outcome.{in_use, Runs, reconcile_secret_managers}
use cluster_api_control_plan.Controller.External.Push.{events_of, push_steward_change, push_reaches}
use cluster_api_control_plan.Samples.Objects.{
  sample_secret, sample_control_plane, sample_reference, sample_tenant,
}
use cluster_api_control_plan.Samples.Parameters.{sample_managers}

reconcile_secret_managers_example :
    (elem "clusters/remote/value" (generate_key_name_from_secret sample_secret) ≡ false
      → view (reconcile_secret sample_managers sample_secret new_store []).1 "clusters/remote/value"
        ≡ view new_store "clusters/remote/value")
    × ((reconcile_secret sample_managers sample_secret new_store []).0 ≡ none
        → elem "clusters/remote/value" (generate_key_name_from_secret sample_secret) ≡ true
        → (in_use sample_managers "clusters/remote/value" ≡ true
            → Runs sample_managers sample_secret (
                view
                  (reconcile_secret sample_managers sample_secret new_store []).1
                  "clusters/remote/value"))
          × (in_use sample_managers "clusters/remote/value" ≡ false
              → view
                  (reconcile_secret sample_managers sample_secret new_store []).1
                  "clusters/remote/value"
                ≡ none))
reconcile_secret_managers_example =
    reconcile_secret_managers sample_managers sample_secret new_store [] "clusters/remote/value"

abbrev remote_tenant : Key → Result TenantControlPlane
remote_tenant key =
    ok (record sample_tenant { meta = record sample_tenant.meta { name = "kcp-uid-1" } })

abbrev listing : String → Result (List StewardControlPlane)
listing uid = ok (sample_control_plane [] ∷ [])

abbrev remote_request : Key
remote_request = record { namespace = "tenants"; name = "kcp-uid-1" }

remote_name :
    "kcp-uid-1"
    ≡ (generate_remote_tenant_control_plane_names (sample_control_plane []) sample_reference).name
unfolding generate_remote_tenant_control_plane_names
remote_name = refl

push_reaches_example :
    push_steward_change remote_tenant listing remote_request
    ≡ (none, events_of (sample_control_plane [] ∷ []))
push_reaches_example =
    push_reaches remote_tenant listing remote_request
      (record sample_tenant { meta = record sample_tenant.meta { name = "kcp-uid-1" } })
      (sample_control_plane []) sample_reference (sample_control_plane [] ∷ []) refl remote_name
      (λ e. cc) refl
