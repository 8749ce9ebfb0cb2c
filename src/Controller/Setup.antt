-- ===== src/Controller/Setup.antt =====
-- The `SetupWithManager` of the three controllers: what each is told to watch. The builder, the
-- client-set and the discovery of controller-runtime and client-go are parameters.
use cluster_api_control_plan.Prelude.{Bool, true, false, Option, none, some, List, [], ◌∷◌}
use cluster_api_control_plan.Prelude.Int.{ℤ}
use cluster_api_control_plan.Errors.{Error, wrap, Result, ok, err}
use cluster_api_control_plan.Api.{ObjectMeta}

pub data Kind : Type 0 where
  steward_control_planes secrets tenant_control_planes : Kind

-- `For`, with or without the predicate on the owner references, `Owns`, `Watches` with a mapping
-- function, and `WatchesRawSource` of the channel.
pub data Watch : Type 0 where
  watches_for watches_for_owned owns watches_mapped : Kind → Watch
  watches_channel : Watch

pub record Builder : Type 0 where
  pub watches : List Watch
  pub max_concurrent_reconciles : Option ℤ
  pub skips_paused : Bool
  pub skip_name_validation : Bool

-- The answers of the libraries; that of `Complete` may depend on the controllers which are there.
pub record Libraries : Type 0 where
  pub new_for_config : Option Error
  pub server_resources_for_group_version : Option Error
  pub complete : List Builder → Builder → Option Error

-- The predicate of `For`.
unfoldable pub has_owner_references : ObjectMeta → Bool
has_owner_references meta = elim meta.owner_references [ [] ↦ false | owner ∷ others ↦ true ]

abbrev pub owns_tenant_control_planes : Option Error → List Watch
owns_tenant_control_planes none = owns tenant_control_planes ∷ []
owns_tenant_control_planes (some rs_err) = []

abbrev pub steward_control_plane_builder : ℤ → Option Error → Builder
steward_control_plane_builder max rs_err = record {
  watches =
      watches_for_owned steward_control_planes
      ∷ owns secrets
      ∷ watches_channel
      ∷ owns_tenant_control_planes rs_err;
  max_concurrent_reconciles = some max;
  skips_paused = true;
  skip_name_validation = false;
}

abbrev pub external_cluster_reference_builder : Builder
external_cluster_reference_builder = record {
  watches = watches_for secrets ∷ watches_mapped steward_control_planes ∷ [];
  max_concurrent_reconciles = none;
  skips_paused = false;
  skip_name_validation = false;
}

abbrev pub push_steward_change_builder : Builder
push_steward_change_builder = record {
  watches = watches_for tenant_control_planes ∷ [];
  max_concurrent_reconciles = none;
  skips_paused = false;
  skip_name_validation = true;
}

module _ (l : Libraries) where
  abbrev pub complete : Builder → List Builder → Result (List Builder)
  complete b controllers = elim (l.complete controllers b) [
    | some e ↦ err e
    | none ↦ ok (b ∷ controllers)
  ]

  -- `SetupWithManager` of the StewardControlPlaneReconciler: it looks for the TenantControlPlanes in
  -- the management cluster only now.
  unfoldable pub setup_steward_control_plane : ℤ → List Builder → Result (List Builder)
  setup_steward_control_plane max controllers = elim l.new_for_config [
    | some e ↦ err (wrap "cannot create Kubernetes Client-set" e)
    | none ↦
        complete (steward_control_plane_builder max l.server_resources_for_group_version)
          controllers
  ]

  unfoldable pub setup_external_cluster_reference : List Builder → Result (List Builder)
  setup_external_cluster_reference controllers =
      complete external_cluster_reference_builder controllers

  unfoldable pub setup_push_steward_change : List Builder → Result (List Builder)
  setup_push_steward_change controllers = complete push_steward_change_builder controllers
