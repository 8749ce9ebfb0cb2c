-- ===== src/Controller/Features.antt =====
-- pkg/features/features.go and the options of the reconciler: `FeatureGates.Enabled` at the four
-- gates.
use cluster_api_control_plan.Prelude.{Bool}

pub record Features : Type 0 where
  pub external_cluster_reference : Bool
  pub external_cluster_reference_cross_namespace : Bool
  pub skip_infra_cluster_patch : Bool
  pub dynamic_infrastructure_cluster_patch : Bool
