-- ===== src/Api/Template.antt =====
-- api/v1alpha1/stewardcontrolplanetemplate_types.go, and the lists of both kinds.
use cluster_api_control_plan.Prelude.{Option, List}
use cluster_api_control_plan.Api.Meta.{Labels, ObjectMeta}
use cluster_api_control_plan.Api.Spec.{StewardControlPlaneFields}
use cluster_api_control_plan.Api.Objects.{StewardControlPlane}

-- `clusterv1.ObjectMeta`
pub record TemplateMeta : Type 0 where
  pub labels : Option Labels
  pub annotations : Option Labels

pub record StewardControlPlaneTemplateResource : Type 0 where
  pub meta : TemplateMeta
  pub spec : StewardControlPlaneFields

pub record StewardControlPlaneTemplateSpec : Type 0 where
  pub template : StewardControlPlaneTemplateResource

pub record StewardControlPlaneTemplate : Type 0 where
  pub meta : ObjectMeta
  pub spec : StewardControlPlaneTemplateSpec

pub record StewardControlPlaneTemplateList : Type 0 where
  pub items : List StewardControlPlaneTemplate

pub record StewardControlPlaneList : Type 0 where
  pub items : List StewardControlPlane
