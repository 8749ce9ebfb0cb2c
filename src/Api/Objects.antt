-- ===== src/Api/Objects.antt =====
-- The objects that the controllers exchange with the API server: the StewardControlPlane with its
-- status (api/v1alpha1), and the third-party kinds as far as they are read or written.
use cluster_api_control_plan.Prelude.{ℕ, String, Bool, Option, List}
use cluster_api_control_plan.Prelude.Int.{ℤ}
use cluster_api_control_plan.Api.Meta.{ObjectMeta}
use cluster_api_control_plan.Api.Spec.{StewardControlPlaneSpec, ApiEndpoint}

-- `metav1.ConditionStatus`; `unset` is the empty text of a new condition.
pub data ConditionStatus : Type 0 where
  is_true is_false is_unknown unset : ConditionStatus

-- `metav1.Condition`
pub record Condition : Type 0 where
  pub type : String
  pub status : ConditionStatus
  pub observed_generation : ℕ
  pub last_transition_time : Option ℕ
  pub reason : String
  pub message : String

pub record StewardControlPlaneStatus : Type 0 where
  pub initialized : Bool
  pub ready : Bool
  pub ready_replicas : ℤ
  pub replicas : ℤ
  pub selector : String
  pub unavailable_replicas : ℤ
  pub updated_replicas : ℤ
  pub external_managed_control_plane : Option Bool
  pub failure_reason : String
  pub failure_message : String
  pub version : String
  pub conditions : List Condition

pub record StewardControlPlane : Type 0 where
  pub meta : ObjectMeta
  pub spec : StewardControlPlaneSpec
  pub status : StewardControlPlaneStatus

-- `[]byte`
pub data Bytes : Type 0 where
  no_bytes : Bytes
  bytes : String → Bytes

-- `corev1.Secret`
pub record Secret : Type 0 where
  pub meta : ObjectMeta
  pub contents : Option (List (String × Bytes))
  pub type : String

-- `corev1.ObjectReference`, as in `spec.infrastructureRef`
pub record ObjectReference : Type 0 where
  pub api_version : String
  pub kind : String
  pub name : String
  pub namespace : String

-- `capiv1beta1.ClusterNetwork`
pub record ClusterNetwork : Type 0 where
  pub api_server_port : Option ℤ
  pub services : Option (List String)
  pub pods : Option (List String)
  pub service_domain : String

-- `capiv1beta1.Cluster`
pub record Cluster : Type 0 where
  pub meta : ObjectMeta
  pub paused : Bool
  pub cluster_network : Option ClusterNetwork
  pub control_plane_endpoint : ApiEndpoint
  pub infrastructure_ref : Option ObjectReference
  pub infrastructure_ready : Bool
