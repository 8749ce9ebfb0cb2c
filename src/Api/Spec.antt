-- ===== src/Api/Spec.antt =====
-- api/v1alpha1/stewardcontrolplane_types.go: the desired state.
use cluster_api_control_plan.Prelude.{String, Option, List}
use cluster_api_control_plan.Prelude.Int.{ℤ}
use cluster_api_control_plan.Api.Meta.{Opaque, Labels}

pub record ControlPlaneComponent : Type 0 where
  pub extra_volume_mounts : List Opaque
  pub extra_args : List String
  pub resources : Opaque
  pub container_image_name : String

pub record KineComponent : Type 0 where
  pub extra_args : List String
  pub resources : Opaque

pub record IngressComponent : Type 0 where
  pub class_name : String
  pub hostname : String
  pub controller_type : String
  pub extra_labels : Option Labels
  pub extra_annotations : Option Labels

pub record GatewayComponent : Type 0 where
  pub parent_refs : List Opaque
  pub hostname : String
  pub extra_labels : Option Labels
  pub extra_annotations : Option Labels

pub record LoadBalancerConfig : Type 0 where
  pub load_balancer_source_ranges : Option (List String)
  pub load_balancer_class : Option String

pub record NetworkComponent : Type 0 where
  pub load_balancer_config : Option LoadBalancerConfig
  pub ingress : Option IngressComponent
  pub gateway : Option GatewayComponent
  pub service_type : String
  pub service_address : String
  pub service_labels : Option Labels
  pub service_annotations : Option Labels
  pub cert_sans : List String
  pub dns_service_ips : List String

pub record CoreDnsAddonSpec : Type 0 where
  pub addon_spec : Option Opaque
  pub dns_service_ips : List String

-- The embedded `stewardv1alpha1.AddonsSpec`: its CoreDNS entry, and the rest.
pub record StewardAddonsSpec : Type 0 where
  pub core_dns : Option Opaque
  pub others : Opaque

pub record AddonsSpec : Type 0 where
  pub addons_spec : StewardAddonsSpec
  pub core_dns : Option CoreDnsAddonSpec

pub record ExternalClusterReference : Type 0 where
  pub kubeconfig_secret_name : String
  pub kubeconfig_secret_key : String
  pub kubeconfig_secret_namespace : String
  pub deployment_namespace : String

pub record DeploymentComponent : Type 0 where
  pub node_selector : Option Labels
  pub runtime_class_name : String
  pub additional_metadata : Opaque
  pub pod_additional_metadata : Opaque
  pub service_account_name : String
  pub strategy : Opaque
  pub affinity : Option Opaque
  pub tolerations : List Opaque
  pub topology_spread_constraints : List Opaque
  pub extra_init_containers : List Opaque
  pub extra_containers : List Opaque
  pub extra_volumes : List Opaque
  pub external_cluster_reference : Option ExternalClusterReference

pub record StewardControlPlaneFields : Type 0 where
  pub data_store_name : String
  pub data_store_schema : String
  pub data_store_username : String
  pub addons : AddonsSpec
  pub admission_controllers : Opaque
  pub container_registry : String
  pub controller_manager : ControlPlaneComponent
  pub api_server : ControlPlaneComponent
  pub scheduler : ControlPlaneComponent
  pub kine : KineComponent
  pub kubelet : Opaque
  pub network : NetworkComponent
  pub deployment : DeploymentComponent

-- `capiv1beta1.APIEndpoint`
pub record ApiEndpoint : Type 0 where
  pub host : String
  pub port : ℤ

pub record StewardControlPlaneSpec : Type 0 where
  pub fields : StewardControlPlaneFields
  pub open fields use *
  pub control_plane_endpoint : ApiEndpoint
  pub replicas : Option ℤ
  pub version : String
