-- ===== src/Api/Tenant.antt =====
-- `stewardv1alpha1.TenantControlPlane`, as far as the controllers read or write it.
use cluster_api_control_plan.Prelude.{String, Option, List}
use cluster_api_control_plan.Prelude.Int.{ℤ}
use cluster_api_control_plan.Api.Meta.{Opaque, Labels, ObjectMeta}
use cluster_api_control_plan.Api.Spec.{StewardAddonsSpec}

-- The three components that have a field each, and kine where there is one.
pub record PerComponent {ℓ} (A : Type ℓ) : Type ℓ where
  pub controller_manager : A
  pub scheduler : A
  pub api_server : A

pub record RegistrySettings : Type 0 where
  pub registry : String
  pub images : PerComponent String

pub record DeploymentSpec : Type 0 where
  pub replicas : Option ℤ
  pub registry_settings : RegistrySettings
  pub additional_volume_mounts : Option (PerComponent (List Opaque))
  pub extra_args : Option (PerComponent (List String) × List String)
  pub resources : Option (PerComponent (Option Opaque) × Option Opaque)
  pub node_selector : Option Labels
  pub runtime_class_name : String
  pub service_account_name : String
  pub additional_metadata : Opaque
  pub pod_additional_metadata : Opaque
  pub strategy : Opaque
  pub affinity : Option Opaque
  pub tolerations : List Opaque
  pub topology_spread_constraints : List Opaque
  pub additional_init_containers : List Opaque
  pub additional_containers : List Opaque
  pub additional_volumes : List Opaque

pub record ServiceSpec : Type 0 where
  pub service_type : String
  pub labels : Option Labels
  pub annotations : Option Labels

pub record IngressSpec : Type 0 where
  pub labels : Option Labels
  pub annotations : Option Labels
  pub ingress_class_name : String
  pub hostname : String
  pub controller_type : String

pub record GatewaySpec : Type 0 where
  pub labels : Option Labels
  pub annotations : Option Labels
  pub gateway_parent_refs : List Opaque
  pub hostname : String

pub record NetworkProfile : Type 0 where
  pub port : ℤ
  pub service_cidr : String
  pub pod_cidr : String
  pub cluster_domain : String
  pub dns_service_ips : List String
  pub address : String
  pub cert_sans : List String
  pub load_balancer_class : Option String
  pub load_balancer_source_ranges : Option (List String)

pub record KubernetesSpec : Type 0 where
  pub version : String
  pub admission_controllers : Opaque
  pub kubelet : Opaque

pub record TenantControlPlaneSpec : Type 0 where
  pub data_store : String
  pub data_store_schema : String
  pub data_store_username : String
  pub addons : StewardAddonsSpec
  pub kubernetes : KubernetesSpec
  pub network_profile : NetworkProfile
  pub deployment : DeploymentSpec
  pub service : ServiceSpec
  pub ingress : Option IngressSpec
  pub gateway : Option GatewaySpec

-- `stewardv1alpha1.KubernetesVersionStatus`; the controllers tell two values from the others.
pub data VersionStatus : Type 0 where
  version_ready version_upgrading : VersionStatus
  version_other : String → VersionStatus

pub record TenantControlPlaneStatus : Type 0 where
  pub control_plane_endpoint : String
  pub version : String
  pub version_status : Option VersionStatus
  pub ready_replicas : ℤ
  pub replicas : ℤ
  pub unavailable_replicas : ℤ
  pub updated_replicas : ℤ
  pub admin_kubeconfig_secret_name : String
  pub ca_secret_name : String

pub record TenantControlPlane : Type 0 where
  pub meta : ObjectMeta
  pub spec : TenantControlPlaneSpec
  pub status : TenantControlPlaneStatus
