-- ===== src/Controller/Tenant/Mutation/Fields.antt =====
-- The fields of the TenantControlPlane's specification, each from those of the StewardControlPlane.
use Prim.Native.String.{◌++◌}
use cluster_api_control_plan.Prelude.{
  String, Option, none, some, List, [], ◌∷◌, ◌==◌, append, if◌then◌else◌,
}
use cluster_api_control_plan.Prelude.Int.{ℤ}
use cluster_api_control_plan.Errors.{sentinel, unsupported_certificate_san, wrap, Result, ok, err}
use cluster_api_control_plan.Net.{host_port, addr_error, split_host_port}
use cluster_api_control_plan.Strings.{has_prefix}
use cluster_api_control_plan.Api.{
  Opaque, ObjectMeta, Cluster, ClusterNetwork, StewardControlPlane, StewardControlPlaneFields,
  NetworkComponent, IngressComponent, GatewayComponent, LoadBalancerConfig, StewardAddonsSpec,
  AddonsSpec, DeploymentSpec, IngressSpec, GatewaySpec, NetworkProfile,
}

-- Names and values of the libraries that the function uses: the two annotations, the zero value of an
-- addon, and `SetControllerReference`.
pub record TenantLibrary : Type 0 where
  pub last_applied_config_annotation : String
  pub kubeconfig_secret_key_annotation : String
  pub empty_addon_spec : Opaque
  pub set_controller_reference : StewardControlPlane → ObjectMeta → Result ObjectMeta

abbrev pub first_or : Option (List String) → String → String
first_or none old = old
first_or (some []) old = old
first_or (some (c ∷ cs)) old = c

abbrev pub or_old {ℓ} : {A : Type ℓ} → Option A → A → A
or_old none old = old
or_old (some a) old = a

-- `if cluster.Spec.ClusterNetwork != nil { … }`
abbrev pub with_cluster_network : Option ClusterNetwork → NetworkProfile → NetworkProfile
with_cluster_network none p = p
with_cluster_network (some n) p = record p {
  port = or_old n.api_server_port p.port;
  service_cidr = first_or n.services p.service_cidr;
  pod_cidr = first_or n.pods p.pod_cidr;
  cluster_domain = n.service_domain;
}

unfoldable pub version_of : String → String
version_of version = if has_prefix version "v" then version else "v" ++ version

-- The CoreDNS override.
abbrev pub dns_service_ips_of : StewardControlPlaneFields → List String
dns_service_ips_of f = elim f.addons.core_dns [
  | none ↦ f.network.dns_service_ips
  | some c ↦ c.dns_service_ips
]

abbrev pub addons_of : TenantLibrary → AddonsSpec → StewardAddonsSpec
addons_of l a = elim a.core_dns [
  | none ↦ a.addons_spec
  | some c ↦ record a.addons_spec { core_dns = some (or_old c.addon_spec l.empty_addon_spec) }
]

-- The loop over `CertSANs`: the first entry with a port.
unfoldable pub check_cert_sans : List String → Result (Unit {0})
check_cert_sans [] = ok tt
check_cert_sans (i ∷ rest) =
    let checked = check_cert_sans rest in
    elim (split_host_port i) [
      | host_port host port ↦
          err (wrap ("entry " ++ (i ++ " is invalid")) (sentinel unsupported_certificate_san))
      | addr_error e ↦ checked
    ]

-- The FQDN of a hostname, with or without a port.
abbrev pub fqdn : String → String
fqdn hostname = elim (split_host_port hostname) [
  | host_port host port ↦ host
  | addr_error e ↦ hostname
]

abbrev pub ingress_sans : Option IngressComponent → List String
ingress_sans none = []
ingress_sans (some i) = fqdn i.hostname ∷ []

abbrev pub gateway_sans : Option GatewayComponent → List String
gateway_sans none = []
gateway_sans (some g) = fqdn g.hostname ∷ []

abbrev pub cert_sans_of : NetworkComponent → List String
cert_sans_of n = append (append n.cert_sans (ingress_sans n.ingress)) (gateway_sans n.gateway)

abbrev pub ingress_of : Option IngressComponent → Option IngressSpec
ingress_of none = none
ingress_of (some i) = some (record {
  labels = i.extra_labels;
  annotations = i.extra_annotations;
  ingress_class_name = i.class_name;
  hostname = i.hostname;
  controller_type = i.controller_type;
})

abbrev pub gateway_of : Option GatewayComponent → Option GatewaySpec
gateway_of none = none
gateway_of (some g) = some (record {
  labels = g.extra_labels;
  annotations = g.extra_annotations;
  gateway_parent_refs = g.parent_refs;
  hostname = g.hostname;
})

abbrev pub or_kept {ℓ} : {A : Type ℓ} → Option A → Option A → Option A
or_kept none old = old
or_kept (some a) old = some a

-- `if scp.Spec.Network.LoadBalancerConfig != nil { … }`
abbrev pub with_load_balancer : Option LoadBalancerConfig → NetworkProfile → NetworkProfile
with_load_balancer none p = p
with_load_balancer (some c) p = record p {
  load_balancer_class = or_kept c.load_balancer_class p.load_balancer_class;
  load_balancer_source_ranges = or_kept c.load_balancer_source_ranges p.load_balancer_source_ranges;
}

abbrev pub network_profile_of :
    Cluster → StewardControlPlaneFields → NetworkProfile → NetworkProfile
network_profile_of cluster f p =
    with_load_balancer f.network.load_balancer_config
      (record (with_cluster_network cluster.cluster_network p) {
        dns_service_ips = dns_service_ips_of f;
        address = f.network.service_address;
        cert_sans = cert_sans_of f.network;
      })

abbrev pub deployment_of : Option ℤ → StewardControlPlaneFields → DeploymentSpec
deployment_of replicas f = record {
  replicas = replicas;
  registry_settings = record {
    registry = f.container_registry;
    images = record {
      controller_manager = f.controller_manager.container_image_name;
      scheduler = f.scheduler.container_image_name;
      api_server = f.api_server.container_image_name;
    };
  };
  additional_volume_mounts = some (record {
    controller_manager = f.controller_manager.extra_volume_mounts;
    scheduler = f.scheduler.extra_volume_mounts;
    api_server = f.api_server.extra_volume_mounts;
  });
  extra_args = some (
    record {
      controller_manager = f.controller_manager.extra_args;
      scheduler = f.scheduler.extra_args;
      api_server = f.api_server.extra_args;
    },
    f.kine.extra_args,
  );
  resources = some (
    record {
      controller_manager = some f.controller_manager.resources;
      scheduler = some f.scheduler.resources;
      api_server = some f.api_server.resources;
    },
    some f.kine.resources,
  );
  node_selector = f.deployment.node_selector;
  runtime_class_name = f.deployment.runtime_class_name;
  service_account_name = f.deployment.service_account_name;
  additional_metadata = f.deployment.additional_metadata;
  pod_additional_metadata = f.deployment.pod_additional_metadata;
  strategy = f.deployment.strategy;
  affinity = f.deployment.affinity;
  tolerations = f.deployment.tolerations;
  topology_spread_constraints = f.deployment.topology_spread_constraints;
  additional_init_containers = f.deployment.extra_init_containers;
  additional_containers = f.deployment.extra_containers;
  additional_volumes = f.deployment.extra_volumes;
}

abbrev pub unless_empty : String → String → String
unless_empty new old = if new == "" then old else new
