-- ===== src/Samples/Objects.antt =====
-- A control plane that is deployed to an external cluster, and the secret that it refers to.
use cluster_api_control_plan.Prelude.{String, none, some, List, [], ◌∷◌, false, true}
use cluster_api_control_plan.Prelude.Int.{pos}
use cluster_api_control_plan.Api.{
  ObjectMeta, ControlPlaneComponent, GatewayComponent, NetworkComponent, ExternalClusterReference,
  DeploymentComponent, StewardControlPlaneFields, StewardControlPlaneStatus, StewardControlPlane,
  bytes, Secret, ObjectReference, Cluster, TenantControlPlane, version_ready,
}

abbrev pub sample_meta : String → List String → ObjectMeta
sample_meta name finalizers = record {
  name = name;
  namespace = "clusters";
  uid = "uid-1";
  resource_version = "7";
  generation = 1;
  creation_timestamp = some 1;
  deletion_timestamp = none;
  labels = none;
  annotations = none;
  finalizers = finalizers;
  owner_references = [];
}

abbrev sample_component : ControlPlaneComponent
sample_component = record {
  extra_volume_mounts = [];
  extra_args = [];
  resources = "";
  container_image_name = "";
}

abbrev pub sample_gateway : GatewayComponent
sample_gateway = record {
  parent_refs = [];
  hostname = "api.example:4294967739";
  extra_labels = none;
  extra_annotations = none;
}

abbrev sample_network : NetworkComponent
sample_network = record {
  load_balancer_config = none;
  ingress = none;
  gateway = some sample_gateway;
  service_type = "LoadBalancer";
  service_address = "";
  service_labels = none;
  service_annotations = none;
  cert_sans = [];
  dns_service_ips = [];
}

abbrev pub sample_reference : ExternalClusterReference
sample_reference = record {
  kubeconfig_secret_name = "remote";
  kubeconfig_secret_key = "value";
  kubeconfig_secret_namespace = "";
  deployment_namespace = "tenants";
}

abbrev sample_deployment : DeploymentComponent
sample_deployment = record {
  node_selector = none;
  runtime_class_name = "";
  additional_metadata = "";
  pod_additional_metadata = "";
  service_account_name = "";
  strategy = "";
  affinity = none;
  tolerations = [];
  topology_spread_constraints = [];
  extra_init_containers = [];
  extra_containers = [];
  extra_volumes = [];
  external_cluster_reference = some sample_reference;
}

abbrev sample_fields : StewardControlPlaneFields
sample_fields = record {
  data_store_name = "default";
  data_store_schema = "";
  data_store_username = "";
  addons = record { addons_spec = record { core_dns = none; others = "" }; core_dns = none };
  admission_controllers = "";
  container_registry = "";
  controller_manager = sample_component;
  api_server = sample_component;
  scheduler = sample_component;
  kine = record { extra_args = []; resources = "" };
  kubelet = "";
  network = sample_network;
  deployment = sample_deployment;
}

abbrev sample_status : StewardControlPlaneStatus
sample_status = record {
  initialized = false;
  ready = false;
  ready_replicas = pos 0;
  replicas = pos 0;
  selector = "";
  unavailable_replicas = pos 0;
  updated_replicas = pos 0;
  external_managed_control_plane = none;
  failure_reason = "";
  failure_message = "";
  version = "";
  conditions = [];
}

abbrev pub sample_control_plane : List String → StewardControlPlane
sample_control_plane finalizers = record {
  meta = sample_meta "cp" finalizers;
  spec = record {
    fields = sample_fields;
    control_plane_endpoint = record { host = ""; port = pos 0 };
    replicas = some (pos 1);
    version = "v1.31.0";
  };
  status = sample_status;
}

abbrev pub sample_secret : Secret
sample_secret = record {
  meta = sample_meta "remote" [];
  contents = some (("value", bytes "kubeconfig") ∷ []);
  type = "Opaque";
}

abbrev pub sample_infrastructure : ObjectReference
sample_infrastructure = record {
  api_version = "v1";
  kind = "ProxmoxCluster";
  name = "px";
  namespace = "clusters";
}

abbrev pub sample_cluster : Cluster
sample_cluster = record {
  meta = sample_meta "cluster" [];
  paused = false;
  cluster_network = none;
  control_plane_endpoint = record { host = "10.0.0.1"; port = pos 6443 };
  infrastructure_ref = some sample_infrastructure;
  infrastructure_ready = true;
}

abbrev pub sample_tenant : TenantControlPlane
sample_tenant = record {
  meta = sample_meta "cp" [];
  spec = record {
    data_store = "";
    data_store_schema = "";
    data_store_username = "";
    addons = record { core_dns = none; others = "" };
    kubernetes = record { version = ""; admission_controllers = ""; kubelet = "" };
    network_profile = record {
      port = pos 6443;
      service_cidr = "";
      pod_cidr = "";
      cluster_domain = "";
      dns_service_ips = [];
      address = "";
      cert_sans = [];
      load_balancer_class = none;
      load_balancer_source_ranges = none;
    };
    deployment = record {
      replicas = none;
      registry_settings = record {
        registry = "";
        images = record { controller_manager = ""; scheduler = ""; api_server = "" };
      };
      additional_volume_mounts = none;
      extra_args = none;
      resources = none;
      node_selector = none;
      runtime_class_name = "";
      service_account_name = "";
      additional_metadata = "";
      pod_additional_metadata = "";
      strategy = "";
      affinity = none;
      tolerations = [];
      topology_spread_constraints = [];
      additional_init_containers = [];
      additional_containers = [];
      additional_volumes = [];
    };
    service = record { service_type = ""; labels = none; annotations = none };
    ingress = none;
    gateway = none;
  };
  status = record {
    control_plane_endpoint = "10.0.0.1:6443";
    version = "v1.31.0";
    version_status = some version_ready;
    ready_replicas = pos 1;
    replicas = pos 1;
    unavailable_replicas = pos 0;
    updated_replicas = pos 1;
    admin_kubeconfig_secret_name = "admin";
    ca_secret_name = "ca";
  };
}

-- A secret with a kubeconfig, a certificate and a key.
abbrev pub sample_steward_secret : Secret
sample_steward_secret = record {
  meta = sample_meta "admin" [];
  contents =
      some (
        ("admin.conf", bytes "kubeconfig")
        ∷ ("ca.crt", bytes "crt")
        ∷ ("ca.key", bytes "key")
        ∷ []);
  type = "Opaque";
}
