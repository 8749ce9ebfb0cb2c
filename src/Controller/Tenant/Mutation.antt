-- ===== src/Controller/Tenant/Mutation.antt =====
-- The function that `createOrUpdateTenantControlPlane` passes to `CreateOrUpdate`: what it makes of the
-- TenantControlPlane that is stored.
mod Fields
unfoldable pub use Fields.*
use Prim.Native.String.{◌++◌}
use cluster_api_control_plan.Prelude.{
  ℕ, String, Option, none, some, List, [], ◌∷◌, ◌==◌, append, lookup, delete, insert, if◌then◌else◌,
}
use cluster_api_control_plan.Prelude.Int.{ℤ}
use cluster_api_control_plan.Errors.{
  sentinel, unsupported_certificate_san, wrap, Result, ok, err, ◌>>=◌,
}
use cluster_api_control_plan.Net.{host_port, addr_error, split_host_port}
use cluster_api_control_plan.Strings.{has_prefix}
use cluster_api_control_plan.Api.{
  Opaque, Labels, ObjectMeta, Cluster, ClusterNetwork, StewardControlPlane,
  StewardControlPlaneFields, NetworkComponent, IngressComponent, GatewayComponent,
  LoadBalancerConfig, StewardAddonsSpec, AddonsSpec, DeploymentSpec, IngressSpec, GatewaySpec,
  NetworkProfile, TenantControlPlaneSpec, TenantControlPlane,
}

-- A `nil` map is read as an empty one.
abbrev pub or_empty : Option Labels → Labels
or_empty none = []
or_empty (some m) = m

-- `m[k]`, where a missing key gives the empty text.
abbrev pub value_at : String → Labels → String
value_at k m = elim (lookup k m) [ none ↦ "" | some v ↦ v ]

module _ (l : TenantLibrary) where
  -- The loop over the annotations of the StewardControlPlane.
  unfoldable pub copy_annotations : Labels → Labels → Labels
  copy_annotations [] target = target
  copy_annotations ((k, v) ∷ rest) target =
      let skipped = copy_annotations rest target in
      let copied = copy_annotations rest (insert k v target) in
      if k == l.last_applied_config_annotation then skipped else copied

  unfoldable pub annotations_of : Option Labels → Option Labels → Labels
  annotations_of source target =
      let m = copy_annotations (or_empty source) (or_empty target) in
      let key = value_at l.kubeconfig_secret_key_annotation (or_empty source) in
      if key == ""
      then delete l.kubeconfig_secret_key_annotation m
      else insert l.kubeconfig_secret_key_annotation key m

-- The assignments to `tcp.Spec`.
unfoldable pub spec_of :
    TenantLibrary → Cluster → StewardControlPlane → TenantControlPlaneSpec → TenantControlPlaneSpec
spec_of l cluster scp s =
    let f = scp.spec.fields in
    record {
      data_store = f.data_store_name;
      data_store_schema = unless_empty f.data_store_schema s.data_store_schema;
      data_store_username = unless_empty f.data_store_username s.data_store_username;
      addons = addons_of l f.addons;
      kubernetes = record {
        version = version_of scp.spec.version;
        admission_controllers = f.admission_controllers;
        kubelet = f.kubelet;
      };
      network_profile = network_profile_of cluster f s.network_profile;
      deployment = deployment_of scp.spec.replicas f;
      service = record {
        service_type = f.network.service_type;
        labels = f.network.service_labels;
        annotations = f.network.service_annotations;
      };
      ingress = ingress_of f.network.ingress;
      gateway = gateway_of f.network.gateway;
    }

-- The owner is set where the object lies in the management cluster.
abbrev pub with_owner :
    TenantLibrary → StewardControlPlane → Option ℕ → ObjectMeta → Result ObjectMeta
with_owner l scp none meta = l.set_controller_reference scp meta
with_owner l scp (some _) meta = ok meta

-- The annotations and the labels.
abbrev pub meta_of : TenantLibrary → StewardControlPlane → ObjectMeta → ObjectMeta
meta_of l scp meta = record meta {
  annotations = some (annotations_of l scp.meta.annotations meta.annotations);
  labels = scp.meta.labels;
}

unfoldable pub mutate :
    TenantLibrary
    → Cluster
    → StewardControlPlane
    → Option ℕ
    → TenantControlPlane
    → Result TenantControlPlane
mutate l cluster scp remote tcp = do
  checked ← check_cert_sans scp.spec.fields.network.cert_sans
  meta ← with_owner l scp remote (meta_of l scp tcp.meta)
  ok (record tcp { meta = meta; spec = spec_of l cluster scp tcp.spec })
