-- ===== src/Ecr/Names.antt =====
-- pkg/externalclusterreference/name_generator.go. The functions that dereference
-- `Spec.Deployment.ExternalClusterReference` take the reference: every caller has tested it.
use Prim.Native.String.{◌++◌}
use cluster_api_control_plan.Prelude.{
  String, ◌≡◌, none, some, List, [], ◌∷◌, arith, ◌==◌, if◌then◌else◌,
}
use cluster_api_control_plan.Api.{
  ObjectMeta, Bytes, Secret, ExternalClusterReference, StewardControlPlane,
}
use cluster_api_control_plan.Strings.{has_prefix, trim_prefix}
use cluster_api_control_plan.Strings.Parts.{has_prefix-append, trim_prefix-append}

abbrev pub remote_tcp_prefix : String
remote_tcp_prefix = "kcp-"

-- The argument is the name of the TenantControlPlane.
unfoldable pub parse_steward_control_plane_uid_from_tenant_control_plane : String → String
parse_steward_control_plane_uid_from_tenant_control_plane name =
    if has_prefix name remote_tcp_prefix then trim_prefix name remote_tcp_prefix else ""

pub record RemoteNames : Type 0 where
  pub name : String
  pub namespace : String

unfoldable pub generate_remote_tenant_control_plane_names :
    StewardControlPlane → ExternalClusterReference → RemoteNames
generate_remote_tenant_control_plane_names kcp ecr = record {
  name = remote_tcp_prefix ++ kcp.meta.uid;
  namespace = ecr.deployment_namespace;
}

-- `namespace + "/" + name + "/" + key`
abbrev pub slashed : String → String → String → String
slashed namespace name key = namespace ++ ("/" ++ (name ++ ("/" ++ key)))

-- The loop over the map's keys, which Go visits in no fixed order.
unfoldable pub key_names : ObjectMeta → List (String × Bytes) → List String
key_names meta [] = []
key_names meta ((k, v) ∷ rest) = slashed meta.namespace meta.name k ∷ key_names meta rest

-- A `nil` map has no keys.
unfoldable pub generate_key_name_from_secret : Secret → List String
unfolding key_names
generate_key_name_from_secret secret = elim secret.contents [
  | none ↦ []
  | some entries ↦ key_names secret.meta entries
]

-- The namespace of the secret: the reference's own, or that of the control plane.
abbrev pub kubeconfig_namespace : StewardControlPlane → ExternalClusterReference → String
kubeconfig_namespace kcp ecr =
    if ecr.kubeconfig_secret_namespace == ""
    then kcp.meta.namespace
    else ecr.kubeconfig_secret_namespace

unfoldable pub generate_key_name_from_steward :
    StewardControlPlane → ExternalClusterReference → String
generate_key_name_from_steward kcp ecr =
    slashed (kubeconfig_namespace kcp ecr) ecr.kubeconfig_secret_name ecr.kubeconfig_secret_key

-- The UID that is read off the name of a remote TenantControlPlane is that of the StewardControlPlane
-- the name was made for.
pub parse-generate_remote_names :
    (kcp : StewardControlPlane) (ecr : ExternalClusterReference)
    → parse_steward_control_plane_uid_from_tenant_control_plane
        (generate_remote_tenant_control_plane_names kcp ecr).name
      ≡ kcp.meta.uid
unfolding parse_steward_control_plane_uid_from_tenant_control_plane
    generate_remote_tenant_control_plane_names
parse-generate_remote_names kcp ecr = ground (
  arith,
  has_prefix-append remote_tcp_prefix kcp.meta.uid,
  trim_prefix-append remote_tcp_prefix kcp.meta.uid,
)
