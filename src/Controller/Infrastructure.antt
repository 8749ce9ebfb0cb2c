-- ===== src/Controller/Infrastructure.antt =====
-- controllers/stewardcontrolplane_controller_cluster_patch.go and its errors: the endpoint is written
-- to the StewardControlPlane and to the infrastructure cluster, or compared with what is there.
pub mod Operations
pub mod Checks
pub mod Ports
pub mod Calls
pub mod Writes
use cluster_api_control_plan.Prelude.{
  String, Option, none, some, ◌∷◌, ◌==◌, true, false, if◌then◌else◌,
}
use cluster_api_control_plan.Prelude.Int.{ℤ, int32}
use cluster_api_control_plan.Errors.{Error, message, wrap, Result, ok, err}
use cluster_api_control_plan.Api.{ObjectReference, ApiEndpoint, Cluster, StewardControlPlane}
use cluster_api_control_plan.Kube.{patch_steward_control_plane, Trace, Exec, Client, lift}
use cluster_api_control_plan.Endpoint.{control_plane_endpoint}
use cluster_api_control_plan.Controller.Infrastructure.Operations.{
  Patcher, patch_generic_cluster, check_generic_cluster, check_or_patch_generic_cluster,
  patch_open_stack_cluster,
}

module _ (p : Patcher) (ref : ObjectReference) (endpoint : String) (port : ℤ) where
  -- The `switch` of `patchCluster`.
  unfoldable pub patch_by_kind : Exec (Unit {0})
  patch_by_kind =
      if ref.kind == "AWSCluster"
      then patch_generic_cluster p ref endpoint port false
      else if ref.kind == "AzureCluster"
      then patch_generic_cluster p ref endpoint port false
      else if ref.kind == "HetznerCluster"
      then patch_generic_cluster p ref endpoint port false
      else if ref.kind == "IonosCloudCluster"
      then patch_generic_cluster p ref endpoint port false
      else if ref.kind == "KubevirtCluster"
      then patch_generic_cluster p ref endpoint port true
      else if ref.kind == "Metal3Cluster"
      then check_generic_cluster p ref endpoint port
      else if ref.kind == "NutanixCluster"
      then patch_generic_cluster p ref endpoint port true
      else if ref.kind == "OpenStackCluster"
      then patch_open_stack_cluster p ref endpoint port
      else if ref.kind == "PacketCluster"
      then patch_generic_cluster p ref endpoint port true
      else if ref.kind == "ProxmoxCluster"
      then check_or_patch_generic_cluster p ref endpoint port
      else if ref.kind == "TinkerbellCluster"
      then check_or_patch_generic_cluster p ref endpoint port
      else if ref.kind == "VSphereCluster"
      then check_or_patch_generic_cluster p ref endpoint port
      else if p.is_dynamic ref.kind
      then patch_generic_cluster p ref endpoint port false
      else lift (err (message "unsupported infrastructure provider"))

unfoldable pub patch_cluster : Patcher → Cluster → StewardControlPlane → String → Exec (Unit {0})
patch_cluster p cluster control_plane host_port = elim cluster.infrastructure_ref [
  | none ↦ lift (err (message "capiv1beta1.Cluster has no InfrastructureRef"))
  | some ref ↦ elim (control_plane_endpoint control_plane host_port) [
    | err e ↦ lift (err (wrap "cannot retrieve ControlPlaneEndpoint" e))
    | ok e ↦ patch_by_kind p ref e.0 e.1
  ]
]

abbrev pub with_endpoint : StewardControlPlane → String → ℤ → StewardControlPlane
with_endpoint control_plane endpoint port = record control_plane {
  spec = record control_plane.spec {
    control_plane_endpoint = record { host = endpoint; port = int32 port };
  };
}

-- The error, and what `controlPlane` holds then.
unfoldable pub patch_control_plane_endpoint :
    Client → StewardControlPlane → String → Trace → Option Error × StewardControlPlane × Trace
patch_control_plane_endpoint client control_plane host_port trace =
    elim (control_plane_endpoint control_plane host_port) [
      | err e ↦ (some (wrap "cannot retrieve ControlPlaneEndpoint" e), control_plane, trace)
      | ok (endpoint, port) ↦
          let patched = with_endpoint control_plane endpoint port in
          let t = patch_steward_control_plane control_plane patched ∷ trace in
          elim (client.patched_steward_control_plane trace control_plane patched) [
            | ok new ↦ (none, new, t)
            | err e ↦ (
              some (wrap "cannot patch StewardControlPlane with ControlPlaneEndpoint" e),
              patched,
              t,
            )
          ]
    ]
