-- ===== src/Controller/Tenant.antt =====
-- controllers/stewardcontrolplane_controller_tcp.go: the TenantControlPlane that a StewardControlPlane
-- asks for.
pub mod Mutation
pub mod Annotations
pub mod Names
pub mod Settling
pub mod Repeated
pub mod Written
use Prim.Native.String.{◌++◌}
use cluster_api_control_plan.Prelude.{ℕ, String, Bool, true, false, Option, none, some}
use cluster_api_control_plan.Errors.{Error, message, wrap, Result, ok, err}
use cluster_api_control_plan.Api.{
  Key, Cluster, StewardControlPlane, ExternalClusterReference, TenantControlPlane,
}
use cluster_api_control_plan.Kube.{Server, management, external, Trace}
use cluster_api_control_plan.Kube.Retry.{Body, Retry}
use cluster_api_control_plan.Kube.Writer.{Writer}
use cluster_api_control_plan.Ecr.Names.{RemoteNames, generate_remote_tenant_control_plane_names}
use cluster_api_control_plan.Controller.Tenant.Mutation.{TenantLibrary, mutate}

-- The remote client: a manager's handle; `none` is nil.
abbrev pub RemoteClient : Type 0
RemoteClient = Option ℕ

abbrev pub server_of : RemoteClient → Server
server_of none = management
server_of (some mgr) = external mgr

abbrev named : RemoteNames → TenantControlPlane → TenantControlPlane
named names tcp = record tcp {
  meta = record tcp.meta { name = names.name; namespace = names.namespace };
}

-- The names of the remote object are those of the object as it is now, whose reference the code
-- dereferences: where that is nil, it panics, before any call.
abbrev pub dereferences_nil : RemoteClient → StewardControlPlane → Bool
dereferences_nil none scp = false
dereferences_nil (some mgr) scp = elim scp.spec.fields.deployment.external_cluster_reference [
  | none ↦ true
  | some ecr ↦ false
]

abbrev pub nil_reference : Error
nil_reference = message "panic: invalid memory address or nil pointer dereference"

-- `Reconcile` does not get here with a nil reference: Reconcile/Stages ends in the panic before.
abbrev pub target :
    StewardControlPlane → RemoteClient → TenantControlPlane → Result TenantControlPlane
target scp none tcp = ok tcp
target scp (some mgr) tcp = elim scp.spec.fields.deployment.external_cluster_reference [
  | none ↦ err nil_reference
  | some ecr ↦ ok (named (generate_remote_tenant_control_plane_names scp ecr) tcp)
]

-- `new_tenant_control_plane` is the zero value with the name and the namespace of the
-- StewardControlPlane.
module _ (l : TenantLibrary) (writer : Writer TenantControlPlane) (retry : Retry)
    (cluster : Cluster) (scp : StewardControlPlane) (remote : RemoteClient) where
  -- The function that is retried, over the captured `tcp`.
  unfoldable pub write_tenant : Body TenantControlPlane
  write_tenant tcp trace = elim (target scp remote tcp) [
    | err e ↦ (some e, tcp, trace)
    | ok tcp' ↦ writer.create_or_update (server_of remote) (mutate l cluster scp remote) tcp' trace
  ]

  unfoldable pub create_or_update_tenant_control_plane :
      TenantControlPlane → Trace → Result TenantControlPlane × Trace
  create_or_update_tenant_control_plane new_tenant_control_plane trace =
      let (e, tcp, t) =
        retry.retry_on_conflict TenantControlPlane write_tenant new_tenant_control_plane trace in
      elim e [
        | none ↦ (ok tcp, t)
        | some x ↦ (err (wrap "cannot create or update TenantControlPlane" x), t)
      ]
