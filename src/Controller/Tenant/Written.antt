-- ===== src/Controller/Tenant/Written.antt =====
-- What the success of `createOrUpdateTenantControlPlane` says.
use cluster_api_control_plan.Prelude.{Option, none, ◌≡◌}
use cluster_api_control_plan.Errors.{Error}
use cluster_api_control_plan.Api.{Cluster, StewardControlPlane, TenantControlPlane}
use cluster_api_control_plan.Kube.{Trace}
use cluster_api_control_plan.Kube.Retry.{Retry}
use cluster_api_control_plan.Kube.Writer.{Applied, Writer}
use cluster_api_control_plan.Controller.Tenant.{RemoteClient, server_of}
use cluster_api_control_plan.Controller.Tenant.Mutation.{TenantLibrary, mutate}

module _ (l : TenantLibrary) (writer : Writer TenantControlPlane) (retry : Retry)
    (cluster : Cluster) (scp : StewardControlPlane) (remote : RemoteClient) where
  abbrev Anything : TenantControlPlane → Trace → Type 0
  Anything tcp t = Unit

  abbrev WasApplied : Option Error × TenantControlPlane × Trace → Type 0
  WasApplied r =
      r.0 ≡ none → Applied (writer.written (server_of remote)) (mutate l cluster scp remote) r.1
