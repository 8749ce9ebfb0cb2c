-- ===== src/Controller/Secrets.antt =====
-- controllers/stewardcontrolplane_controller_resources.go: the secrets of the workload cluster that
-- Cluster API expects, made from those of the TenantControlPlane.
pub mod Mutations
pub mod Contents
pub mod Contract
use Prim.Native.String.{◌++◌}
use cluster_api_control_plan.Prelude.{String, Option, none, some, List, ◌==◌, if◌then◌else◌}
use cluster_api_control_plan.Errors.{Error, wrap, sentinel, enqueue_back, Result, ok, err, wrapped}
use cluster_api_control_plan.Api.{Key, Secret, Cluster, StewardControlPlane, TenantControlPlane}
use cluster_api_control_plan.Kube.{
  Server, management, get_secret, Trace, Exec, Client, request, ◌>>=◌, ◌>>◌, lift,
}
use cluster_api_control_plan.Kube.Retry.{Retry}
use cluster_api_control_plan.Kube.Writer.{Writer}
use cluster_api_control_plan.Controller.Secrets.Mutations.{
  SecretLibrary, new_secret, mutate_certificate_authority, mutate_kubeconfig,
}

abbrev error_to_exec : String → Option Error → Result (Unit {0})
error_to_exec text none = ok tt
error_to_exec text (some e) = err (wrap text e)

module _ (l : SecretLibrary) (client : Client) (writer : Writer Secret) (retry : Retry) where
  -- `reader.Get`
  abbrev pub read_secret : Server → String → Key → Exec Secret
  read_secret reader failure key trace =
      request (get_secret reader key) (wrapped failure (client.stored_secret trace reader key))
        trace

  -- `RetryOnConflict` around `CreateOrUpdate` on the management cluster
  abbrev pub write_secret : (Secret → Result Secret) → String → Secret → Exec (Unit {0})
  write_secret mutate failure capi trace =
      let (e, o, t) =
        retry.retry_on_conflict Secret (writer.create_or_update management mutate) capi trace in
      (error_to_exec failure e, t)

  module _ (reader : Server) (cluster : Cluster) (scp : StewardControlPlane)
      (tcp : TenantControlPlane) where
    unfoldable pub create_or_update_certificate_authority : Exec (Unit {0})
    create_or_update_certificate_authority = do
      steward_ca ←
          read_secret reader "cannot retrieve source-of-truth as Certificate Authority"
            (record { namespace = tcp.meta.namespace; name = tcp.status.ca_secret_name })
      write_secret (mutate_certificate_authority l cluster scp tcp steward_ca)
          "cannot create or update CA secret"
          (new_secret (cluster.meta.name ++ "-ca") cluster.meta.namespace)

    unfoldable pub create_or_update_kubeconfig : Exec (Unit {0})
    create_or_update_kubeconfig = do
      steward_admin ←
          read_secret reader "cannot retrieve source-of-truth for admin kubeconfig" (record {
            namespace = tcp.meta.namespace;
            name = tcp.status.admin_kubeconfig_secret_name;
          })
      write_secret (mutate_kubeconfig l cluster scp tcp steward_admin)
          "cannot create or update admin Kubeconfig secret"
          (new_secret (cluster.meta.name ++ "-kubeconfig") cluster.meta.namespace)

    -- `fmt.Errorf("… still unprocessed by Steward, %w", ErrEnqueueBack)` where a name is empty
    abbrev pub require_name : String → String → Result (Unit {0})
    require_name name what =
        if name == ""
        then err (wrap (what ++ " still unprocessed by Steward, ") (sentinel enqueue_back))
        else ok tt

    -- `reader` is the remote client's server, or the management cluster's.
    unfoldable pub create_required_resources : Exec (Unit {0})
    create_required_resources = do
      lift (require_name tcp.status.admin_kubeconfig_secret_name "admin kubeconfig")
      create_or_update_kubeconfig
      lift (require_name tcp.status.ca_secret_name "CA")
      create_or_update_certificate_authority
