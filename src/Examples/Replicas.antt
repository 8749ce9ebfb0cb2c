-- ===== src/Examples/Replicas.antt =====
-- The secrets of one workload cluster, and one status update.
use cluster_api_control_plan.Prelude.{true, false, none, some, [], ◌∷◌, ◌≡◌, ◌≢◌, ◌⊎◌, refl, lookup}
use cluster_api_control_plan.Errors.{Result, ok}
use cluster_api_control_plan.Api.{Bytes, bytes, Secret, StewardControlPlane}
use cluster_api_control_plan.Kube.{management, Trace, Client}
use cluster_api_control_plan.Controller.Secrets.{
  create_or_update_kubeconfig, create_or_update_certificate_authority, create_required_resources,
}
use cluster_api_control_plan.Controller.Secrets.Mutations.{
  with_labels, filled, secret_key_of, mutate_kubeconfig, mutate_certificate_authority, new_secret,
  is_managed, entries_or_empty,
}
use cluster_api_control_plan.Controller.Secrets.Contents.{IsFilled, mutate_certificate_authority_ok}
use cluster_api_control_plan.Controller.Secrets.Contract.{
  Replicated, admin_key, ca_key, create_required_resources_ok,
}
use cluster_api_control_plan.Controller.Status.{Modifier, update_steward_control_plane_status_of}
use cluster_api_control_plan.Controller.Status.Laws.{IsFresh, EndsInStatus, update_status-IsFresh}
use cluster_api_control_plan.Samples.Objects.{
  sample_control_plane, sample_cluster, sample_tenant, sample_steward_secret,
}
use cluster_api_control_plan.Samples.Parameters.{
  single_run, creating, sample_secret_library, sample_client,
}

abbrev scp : StewardControlPlane
scp = sample_control_plane []

abbrev kubeconfig_secret : Secret
kubeconfig_secret = record {
  meta = record (new_secret "cluster-kubeconfig" "clusters").meta {
    labels =
        some (with_labels sample_secret_library sample_cluster scp sample_tenant "kubeconfig" []);
  };
  contents = some (("value", bytes "kubeconfig") ∷ []);
  type = "cluster-secret";
}

abbrev ca_secret : Secret
ca_secret = record {
  meta = record (new_secret "cluster-ca" "clusters").meta {
    labels = some (with_labels sample_secret_library sample_cluster scp sample_tenant "ca" []);
  };
  contents = some (("tls.crt", bytes "crt") ∷ ("tls.key", bytes "key") ∷ []);
  type = "cluster-secret";
}

fills_ca :
    mutate_certificate_authority sample_secret_library sample_cluster scp sample_tenant
      sample_steward_secret
      (new_secret "cluster-ca" "clusters")
    ≡ ok ca_secret
unfolding mutate_certificate_authority filled lookup
fills_ca = refl

mutate_certificate_authority_ok_example :
    ((is_managed [] ≡ true) × (ca_secret ≡ new_secret "cluster-ca" "clusters"))
    ⊎ ((crt key : Bytes) × (is_managed [] ≡ false)
        × (lookup "ca.crt" (entries_or_empty sample_steward_secret.contents) ≡ some crt)
        × (lookup "ca.key" (entries_or_empty sample_steward_secret.contents) ≡ some key)
        × IsFilled sample_secret_library sample_cluster scp sample_tenant
            (("tls.crt", crt) ∷ ("tls.key", key) ∷ [])
            "ca"
            []
            (new_secret "cluster-ca" "clusters")
            ca_secret)
mutate_certificate_authority_ok_example =
    mutate_certificate_authority_ok sample_secret_library sample_cluster scp sample_tenant
      sample_steward_secret (new_secret "cluster-ca" "clusters") ca_secret fills_ca

-- An API server that stores the secret of the TenantControlPlane.
abbrev secret_client : Client
secret_client = record (sample_client [] (ok tt) "patched") {
  stored_secret = λ t server key. ok sample_steward_secret;
}

replicates :
    (create_required_resources sample_secret_library secret_client
      (creating Secret)
      single_run
      management
      sample_cluster
      scp
      sample_tenant
      []).0
    ≡ ok tt
unfolding create_required_resources create_or_update_kubeconfig
    create_or_update_certificate_authority mutate_kubeconfig mutate_certificate_authority filled
    secret_key_of lookup
replicates = refl

abbrev replicas : Result (Unit {0}) × Trace
replicas =
    create_required_resources sample_secret_library secret_client (creating Secret) single_run
      management sample_cluster scp sample_tenant []

create_required_resources_ok_example :
    ("admin" ≢ sample_tenant.spec.data_store)
    × ("ca" ≢ sample_tenant.spec.data_store)
    × ((between : Trace) × Replicated sample_secret_library secret_client
          (creating Secret)
          single_run
          management
          (admin_key sample_secret_library secret_client
            (creating Secret)
            single_run
            management
            sample_cluster
            scp
            sample_tenant)
          (mutate_kubeconfig sample_secret_library sample_cluster scp sample_tenant)
          (new_secret "cluster-kubeconfig" "clusters")
          []
          between
        × Replicated sample_secret_library secret_client
            (creating Secret)
            single_run
            management
            (ca_key sample_secret_library secret_client
              (creating Secret)
              single_run
              management
              sample_cluster
              scp
              sample_tenant)
            (mutate_certificate_authority sample_secret_library sample_cluster scp sample_tenant)
            (new_secret "cluster-ca" "clusters")
            between
            replicas.1)
create_required_resources_ok_example =
    create_required_resources_ok sample_secret_library secret_client (creating Secret) single_run
      management sample_cluster scp sample_tenant [] replicates

abbrev mark_initialized : Modifier
mark_initialized s = record s.status { initialized = true }

update_status-IsFresh_example :
    IsFresh secret_client mark_initialized
      (update_steward_control_plane_status_of secret_client single_run mark_initialized scp []).2
    × ((update_steward_control_plane_status_of secret_client single_run mark_initialized scp []).0
          ≡ none
        → EndsInStatus secret_client mark_initialized
            (update_steward_control_plane_status_of secret_client single_run mark_initialized scp
              []).1
            (update_steward_control_plane_status_of secret_client single_run mark_initialized scp
              []).2)
update_status-IsFresh_example =
    update_status-IsFresh secret_client mark_initialized single_run scp [] tt
