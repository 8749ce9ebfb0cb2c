-- ===== src/Controller/Secrets/Mutations.antt =====
-- The functions that the two secrets' `CreateOrUpdate` runs, on the secret that is stored.
use cluster_api_control_plan.Prelude.{
  String, Bool, false, Option, none, some, List, [], ◌∷◌, ◌==◌, lookup, insert, if◌then◌else◌,
}
use cluster_api_control_plan.Errors.{message, Result, ok, err, ◌>>=◌}
use cluster_api_control_plan.Api.{
  Labels, OwnerReference, ObjectMeta, Bytes, Secret, Cluster, StewardControlPlane,
  TenantControlPlane,
}

-- Names of the libraries that the functions use, and `SetControllerReference`.
pub record SecretLibrary : Type 0 where
  pub cluster_name_label : String
  pub cluster_secret_type : String
  pub kubeconfig_secret_key_annotation : String
  pub tls_cert_key : String
  pub tls_private_key_key : String
  pub set_controller_reference : StewardControlPlane → ObjectMeta → Result ObjectMeta

-- `&corev1.Secret{}` with a name and a namespace
abbrev pub new_secret : String → String → Secret
new_secret name namespace = record {
  meta = record {
    name = name;
    namespace = namespace;
    uid = "";
    resource_version = "";
    generation = 0;
    creation_timestamp = none;
    deletion_timestamp = none;
    labels = none;
    annotations = none;
    finalizers = [];
    owner_references = [];
  };
  contents = none;
  type = "";
}

abbrev pub labels_or_empty : Option Labels → Labels
labels_or_empty none = []
labels_or_empty (some m) = m

abbrev pub entries_or_empty : Option (List (String × Bytes)) → List (String × Bytes)
entries_or_empty none = []
entries_or_empty (some m) = m

-- The owner of the secret is a TenantControlPlane.
abbrev pub is_managed : List OwnerReference → Bool
is_managed [] = false
is_managed (o ∷ os) = o.kind == "TenantControlPlane"

-- The type of a secret is set when it is created.
abbrev pub type_of : SecretLibrary → Secret → String
type_of l capi = elim capi.meta.creation_timestamp [
  | none ↦ l.cluster_secret_type
  | some time ↦ capi.type
]

-- The key of the kubeconfig that the annotation asks for.
unfoldable pub secret_key_of : SecretLibrary → Option Labels → String
secret_key_of l annotations =
    elim (lookup l.kubeconfig_secret_key_annotation (labels_or_empty annotations)) [
      | none ↦ "admin.conf"
      | some v ↦ if v == "" then "admin.conf" else v
    ]

module _ (l : SecretLibrary) (cluster : Cluster) (scp : StewardControlPlane)
    (tcp : TenantControlPlane) where
  unfoldable pub with_labels : String → Labels → Labels
  with_labels secret labels = insert "steward.butlerlabs.dev/tcp" tcp.meta.name (
      insert "steward.butlerlabs.dev/cluster" cluster.meta.name (
        insert "steward.butlerlabs.dev/secret" secret (
          insert "steward.butlerlabs.dev/component" "capi"
            (insert l.cluster_name_label cluster.meta.name labels))))

  -- `SetLabels`, `Data`, `Type` and the owner, on the secret that is stored.
  unfoldable pub filled : Labels → List (String × Bytes) → Secret → Result Secret
  filled labels contents capi = do
    meta ← l.set_controller_reference scp (record capi.meta { labels = some labels })
    ok (record { meta = meta; contents = some contents; type = type_of l capi })

  unfoldable pub mutate_certificate_authority : Secret → Secret → Result Secret
  mutate_certificate_authority steward_ca capi =
      let entries = entries_or_empty steward_ca.contents in
      if is_managed capi.meta.owner_references then ok capi else elim (lookup "ca.crt" entries) [
        | none ↦
            err (message "missing Certificate value from *stewardv1alpha1.TenantControlPlane CA")
        | some crt ↦ elim (lookup "ca.key" entries) [
          | none ↦
              err (message "missing Private Key value from *stewardv1alpha1.TenantControlPlane CA")
          | some key ↦
              filled (with_labels "ca" (labels_or_empty steward_ca.meta.labels))
                ((l.tls_cert_key, crt) ∷ (l.tls_private_key_key, key) ∷ []) capi
        ]
      ]

  unfoldable pub mutate_kubeconfig : Secret → Secret → Result Secret
  mutate_kubeconfig steward_admin capi =
      elim (lookup (secret_key_of l scp.meta.annotations)
        (entries_or_empty steward_admin.contents)) [
          | none ↦ err (
              message
                "missing key from *stewardv1alpha1.TenantControlPlane admin kubeconfig secret")
          | some value ↦
              filled (with_labels "kubeconfig" (labels_or_empty capi.meta.labels))
                (("value", value) ∷ []) capi
        ]
