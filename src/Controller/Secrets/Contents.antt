-- ===== src/Controller/Secrets/Contents.antt =====
-- What the secrets of the workload cluster hold.
use cluster_api_control_plan.Prelude.{
  ℕ, String, true, false, none, some, List, [], ◌∷◌, ◌≡◌, ◌⊎◌, inl, inr, arith, lookup,
  Option-cases, Bool-cases,
}
use cluster_api_control_plan.Errors.{ok, Result-cases}
use cluster_api_control_plan.Api.{
  Labels, Bytes, Secret, Cluster, StewardControlPlane, TenantControlPlane,
}
use cluster_api_control_plan.Controller.Secrets.Mutations.{
  SecretLibrary, labels_or_empty, entries_or_empty, is_managed, with_labels, filled,
  mutate_certificate_authority,
}

module _ (l : SecretLibrary) (cluster : Cluster) (scp : StewardControlPlane)
    (tcp : TenantControlPlane) where
  -- What the two functions make of a stored secret: its entries, and a type that is the contract's on
  -- creation and the stored one afterwards.
  pub record IsFilled (entries : List (String × Bytes)) (secret : String) (labels : Labels)
      (capi made : Secret) : Type 0 where
    pub contents : made.contents ≡ some entries
    pub kept_type : (time : ℕ) → capi.meta.creation_timestamp ≡ some time → made.type ≡ capi.type
    pub new_type : capi.meta.creation_timestamp ≡ none → made.type ≡ l.cluster_secret_type
    pub owned :
        l.set_controller_reference scp
          (record capi.meta { labels = some (with_labels l cluster scp tcp secret labels) })
        ≡ ok made.meta

  filled-IsFilled :
      (entries : List (String × Bytes)) (secret : String) (labels : Labels) (capi made : Secret)
      → filled l cluster scp tcp (with_labels l cluster scp tcp secret labels) entries capi
        ≡ ok made
      → IsFilled entries secret labels capi made
  unfolding filled
  filled-IsFilled entries secret labels capi made h =
      elim (Result-cases (
        l.set_controller_reference scp
          (record capi.meta { labels = some (with_labels l cluster scp tcp secret labels) }))) [
            | inr (e, refused) ↦ absurd (ground arith)
            | inl (meta, set) ↦ record {
              contents = ground arith;
              kept_type = λ time is_time. ground arith;
              new_type = λ new. ground arith;
              owned = ground arith;
            }
          ]

  -- A certificate authority secret that the mutation accepts is left unchanged if its first owner is a
  -- TenantControlPlane; if not, it has the certificate and the key of the TenantControlPlane's
  -- secret, which has both, and its type, labels and owner are set as the kubeconfig's are.
  pub mutate_certificate_authority_ok :
      (steward capi made : Secret)
      → mutate_certificate_authority l cluster scp tcp steward capi ≡ ok made
      → ((is_managed capi.meta.owner_references ≡ true) × (made ≡ capi))
        ⊎ ((crt key : Bytes) × (is_managed capi.meta.owner_references ≡ false)
            × (lookup "ca.crt" (entries_or_empty steward.contents) ≡ some crt)
            × (lookup "ca.key" (entries_or_empty steward.contents) ≡ some key)
            × IsFilled
                ((l.tls_cert_key, crt) ∷ (l.tls_private_key_key, key) ∷ [])
                "ca"
                (labels_or_empty steward.meta.labels)
                capi
                made)
  unfolding mutate_certificate_authority
  mutate_certificate_authority_ok steward capi made h =
      elim (Bool-cases (is_managed capi.meta.owner_references)) [
        | inl managed ↦ inl (managed, ground arith)
        | inr free ↦ elim (Option-cases (lookup "ca.crt" (entries_or_empty steward.contents))) [
          | inl absent ↦ absurd (ground arith)
          | inr (crt, found) ↦
              elim (Option-cases (lookup "ca.key" (entries_or_empty steward.contents))) [
                | inl absent ↦ absurd (ground arith)
                | inr (key, found_key) ↦ inr (
                  crt,
                  key,
                  free,
                  found,
                  found_key,
                  filled-IsFilled ((l.tls_cert_key, crt) ∷ (l.tls_private_key_key, key) ∷ []) "ca"
                      (labels_or_empty steward.meta.labels) capi made (ground arith),
                )
              ]
        ]
      ]
