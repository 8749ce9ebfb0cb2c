-- ===== src/Ecr/Indexers/Meeting.antt =====
-- The two indexes of the external cluster references meet on the references.
use cluster_api_control_plan.Prelude.{
  String, true, some, [], ◌∷◌, ◌≡◌, ◌↔◌, refl, arith, eq_iff, eq_refl, elem,
}
use cluster_api_control_plan.Api.{Secret, ExternalClusterReference, StewardControlPlane}
use cluster_api_control_plan.Ecr.Names.{kubeconfig_namespace, generate_key_name_from_steward}
use cluster_api_control_plan.Ecr.Keys.{NoSlash, key_in, entries, mem-generate_key_name_from_secret}
use cluster_api_control_plan.Ecr.Indexers.{steward_control_plane_values, secret_values}

-- A key under which both indexes have the object.
abbrev pub Meet : Secret → StewardControlPlane → Type 0
Meet secret kcp =
    (k : String) × (elem k (steward_control_plane_values kcp) ≡ true)
    × (elem k (secret_values secret) ≡ true)

-- The reference names the secret and one of its entries.
abbrev pub Refers : Secret → StewardControlPlane → ExternalClusterReference → Type 0
Refers secret kcp ecr =
    (secret.meta.namespace ≡ kubeconfig_namespace kcp ecr)
    × (secret.meta.name ≡ ecr.kubeconfig_secret_name)
    × (key_in ecr.kubeconfig_secret_key (entries secret) ≡ true)

module _ (secret : Secret) (kcp : StewardControlPlane) (ecr : ExternalClusterReference)
    (h1 : NoSlash secret.meta.namespace) (h2 : NoSlash secret.meta.name)
    (h3 : NoSlash (kubeconfig_namespace kcp ecr)) (h4 : NoSlash ecr.kubeconfig_secret_name) where
  meet_at :
      kcp.spec.fields.deployment.external_cluster_reference ≡ some ecr
      → steward_control_plane_values kcp ≡ generate_key_name_from_steward kcp ecr ∷ []
  unfolding steward_control_plane_values
  meet_at has = rw has refl

  -- A secret and a control plane that has a reference are found under a common key exactly when the
  -- reference names the secret and one of its entries; the names and namespaces hold no slash.
  pub indexes-Meet_iff :
      kcp.spec.fields.deployment.external_cluster_reference ≡ some ecr
      → Meet secret kcp ↔ Refers secret kcp ecr
  unfolding secret_values
  indexes-Meet_iff has =
      let key = generate_key_name_from_steward kcp ecr in
      let (to, from) = mem-generate_key_name_from_secret secret kcp ecr h1 h2 h3 h4 in
      let values = meet_at has in
      (
        λ (k, in_kcp, in_secret). to (ground (arith, values, eq_iff key k)),
        λ h. (key, ground (arith, values, eq_refl key), from h),
      )
