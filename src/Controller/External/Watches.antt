-- ===== src/Controller/External/Watches.antt =====
-- What the controller of the kubeconfig secrets reconciles when a StewardControlPlane changes: the
-- mapping function of `SetupWithManager`.
use cluster_api_control_plan.Prelude.{
  String, true, none, some, List, [], ◌∷◌, ◌≡◌, ◌≢◌, ◌↔◌, ◌⊎◌, inl, inr, refl, arith, elem, All,
  if◌then◌else◌, Bool-cases,
}
use cluster_api_control_plan.Errors.{Result, ok, err}
use cluster_api_control_plan.Api.{
  Key, key_of, Secret, ExternalClusterReference, StewardControlPlane,
}
use cluster_api_control_plan.Ecr.Names.{kubeconfig_namespace, generate_key_name_from_steward}
use cluster_api_control_plan.Ecr.Keys.{NoSlash, mem-generate_key_name_from_secret}
use cluster_api_control_plan.Ecr.Indexers.{secret_values}
use cluster_api_control_plan.Ecr.Indexers.Meeting.{Refers}

-- The loop over the secrets.
abbrev pub requests_of : List Secret → List Key
requests_of [] = []
requests_of (secret ∷ secrets) = key_of secret.meta ∷ requests_of secrets

module _ (list_secrets : String → Result (List Secret)) where
  -- `getSecretFromStewardControlPlaneReferences`; an error of the index gives no secret.
  unfoldable pub get_secret_from_steward_control_plane_references :
      StewardControlPlane → ExternalClusterReference → List Secret
  get_secret_from_steward_control_plane_references scp ecr =
      elim (list_secrets (generate_key_name_from_steward scp ecr)) [ err e ↦ [] | ok items ↦ items ]

  unfoldable pub requests_for : StewardControlPlane → List Key
  requests_for scp = elim scp.spec.fields.deployment.external_cluster_reference [
    | none ↦ []
    | some ecr ↦ requests_of (get_secret_from_steward_control_plane_references scp ecr)
  ]

-- The secret that the reference names.
abbrev pub referenced : StewardControlPlane → ExternalClusterReference → Key
referenced scp ecr = record {
  namespace = kubeconfig_namespace scp ecr;
  name = ecr.kubeconfig_secret_name;
}

-- The secrets that the index has under a value.
abbrev pub under : String → List Secret → List Secret
under value [] = []
under value (s ∷ stored) =
    let rest = under value stored in if elem value (secret_values s) then s ∷ rest else rest

abbrev pub NoSlashes : Secret → Type 0
NoSlashes s = NoSlash s.meta.namespace × NoSlash s.meta.name

-- The reference names one of the secrets, with an entry of it.
abbrev pub Names : StewardControlPlane → ExternalClusterReference → List Secret → Type 0
Names scp ecr [] = ⊥
Names scp ecr (s ∷ stored) = Refers s scp ecr ⊎ Names scp ecr stored

module _ (list_secrets : String → Result (List Secret)) (scp : StewardControlPlane)
    (ecr : ExternalClusterReference) (h3 : NoSlash (kubeconfig_namespace scp ecr))
    (h4 : NoSlash ecr.kubeconfig_secret_name) where
  listed_iff :
      (s : Secret)
      → NoSlashes s
      → (elem (generate_key_name_from_steward scp ecr) (secret_values s) ≡ true) ↔ Refers s scp ecr
  unfolding secret_values
  listed_iff s (h1, h2) = mem-generate_key_name_from_secret s scp ecr h1 h2 h3 h4

  same_key : (s : Secret) → Refers s scp ecr → key_of s.meta ≡ referenced scp ecr
  same_key s (in_namespace, named, has) = cc

  under-All :
      (stored : List Secret)
      → All NoSlashes stored
      → All
          (λ r. r ≡ referenced scp ecr)
          (requests_of (under (generate_key_name_from_steward scp ecr) stored))
  under-All [] plain = tt
  under-All (s ∷ stored) (p, plain) =
      elim (Bool-cases (elem (generate_key_name_from_steward scp ecr) (secret_values s))) [
        | inl listed ↦ rw listed (same_key s ((listed_iff s p).0 listed), under-All stored plain)
        | inr other ↦ rw other (under-All stored plain)
      ]

  -- Either some stored secret is named with an entry, and there are requests, or neither.
  abbrev Answers : List Secret → List Key → Type 0
  Answers stored requests =
      ((requests ≡ []) × ¬ Names scp ecr stored) ⊎ ((requests ≢ []) × Names scp ecr stored)

  under-Answers :
      (stored : List Secret)
      → All NoSlashes stored
      → Answers stored (requests_of (under (generate_key_name_from_steward scp ecr) stored))
  under-Answers [] plain = inl (refl, λ n. n)
  under-Answers (s ∷ stored) (p, plain) =
      elim (Bool-cases (elem (generate_key_name_from_steward scp ecr) (secret_values s))) [
        | inl listed ↦ rw listed (inr (λ e. cc, inl ((listed_iff s p).0 listed)))
        | inr other ↦
            let not_named : ¬ Refers s scp ecr = λ h. ground (arith, listed_iff s p, h, other) in
            rw other (elim (under-Answers stored plain) [
              | inl (none_there, no_name) ↦
                  inl (none_there, λ n. elim n [ inl h ↦ not_named h | inr h ↦ no_name h ])
              | inr (some_there, named) ↦ inr (some_there, inr named)
            ])
      ]

  -- A change of a StewardControlPlane that has a reference makes the controller reconcile no other
  -- secret than the one that the reference names, and that one exactly when it is stored and has the
  -- entry. The index has the stored secrets under their keys; namespaces and names hold no slash.
  pub requests_for-reference :
      (stored : List Secret)
      → scp.spec.fields.deployment.external_cluster_reference ≡ some ecr
      → All NoSlashes stored
      → list_secrets (generate_key_name_from_steward scp ecr)
        ≡ ok (under (generate_key_name_from_steward scp ecr) stored)
      → All (λ r. r ≡ referenced scp ecr) (requests_for list_secrets scp)
        × (((requests_for list_secrets scp ≡ []) × ¬ Names scp ecr stored)
            ⊎ ((requests_for list_secrets scp ≢ []) × Names scp ecr stored))
  unfolding requests_for get_secret_from_steward_control_plane_references
  requests_for-reference stored has plain listed =
      let key = generate_key_name_from_steward scp ecr in
      let same : requests_for list_secrets scp ≡ requests_of (under key stored) = ground arith in
      rw same (under-All stored plain, under-Answers stored plain)
