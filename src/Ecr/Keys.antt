-- ===== src/Ecr/Keys.antt =====
-- A secret and a control plane make the same key exactly when the control plane refers to an entry
-- of that secret, and the entry's name can be read off the key.
use Prim.Native.String.{[], ◌∷◌, ◌++◌}
use text.Mathlib.TextLemmas.{nil-append, cons-append}
use cluster_api_control_plan.Prelude.{
  String, Char, Bool, true, false, ◌||◌, ◌≡◌, refl, sym, ap, ◌∙◌, ◌↔◌, none, some, List, [], ◌∷◌,
  arith, ◌==◌, eq_iff, elem, some_pair_inj, Option-cases, inl, inr,
}
use cluster_api_control_plan.Api.{
  ObjectMeta, Bytes, Secret, ExternalClusterReference, StewardControlPlane,
}
use cluster_api_control_plan.Net.{cut}
use cluster_api_control_plan.Net.Cuts.{Lacks, cut-append}
use cluster_api_control_plan.Ecr.Names.{
  slashed, key_names, generate_key_name_from_secret, kubeconfig_namespace,
  generate_key_name_from_steward,
}

abbrev slash : Char
slash = "/"

abbrev pub NoSlash : String → Type 0
NoSlash s = Lacks b'/' s

slash-append : (s : String) → "/" ++ s ≡ slash ∷ s
slash-append s = cons-append slash [] s ∙ ap (λ t. slash ∷ t) (nil-append s)

slashed_text : (a b c : String) → slashed a b c ≡ a ++ slash ∷ (b ++ slash ∷ c)
slashed_text a b c = simp slash-append

-- Where the namespace and the name hold no slash, a key determines its parts.
pub slashed_inj :
    (a b c x y z : String)
    → NoSlash a
    → NoSlash b
    → NoSlash x
    → NoSlash y
    → slashed a b c ≡ slashed x y z
    → (a ≡ x) × (b ≡ y) × (c ≡ z)
slashed_inj a b c x y z ha hb hx hy e =
    let e' : a ++ slash ∷ (b ++ slash ∷ c) ≡ x ++ slash ∷ (y ++ slash ∷ z) =
      sym (slashed_text a b c) ∙ e ∙ slashed_text x y z in
    let (same_a, rest) = some_pair_inj a x _ _ (
      sym (cut-append b'/' slash refl a _ ha)
      ∙ ap (cut b'/') e'
      ∙ cut-append b'/' slash refl x _ hx) in
    let (same_b, same_c) = some_pair_inj b y c z (
      sym (cut-append b'/' slash refl b _ hb)
      ∙ ap (cut b'/') rest
      ∙ cut-append b'/' slash refl y _ hy) in
    (same_a, same_b, same_c)

abbrev pub entries : Secret → List (String × Bytes)
entries secret = elim secret.contents [ none ↦ [] | some m ↦ m ]

abbrev pub key_in : String → List (String × Bytes) → Bool
key_in k [] = false
key_in k ((j, v) ∷ m) = j == k || key_in k m

module _ (meta : ObjectMeta) (a b c : String) (h1 : NoSlash meta.namespace) (h2 : NoSlash meta.name)
    (h3 : NoSlash a) (h4 : NoSlash b) where
  slashed_eq_iff :
      (k : String)
      → ((slashed meta.namespace meta.name k == slashed a b c) ≡ true)
        ↔ ((meta.namespace ≡ a) × (meta.name ≡ b) × (k ≡ c))
  slashed_eq_iff k = (
    λ h. slashed_inj meta.namespace meta.name k a b c h1 h2 h3 h4 ((eq_iff _ _).0 h),
    λ h. (eq_iff _ _).1 (rw (h.0, h.1, h.2)),
  )

  key_names_iff :
      (m : List (String × Bytes))
      → (elem (slashed a b c) (key_names meta m) ≡ true)
        ↔ ((meta.namespace ≡ a) × (meta.name ≡ b) × (key_in c m ≡ true))
  unfolding key_names
  key_names_iff [] = ground arith
  key_names_iff ((k, v) ∷ m) = ground (arith, key_names_iff m, slashed_eq_iff k, eq_iff k c)

-- A secret's keys hold the key of a control plane exactly when the control plane's reference names
-- that secret, in the namespace it asks for, and one of its entries; the names and namespaces hold
-- no slash.
pub mem-generate_key_name_from_secret :
    (secret : Secret) (kcp : StewardControlPlane) (ecr : ExternalClusterReference)
    → NoSlash secret.meta.namespace
    → NoSlash secret.meta.name
    → NoSlash (kubeconfig_namespace kcp ecr)
    → NoSlash ecr.kubeconfig_secret_name
    → (elem (generate_key_name_from_steward kcp ecr) (generate_key_name_from_secret secret) ≡ true)
      ↔ ((secret.meta.namespace ≡ kubeconfig_namespace kcp ecr)
          × (secret.meta.name ≡ ecr.kubeconfig_secret_name)
          × (key_in ecr.kubeconfig_secret_key (entries secret) ≡ true))
unfolding generate_key_name_from_secret generate_key_name_from_steward
mem-generate_key_name_from_secret secret kcp ecr h1 h2 h3 h4 = elim (Option-cases secret.contents) [
  | inl no_map ↦ rw no_map (ground arith)
  | inr (m, found) ↦ rw found (
      key_names_iff secret.meta (kubeconfig_namespace kcp ecr) ecr.kubeconfig_secret_name
        ecr.kubeconfig_secret_key h1 h2 h3 h4 m)
]
