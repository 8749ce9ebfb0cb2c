-- ===== src/Controller/Tenant/Annotations.antt =====
-- The annotations that a TenantControlPlane gets.
use cluster_api_control_plan.Prelude.{
  String, Option, none, some, [], ◌∷◌, ◌≡◌, arith, ◌==◌, eq_iff, lookup, insert, lookup-insert,
  lookup-delete, IsUnique, inl, inr, if◌then◌else◌, Bool-cases,
}
use cluster_api_control_plan.Api.{Labels}
use cluster_api_control_plan.Controller.Tenant.Mutation.{
  TenantLibrary, or_empty, value_at, copy_annotations, annotations_of,
}

-- The first value, or else the second.
abbrev or_else : Option String → Option String → Option String
or_else none b = b
or_else (some v) b = some v

module _ (l : TenantLibrary) where
  -- What the StewardControlPlane and the stored object say of an annotation that is not the
  -- kubeconfig's key.
  abbrev pub merged : Labels → Labels → String → Option String
  merged source target k =
      if k == l.last_applied_config_annotation
      then lookup k target
      else or_else (lookup k source) (lookup k target)

  lookup-copy_annotations :
      (source target : Labels) (k : String)
      → IsUnique source
      → lookup k (copy_annotations l source target) ≡ merged source target k
  unfolding copy_annotations lookup
  lookup-copy_annotations [] target k u = ground arith
  lookup-copy_annotations ((j, v) ∷ rest) target k (free, u) = ground (
    arith,
    lookup-copy_annotations rest target k u,
    lookup-copy_annotations rest (insert j v target) k u,
    lookup-insert j k v target,
    eq_iff j k,
    eq_iff j l.last_applied_config_annotation,
    eq_iff k l.last_applied_config_annotation,
  )

  -- Each annotation after the mutation: the kubeconfig's key is the StewardControlPlane's, and is
  -- absent where that is absent or empty; any other is the StewardControlPlane's, or else is kept from
  -- the stored object, which also keeps its last applied configuration. The annotations of the
  -- StewardControlPlane are a map.
  pub lookup-annotations_of :
      (source target : Option Labels) (k : String)
      → IsUnique (or_empty source)
      → lookup k (annotations_of l source target) ≡ (
          if l.kubeconfig_secret_key_annotation == k
          then (if value_at l.kubeconfig_secret_key_annotation (or_empty source) == ""
              then none
              else some (value_at l.kubeconfig_secret_key_annotation (or_empty source)))
          else merged (or_empty source) (or_empty target) k)
  unfolding annotations_of
  lookup-annotations_of source target k u =
      let m = copy_annotations l (or_empty source) (or_empty target) in
      let key = value_at l.kubeconfig_secret_key_annotation (or_empty source) in
      let copied = lookup-copy_annotations (or_empty source) (or_empty target) k u in
      elim (Bool-cases (key == "")) [
        | inl unset ↦
            rw (unset, annotations_of)
              (ground (arith, copied, lookup-delete l.kubeconfig_secret_key_annotation k m))
        | inr is_set ↦
            rw (is_set, annotations_of)
              (ground (arith, copied, lookup-insert l.kubeconfig_secret_key_annotation k key m))
      ]

  -- Copying the same annotations again changes none: for every key the second mutation finds what the
  -- first left. The annotations of the StewardControlPlane are a map.
  pub annotations_of_again :
      (source target : Option Labels) (k : String)
      → IsUnique (or_empty source)
      → lookup k (annotations_of l source (some (annotations_of l source target)))
        ≡ lookup k (annotations_of l source target)
  annotations_of_again source target k u = ground (
    arith,
    lookup-annotations_of source target k u,
    lookup-annotations_of source (some (annotations_of l source target)) k u,
  )
