-- ===== src/Ecr/Indexers.antt =====
-- pkg/indexers: the field indexes of the manager's cache. An indexer's `ExtractValue` asserts the type
-- of its object, so each is a function of the object that it is registered for.
pub mod Meeting
use Prim.Native.String.{◌++◌}
use cluster_api_control_plan.Prelude.{String, Option, none, some, List, [], ◌∷◌, ◌≡◌, arith}
use cluster_api_control_plan.Errors.{Error, wrap, Result, ok, err}
use cluster_api_control_plan.Api.{Secret, StewardControlPlane}
use cluster_api_control_plan.Ecr.Names.{
  generate_key_name_from_secret, generate_key_name_from_steward,
}

pub data Indexer : Type 0 where
  external_cluster_reference_steward_control_plane external_cluster_reference_secret : Indexer
  steward_control_plane_uid : Indexer

-- `Object`: the kind that is indexed.
pub data IndexedKind : Type 0 where
  steward_control_plane_kind secret_kind : IndexedKind

unfoldable pub object : Indexer → IndexedKind
object external_cluster_reference_steward_control_plane = steward_control_plane_kind
object external_cluster_reference_secret = secret_kind
object steward_control_plane_uid = steward_control_plane_kind

abbrev pub external_cluster_reference_steward_control_plane_field : String
external_cluster_reference_steward_control_plane_field =
    "externalClusterReferenceStewardControlPlane"

abbrev pub external_cluster_reference_secret_field : String
external_cluster_reference_secret_field = "externalClusterReferenceSecret"

abbrev pub steward_control_plane_uid_field : String
steward_control_plane_uid_field = "stewardControlPlaneUID"

unfoldable pub field : Indexer → String
field external_cluster_reference_steward_control_plane =
    external_cluster_reference_steward_control_plane_field
field external_cluster_reference_secret = external_cluster_reference_secret_field
field steward_control_plane_uid = steward_control_plane_uid_field

-- `ExtractValue` of `ExternalClusterReferenceStewardControlPlane`
unfoldable pub steward_control_plane_values : StewardControlPlane → List String
steward_control_plane_values kcp = elim kcp.spec.fields.deployment.external_cluster_reference [
  | none ↦ []
  | some ecr ↦ generate_key_name_from_steward kcp ecr ∷ []
]

-- `ExtractValue` of `ExternalClusterReferenceSecret`
unfoldable pub secret_values : Secret → List String
secret_values secret = generate_key_name_from_secret secret

-- `ExtractValue` of `StewardControlPlaneUID`
unfoldable pub uid_values : StewardControlPlane → List String
uid_values kcp = kcp.meta.uid ∷ []

-- `SetupWithManager`: `index_field` is the manager's `IndexField`, whose answer may depend on the
-- indexes that it has; the loop ends at the first error.
module _ (index_field : List Indexer → Indexer → Option Error) where
  unfoldable pub setup_from : List Indexer → List Indexer → Result (List Indexer)
  setup_from registered [] = ok registered
  setup_from registered (i ∷ rest) =
      let next = setup_from (i ∷ registered) rest in
      elim (index_field registered i) [
        | none ↦ next
        | some e ↦ err (wrap ("failed to set up indexer " ++ field i) e)
      ]

  unfoldable pub setup_with_manager : Result (List Indexer)
  unfolding setup_from
  setup_with_manager = setup_from [] (
      external_cluster_reference_steward_control_plane ∷ external_cluster_reference_secret
      ∷ steward_control_plane_uid ∷ [])

  abbrev pub all_indexers : List Indexer
  all_indexers =
      steward_control_plane_uid ∷ external_cluster_reference_secret
      ∷ external_cluster_reference_steward_control_plane ∷ []

  -- Success means that all three are there.
  pub setup_with_manager_ok :
      (indexers : List Indexer) → setup_with_manager ≡ ok indexers → indexers ≡ all_indexers
  unfolding setup_with_manager setup_from
  setup_with_manager_ok indexers h = ground arith

  pub setup_with_manager_success :
      ((registered : List Indexer) (i : Indexer) → index_field registered i ≡ none)
      → setup_with_manager ≡ ok all_indexers
  unfolding setup_with_manager setup_from
  setup_with_manager_success h = ground (
    arith,
    h [] external_cluster_reference_steward_control_plane,
    h (external_cluster_reference_steward_control_plane ∷ []) external_cluster_reference_secret,
    h (external_cluster_reference_secret ∷ external_cluster_reference_steward_control_plane ∷ [])
        steward_control_plane_uid,
  )
