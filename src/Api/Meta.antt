-- ===== src/Api/Meta.antt =====
-- Object metadata, names and keys (metav1 and controller-runtime), as far as the controllers use
-- them.
use cluster_api_control_plan.Prelude.{ℕ, String, Option, List}

abbrev pub Opaque : Type 0
Opaque = String

-- `map[string]string`
abbrev pub Labels : Type 0
Labels = List (String × String)

-- `types.NamespacedName`
pub record Key : Type 0 where
  pub namespace : String
  pub name : String

-- The kind and the name, and the flag of the owner that controls the object.
pub record OwnerReference : Type 0 where
  pub kind : String
  pub name : String
  pub uid : String

pub record ObjectMeta : Type 0 where
  pub name : String
  pub namespace : String
  pub uid : String
  pub resource_version : String
  pub generation : ℕ
  pub creation_timestamp : Option ℕ
  pub deletion_timestamp : Option ℕ
  pub labels : Option Labels
  pub annotations : Option Labels
  pub finalizers : List String
  pub owner_references : List OwnerReference

abbrev pub key_of : ObjectMeta → Key
key_of m = record { namespace = m.namespace; name = m.name }
