-- ===== src/Kube/Sets.antt =====
-- `sets.Set[string]` of apimachinery: a map with the elements for keys, here a list whose order is not
-- meant. Its functions are parameters, with their documented behaviour.
use cluster_api_control_plan.Prelude.{String, Bool, not, ◌&&◌, ◌||◌, List, ◌≡◌, ◌==◌, elem}

pub record StringSets : Type 0 where
  pub new : List String → List String
  pub has : List String → String → Bool
  pub insert : List String → String → List String
  pub delete : List String → String → List String
  pub unsorted_list : List String → List String

pub record SetLaws (s : StringSets) : Type 0 where
  pub has-new : (l : List String) (x : String) → s.has (s.new l) x ≡ elem x l
  pub has-insert : (t : List String) (y x : String) → s.has (s.insert t y) x ≡ (y == x || s.has t x)
  pub has-delete :
      (t : List String) (y x : String) → s.has (s.delete t y) x ≡ (not (y == x) && s.has t x)
  pub elem-unsorted_list : (t : List String) (x : String) → elem x (s.unsorted_list t) ≡ s.has t x
