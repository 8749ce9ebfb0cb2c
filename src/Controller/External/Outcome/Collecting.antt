-- ===== src/Controller/External/Outcome/Collecting.antt =====
-- What the first loop leaves of the store, and which keys it collects.
use cluster_api_control_plan.Prelude.{
  String, Bool, true, false, not, ◌&&◌, none, List, [], ◌∷◌, ◌≡◌, refl, arith, eq_iff, elem, inl,
  inr, Bool-cases,
}
use cluster_api_control_plan.Errors.{ok, err, Result-cases}
use cluster_api_control_plan.Kube.{list_steward_control_planes, Trace}
use cluster_api_control_plan.Ecr.Store
use cluster_api_control_plan.Ecr.Store.{MapStore}
use cluster_api_control_plan.Ecr.Store.Laws.{view, view-stop}
use cluster_api_control_plan.Controller.External.Loops.{Managers, is_empty, collect_keys}

module _ (managers : Managers) where
  -- A StewardControlPlane refers to the key.
  abbrev pub in_use : String → Bool
  in_use key = elim (managers.referring key) [ err e ↦ false | ok items ↦ not (is_empty items) ]

  pub collect_in_use :
      (keys : List String) (store : MapStore) (t : Trace) (name : String)
      → in_use name ≡ true
      → view (collect_keys managers keys store t).1 name ≡ view store name
  unfolding collect_keys
  collect_in_use [] store t name used = refl
  collect_in_use (key ∷ keys) store t name used =
      let u : Trace = list_steward_control_planes key ∷ t in
      ground (
        arith,
        view-stop store key name,
        eq_iff key name,
        collect_in_use keys (Store.stop store key).1 u name used,
        collect_in_use keys store u name used,
      )

  pub collect_other :
      (keys : List String) (store : MapStore) (t : Trace) (name : String)
      → elem name keys ≡ false
      → view (collect_keys managers keys store t).1 name ≡ view store name
  unfolding collect_keys
  collect_other [] store t name absent = refl
  collect_other (key ∷ keys) store t name absent =
      let u : Trace = list_steward_control_planes key ∷ t in
      ground (
        arith,
        view-stop store key name,
        collect_other keys (Store.stop store key).1 u name,
        collect_other keys store u name,
      )

  pub collect_elem :
      (keys used : List String) (store : MapStore) (t : Trace) (name : String)
      → (collect_keys managers keys store t).0 ≡ ok used
      → elem name used ≡ (elem name keys && in_use name)
  unfolding collect_keys
  collect_elem [] used store t name h = ground arith
  collect_elem (key ∷ keys) used store t name h =
      let u : Trace = list_steward_control_planes key ∷ t in
      elim (Result-cases (managers.referring key)) [
        | inr (e, failed) ↦ absurd (ground arith)
        | inl (items, listed) ↦ elim (Bool-cases (is_empty items)) [
          | inl unused ↦
              ground
                (arith, eq_iff key name, collect_elem keys used (Store.stop store key).1 u name)
          | inr is_used ↦ elim (Result-cases (collect_keys managers keys store u).0) [
            | inr (e, failed) ↦ absurd (ground arith)
            | inl (rest, collected) ↦
                ground (arith, eq_iff key name, collect_elem keys rest store u name collected)
          ]
        ]
      ]

  pub collect_none :
      (keys : List String) (store : MapStore) (t : Trace) (name : String)
      → view store name ≡ none
      → view (collect_keys managers keys store t).1 name ≡ none
  unfolding collect_keys
  collect_none [] store t name free = free
  collect_none (key ∷ keys) store t name free =
      let u : Trace = list_steward_control_planes key ∷ t in
      ground (
        arith,
        view-stop store key name,
        collect_none keys (Store.stop store key).1 u name,
        collect_none keys store u name,
      )

  pub collect_unused :
      (keys used : List String) (store : MapStore) (t : Trace) (name : String)
      → (collect_keys managers keys store t).0 ≡ ok used
      → elem name keys ≡ true
      → in_use name ≡ false
      → view (collect_keys managers keys store t).1 name ≡ none
  unfolding collect_keys
  collect_unused [] used store t name h there unused = absurd (ground arith)
  collect_unused (key ∷ keys) used store t name h there unused =
      let u : Trace = list_steward_control_planes key ∷ t in
      elim (Result-cases (managers.referring key)) [
        | inr (e, failed) ↦ absurd (ground arith)
        | inl (items, listed) ↦ elim (Bool-cases (is_empty items)) [
          | inl empty ↦ ground (
            arith,
            eq_iff key name,
            view-stop store key name,
            collect_none keys (Store.stop store key).1 u name,
            collect_unused keys used (Store.stop store key).1 u name,
          )
          | inr is_used ↦ elim (Result-cases (collect_keys managers keys store u).0) [
            | inr (e, failed) ↦ absurd (ground arith)
            | inl (rest, collected) ↦
                ground (arith, eq_iff key name, collect_unused keys rest store u name collected)
          ]
        ]
      ]
