-- ===== src/Controller/External/Loops.antt =====
-- The two loops of the reconciliation of a kubeconfig secret.
use cluster_api_control_plan.Prelude.{
  ℕ, String, Bool, true, false, Option, none, some, List, [], ◌∷◌, lookup, if◌then◌else◌,
}
use cluster_api_control_plan.Errors.{Error, message, Result, ok, err}
use cluster_api_control_plan.Api.{Bytes, no_bytes, Secret, StewardControlPlane}
use cluster_api_control_plan.Kube.{list_steward_control_planes, Trace}
use cluster_api_control_plan.Strings.{split}
use cluster_api_control_plan.Ecr.Store
use cluster_api_control_plan.Ecr.Store.{MapStore}

-- What the controller uses of its libraries: the index as it is during the reconciliation, the
-- configuration of a kubeconfig, a new manager for it, the setup of its controller, and the function
-- that cancels the manager's context.
pub record Managers : Type 0 where
  pub referring : String → Result (List StewardControlPlane)
  pub rest_config_from_kube_config : Bytes → Result String
  pub new_manager : MapStore → String → Result ℕ
  pub setup_push : ℕ → Result (Unit {0})
  pub with_cancel : MapStore → ℕ → ℕ

-- `strings.Split(key, "/")[2]`
abbrev pub third : List String → Option String
third (a ∷ b ∷ c ∷ rest) = some c
third _ = none

-- `secret.Data[…]`, where a missing key gives nil.
abbrev pub content_at : Option (List (String × Bytes)) → String → Bytes
content_at none k = no_bytes
content_at (some m) k = elim (lookup k m) [ none ↦ no_bytes | some b ↦ b ]

abbrev pub kubeconfig_at : Secret → String → Result Bytes
kubeconfig_at secret key = elim (third (split b'/' key)) [
  | none ↦ err (message "panic: index out of range")
  | some k ↦ ok (content_at secret.contents k)
]

abbrev pub is_empty : List StewardControlPlane → Bool
is_empty [] = true
is_empty (c ∷ cs) = false

abbrev pub keep_key : String → Result (List String) → Result (List String)
keep_key key (err e) = err e
keep_key key (ok keys) = ok (key ∷ keys)

module _ (managers : Managers) where
  -- The first loop: the keys that are referred to; the managers of the others are stopped.
  unfoldable pub collect_keys :
      List String → MapStore → Trace → Result (List String) × MapStore × Trace
  collect_keys [] store trace = (ok [], store, trace)
  collect_keys (key ∷ keys) store trace =
      let t = list_steward_control_planes key ∷ trace in
      let dropped = collect_keys keys (Store.stop store key).1 t in
      let kept = collect_keys keys store t in
      elim (managers.referring key) [
        | err e ↦ (err e, store, t)
        | ok items ↦ if is_empty items then dropped else (keep_key key kept.0, kept.1, kept.2)
      ]

  -- A manager for a key, with its cancel function, when none is left under the key.
  unfoldable pub start : Secret → String → MapStore → Result (ℕ × ℕ)
  start secret key store = elim (kubeconfig_at secret key) [
    | err e ↦ err e
    | ok kubeconfig ↦ elim (managers.rest_config_from_kube_config kubeconfig) [
      | err e ↦ err e
      | ok cfg ↦ elim (managers.new_manager store cfg) [
        | err e ↦ err e
        | ok mgr ↦ elim (managers.setup_push mgr) [
          | err e ↦ err e
          | ok u ↦ ok (mgr, managers.with_cancel store mgr)
        ]
      ]
    ]
  ]

  -- One round of the second loop.
  unfoldable pub load_manager : Secret → String → MapStore → Option Error × MapStore
  load_manager secret key store =
      if (Store.get store key secret.meta.resource_version).1
      then (none, store)
      else (let stopped = (Store.stop store key).1 in
          elim (start secret key stopped) [
            | err e ↦ (some e, stopped)
            | ok (mgr, cancel_fn) ↦
                (none, (Store.add stopped key secret.meta.resource_version mgr cancel_fn).1)
          ])

  unfoldable pub load_managers : Secret → List String → MapStore → Option Error × MapStore
  load_managers secret [] store = (none, store)
  load_managers secret (key ∷ keys) store =
      let rest = load_managers secret keys (load_manager secret key store).1 in
      elim (load_manager secret key store).0 [
        | some e ↦ (some e, (load_manager secret key store).1)
        | none ↦ rest
      ]
