-- ===== src/Controller/Remote.antt =====
-- controllers/stewardcontrolplane_controller_externalreference.go: the client of the external cluster
-- that a StewardControlPlane refers to.
pub mod Laws
use cluster_api_control_plan.Prelude.{
  ℕ, String, Bool, true, false, not, ◌&&◌, Option, none, some, List, [], ◌∷◌, ◌==◌, lookup,
  if◌then◌else◌,
}
use cluster_api_control_plan.Errors.{
  Error, sentinel, external_cluster_reference_not_enabled, cross_namespace_reference, secret_empty,
  secret_key_empty, non_initialized_store, tenant_control_plane_not_found, Result, ok, err, wrapped,
  ◌>>=◌,
}
use cluster_api_control_plan.Api.{
  Key, Bytes, no_bytes, bytes, Secret, ExternalClusterReference, StewardControlPlane,
}
use cluster_api_control_plan.Kube.{
  Server, management, external, Call, get_secret, Trace, Exec, Client, request,
}
use cluster_api_control_plan.Ecr.Names.{kubeconfig_namespace, generate_key_name_from_steward}
use cluster_api_control_plan.Ecr.Store
use cluster_api_control_plan.Ecr.Store.{MapStore}
use cluster_api_control_plan.Controller.Features.{Features}

-- The tests on the feature gates, before anything is read.
unfoldable pub gate : Features → StewardControlPlane → ExternalClusterReference → Option Error
gate features scp ecr =
    if not features.external_cluster_reference
    then some (sentinel external_cluster_reference_not_enabled)
    else if features.external_cluster_reference
        && (not features.external_cluster_reference_cross_namespace
            && (not (ecr.kubeconfig_secret_namespace == "")
                && not (ecr.kubeconfig_secret_namespace == scp.meta.namespace)))
    then some (sentinel cross_namespace_reference)
    else none

-- `secret.Data[key] == nil`
abbrev pub is_nil_entry : Option Bytes → Bool
is_nil_entry none = true
is_nil_entry (some no_bytes) = true
is_nil_entry (some (bytes b)) = false

-- `mgr, found := r.ExternalClusterReferenceStore.Get(…)`, and the REST mapper's answer for the
-- TenantControlPlane resource. The store never reports a nil manager as found.
abbrev pub with_crd : (ℕ → Option Error) → Option ℕ × Bool → Result ℕ
with_crd kind_for (_, false) = err (sentinel non_initialized_store)
with_crd kind_for (none, true) = err (sentinel non_initialized_store)
with_crd kind_for (some mgr, true) = elim (kind_for mgr) [
  | none ↦ ok mgr
  | some _ ↦ err (sentinel tenant_control_plane_not_found)
]

-- What the reconciler holds: its options, the store of managers as it is at the call, and the answer
-- of a manager's REST mapper.
pub record Reconciler : Type 0 where
  pub features : Features
  pub store : MapStore
  pub kind_for : ℕ → Option Error
  pub client : Client

module _ (r : Reconciler) (scp : StewardControlPlane) (ecr : ExternalClusterReference) where
  -- The tests on the secret and the store.
  unfoldable pub manager_for : Secret → Result ℕ
  manager_for secret = elim secret.contents [
    | none ↦ err (sentinel secret_empty)
    | some m ↦
        if is_nil_entry (lookup ecr.kubeconfig_secret_key m)
        then err (sentinel secret_key_empty)
        else with_crd r.kind_for (
            Store.get r.store (generate_key_name_from_steward scp ecr) secret.meta.resource_version)
  ]

  abbrev pub secret_key : Key
  secret_key = record {
    namespace = kubeconfig_namespace scp ecr;
    name = ecr.kubeconfig_secret_name;
  }

  -- The manager whose client is returned.
  unfoldable pub extract_remote_client : Exec ℕ
  extract_remote_client trace = elim (gate r.features scp ecr) [
    | some e ↦ (err e, trace)
    | none ↦
        let answer = r.client.stored_secret trace management secret_key in
        (
          wrapped "could not get external cluster reference secret" answer >>= manager_for,
          get_secret management secret_key ∷ trace,
        )
  ]
