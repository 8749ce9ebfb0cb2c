-- ===== src/Controller/External/Serving.antt =====
-- The reconciliation of a secret and the control planes that refer to it: the one fills the store
-- that the others read.
use cluster_api_control_plan.Prelude.{
  String, true, false, none, some, List, [], ◌∷◌, ◌≡◌, arith, ℕ, lookup,
}
use cluster_api_control_plan.Errors.{ok}
use cluster_api_control_plan.Api.{Bytes, Secret, ExternalClusterReference, StewardControlPlane}
use cluster_api_control_plan.Kube.{management, Trace}
use cluster_api_control_plan.Ecr.Names.{kubeconfig_namespace, generate_key_name_from_steward}
use cluster_api_control_plan.Ecr.Keys.{NoSlash, entries, key_in, mem-generate_key_name_from_secret}
use cluster_api_control_plan.Ecr.Store.{MapStore}
use cluster_api_control_plan.Controller.External.{reconcile_secret}
use cluster_api_control_plan.Controller.External.Loops.{Managers}
use cluster_api_control_plan.Controller.External.Outcome.{in_use, reconcile_secret_managers}
use cluster_api_control_plan.Controller.Remote.{
  is_nil_entry, Reconciler, secret_key, extract_remote_client,
}
use cluster_api_control_plan.Controller.Remote.Laws.{IsAllowed, IsReady, extract_remote_client_iff}

has-key_in :
    (k : String) (m : List (String × Bytes)) → is_nil_entry (lookup k m) ≡ false → key_in k m ≡ true
unfolding lookup
has-key_in k [] h = cc
has-key_in k ((j, v) ∷ m) h = ground (arith, has-key_in k m)

-- Once the reconciliation of a secret has succeeded, with the store as it left it, a control plane
-- gets a client of the external cluster if its reference is allowed and names the secret, in the
-- namespace it asks for, and an entry of it, the index had the entry's key in use, the secret that is
-- stored is the one that was reconciled, and every external cluster knows the TenantControlPlane
-- kind. The namespace and the name hold no slash.
pub reconciled_secret_serves :
    (r : Reconciler) (scp : StewardControlPlane) (ecr : ExternalClusterReference)
    (managers : Managers) (secret : Secret) (store : MapStore) (t trace : Trace)
    (contents : List (String × Bytes))
    → r.store ≡ (reconcile_secret managers secret store t).1
    → (reconcile_secret managers secret store t).0 ≡ none
    → IsAllowed r.features scp ecr
    → r.client.stored_secret trace management (secret_key r scp ecr) ≡ ok secret
    → secret.meta.namespace ≡ kubeconfig_namespace scp ecr
    → secret.meta.name ≡ ecr.kubeconfig_secret_name
    → secret.contents ≡ some contents
    → is_nil_entry (lookup ecr.kubeconfig_secret_key contents) ≡ false
    → NoSlash (kubeconfig_namespace scp ecr)
    → NoSlash ecr.kubeconfig_secret_name
    → in_use managers (generate_key_name_from_steward scp ecr) ≡ true
    → ((mgr : ℕ) → r.kind_for mgr ≡ none)
    → (mgr : ℕ) × ((extract_remote_client r scp ecr trace).0 ≡ ok mgr)
reconciled_secret_serves r scp ecr managers secret store t trace contents same success allowed
      stored in_namespace named has_contents has_key plain plain_name used has_crd =
    let key = generate_key_name_from_steward scp ecr in
    let has_entry : key_in ecr.kubeconfig_secret_key (entries secret) ≡ true =
      rw has_contents (has-key_in ecr.kubeconfig_secret_key contents has_key) in
    let listed =
      (mem-generate_key_name_from_secret secret scp ecr (rw in_namespace plain)
          (rw named plain_name) plain plain_name).1
        (in_namespace, named, has_entry) in
    let (mgr, running) =
      ((reconcile_secret_managers managers secret store t key).1 success listed).0 used in
    let ready : IsReady r scp ecr trace mgr = record {
      allowed = allowed;
      secret = secret;
      stored = stored;
      contents = contents;
      has_contents = has_contents;
      has_key = has_key;
      running = rw same running;
      has_crd = has_crd mgr;
    } in
    (mgr, (extract_remote_client_iff r scp ecr trace mgr).1 ready)
