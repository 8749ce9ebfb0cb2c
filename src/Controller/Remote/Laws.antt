-- ===== src/Controller/Remote/Laws.antt =====
-- When a remote client is returned, and which secrets are read for one.
use cluster_api_control_plan.Prelude.{
  ℕ, String, Bool, true, false, Option, none, some, List, ◌∷◌, ◌≡◌, ◌⊎◌, inl, inr, ◌↔◌, arith,
  eq_iff, lookup, Option-cases, Bool-cases,
}
use cluster_api_control_plan.Errors.{Result-cases, ok}
use cluster_api_control_plan.Api.{Bytes, Secret, ExternalClusterReference, StewardControlPlane}
use cluster_api_control_plan.Kube.{management, get_secret, Trace}
use cluster_api_control_plan.Ecr.Names.{kubeconfig_namespace, generate_key_name_from_steward}
use cluster_api_control_plan.Ecr.Store.Laws.{view, get_found_iff}
use cluster_api_control_plan.Ecr.Store
use cluster_api_control_plan.Controller.Features.{Features}
use cluster_api_control_plan.Controller.Remote.{
  gate, is_nil_entry, with_crd, Reconciler, manager_for, secret_key, extract_remote_client,
}

-- What lets the reconciler read the secret of a reference.
abbrev pub IsAllowed : Features → StewardControlPlane → ExternalClusterReference → Type 0
IsAllowed features scp ecr =
    (features.external_cluster_reference ≡ true)
    × ((features.external_cluster_reference_cross_namespace ≡ true)
        ⊎ (kubeconfig_namespace scp ecr ≡ scp.meta.namespace))

gate_iff :
    (features : Features) (scp : StewardControlPlane) (ecr : ExternalClusterReference)
    → (gate features scp ecr ≡ none) ↔ IsAllowed features scp ecr
unfolding gate
gate_iff features scp ecr = ground (
  arith,
  eq_iff ecr.kubeconfig_secret_namespace "",
  eq_iff ecr.kubeconfig_secret_namespace scp.meta.namespace,
)

module _ (r : Reconciler) (scp : StewardControlPlane) (ecr : ExternalClusterReference) where
  -- A reference makes at most one call, the read of the secret that it names, and only if the gates
  -- allow it: the secret lies in the namespace of the control plane unless references across
  -- namespaces are enabled.
  pub extract_remote_client_reads :
      (trace : Trace)
      → ((extract_remote_client r scp ecr trace).1 ≡ trace)
        ⊎ (((extract_remote_client r scp ecr trace).1
              ≡ get_secret management (secret_key r scp ecr) ∷ trace)
            × IsAllowed r.features scp ecr)
  unfolding extract_remote_client
  extract_remote_client_reads trace = ground (arith, gate_iff r.features scp ecr)

  -- What the returned manager has gone through.
  pub record IsReady (trace : Trace) (mgr : ℕ) : Type 0 where
    pub allowed : IsAllowed r.features scp ecr
    pub secret : Secret
    pub stored : r.client.stored_secret trace management (secret_key r scp ecr) ≡ ok secret
    pub contents : List (String × Bytes)
    pub has_contents : secret.contents ≡ some contents
    pub has_key : is_nil_entry (lookup ecr.kubeconfig_secret_key contents) ≡ false
    pub running :
        view r.store (generate_key_name_from_steward scp ecr)
        ≡ some (secret.meta.resource_version, mgr)
    pub has_crd : r.kind_for mgr ≡ none

  -- The steps behind the gate, each of which may end it.
  with_crd_inv :
      (o : Option ℕ × Bool) (mgr : ℕ)
      → with_crd r.kind_for o ≡ ok mgr
      → (o ≡ (some mgr, true)) × (r.kind_for mgr ≡ none)
  with_crd_inv (none, true) mgr h = cc
  with_crd_inv (none, false) mgr h = cc
  with_crd_inv (some m, false) mgr h = cc
  with_crd_inv (some m, true) mgr h = ground arith

  manager_for_inv :
      (secret : Secret) (mgr : ℕ)
      → manager_for r scp ecr secret ≡ ok mgr
      → (contents : List (String × Bytes)) × (secret.contents ≡ some contents)
        × (is_nil_entry (lookup ecr.kubeconfig_secret_key contents) ≡ false)
        × (view r.store (generate_key_name_from_steward scp ecr)
            ≡ some (secret.meta.resource_version, mgr))
        × (r.kind_for mgr ≡ none)
  unfolding manager_for
  manager_for_inv secret mgr h = elim (Option-cases secret.contents) [
    | inl no_map ↦ absurd (ground arith)
    | inr (m, found) ↦ elim (Bool-cases (is_nil_entry (lookup ecr.kubeconfig_secret_key m))) [
      | inl is_nil ↦ absurd (ground arith)
      | inr has_key ↦
          let (got, has_crd) =
            with_crd_inv
              (Store.get r.store (generate_key_name_from_steward scp ecr)
                secret.meta.resource_version)
              mgr (ground arith) in
          (
            m,
            found,
            has_key,
            (get_found_iff r.store (generate_key_name_from_steward scp ecr)
                  secret.meta.resource_version mgr).0
                got,
            has_crd,
          )
    ]
  ]

  to_IsReady :
      (trace : Trace) (mgr : ℕ)
      → (extract_remote_client r scp ecr trace).0 ≡ ok mgr
      → IsReady trace mgr
  unfolding extract_remote_client
  to_IsReady trace mgr h = elim (Option-cases (gate r.features scp ecr)) [
    | inr (e, refused) ↦ absurd (ground arith)
    | inl passes ↦
        elim (Result-cases (r.client.stored_secret trace management (secret_key r scp ecr))) [
          | inr (e, failed) ↦ absurd (ground arith)
          | inl (secret, stored) ↦
              let (contents, has_contents, has_key, running, has_crd) =
                manager_for_inv secret mgr (ground arith) in
              record {
                allowed = (gate_iff r.features scp ecr).0 passes;
                secret = secret;
                stored = stored;
                contents = contents;
                has_contents = has_contents;
                has_key = has_key;
                running = running;
                has_crd = has_crd;
              }
        ]
  ]

  from_IsReady :
      (trace : Trace) (mgr : ℕ)
      → IsReady trace mgr
      → (extract_remote_client r scp ecr trace).0 ≡ ok mgr
  unfolding extract_remote_client manager_for
  from_IsReady trace mgr h = ground (
    arith,
    gate_iff r.features scp ecr,
    get_found_iff r.store (generate_key_name_from_steward scp ecr) h.secret.meta.resource_version
        mgr,
    h.allowed,
    h.stored,
    h.has_contents,
    h.has_key,
    h.running,
    h.has_crd,
  )

  -- A remote client is returned exactly when the gates allow the reference, its secret is stored and
  -- has the key, the store runs a manager for that key with the secret's resource version, and the
  -- external cluster knows the TenantControlPlane kind; it is then that manager's.
  pub extract_remote_client_iff :
      (trace : Trace) (mgr : ℕ)
      → ((extract_remote_client r scp ecr trace).0 ≡ ok mgr) ↔ IsReady trace mgr
  extract_remote_client_iff trace mgr = (to_IsReady trace mgr, from_IsReady trace mgr)
