-- ===== src/Controller/Finalizer/Deletion.antt =====
-- What `handle_deletion` does, and in which order.
use mathlib.Core.Path.{subst}
use cluster_api_control_plan.Prelude.{
  ℕ, String, true, not, ◌&&◌, Option, none, some, [], ◌∷◌, ◌≡◌, ◌⊎◌, inl, inr, arith, ◌==◌, elem,
  Bool-cases, Option-cases, refl, sym, ap, ◌∙◌,
}
use cluster_api_control_plan.Errors.{Error, is_not_found, ok, err, Result-cases}
use cluster_api_control_plan.Api.{Key, key_of, ExternalClusterReference, StewardControlPlane}
use cluster_api_control_plan.Kube.{
  Server, external, get_steward_control_plane, update_steward_control_plane,
  delete_tenant_control_plane, Trace,
}
use cluster_api_control_plan.Kube.Retry.{Retry, Runs-induction}
use cluster_api_control_plan.Kube.Sets.{StringSets, SetLaws}
use cluster_api_control_plan.Ecr.Names.{generate_remote_tenant_control_plane_names}
use cluster_api_control_plan.Controller.Remote.{Reconciler, extract_remote_client}
use cluster_api_control_plan.Controller.Remote.Laws.{extract_remote_client_reads}
use cluster_api_control_plan.Controller.Finalizer.{
  external_cluster_reference_finalizer, drop_finalizer, handle_deletion, delete_remote, remote_key,
}

module _ (r : Reconciler) (scp : StewardControlPlane) where
  -- The server and the key of the object's remote TenantControlPlane: the external cluster that the
  -- reference resolves to, these being the calls after it, and the generated names.
  abbrev pub IsRemote : Server → Key → Trace → Type 0
  IsRemote server key t =
      (ecr : ExternalClusterReference) × (mgr : ℕ) × (before : Trace)
      × (scp.spec.fields.deployment.external_cluster_reference ≡ some ecr)
      × (extract_remote_client r scp ecr before ≡ (ok mgr, t))
      × (server ≡ external mgr)
      × (key.name ≡ (generate_remote_tenant_control_plane_names scp ecr).name)
      × (key.namespace ≡ (generate_remote_tenant_control_plane_names scp ecr).namespace)

  -- Some call deleted the remote TenantControlPlane, and was accepted.
  abbrev pub HasDeleted : Trace → Type 0
  HasDeleted [] = ⊥
  HasDeleted (delete_tenant_control_plane server key ∷ t) =
      (IsRemote server key t × (r.client.deleted_tenant_control_plane t server key ≡ ok tt))
      ⊎ HasDeleted t
  HasDeleted (_ ∷ t) = HasDeleted t

  -- An update that follows a read of the object, and takes the controller's finalizer, and no other,
  -- off what was read.
  abbrev pub Releases : StewardControlPlane → Trace → Type 0
  Releases sent [] = ⊥
  Releases sent (get_steward_control_plane key ∷ t) =
      (fresh : StewardControlPlane) × (r.client.stored_steward_control_plane t key ≡ ok fresh)
      × ((x : String)
          → elem x sent.meta.finalizers
            ≡ (not (external_cluster_reference_finalizer == x) && elem x fresh.meta.finalizers))
  Releases sent (_ ∷ t) = ⊥

  -- Every update releases the object, after the remote TenantControlPlane was deleted.
  abbrev pub IsOrdered : Trace → Type 0
  IsOrdered [] = Unit
  IsOrdered (update_steward_control_plane sent ∷ t) = HasDeleted t × Releases sent t × IsOrdered t
  IsOrdered (_ ∷ t) = IsOrdered t

module _ (r : Reconciler) (sets : StringSets) (laws : SetLaws sets) (retry : Retry)
    (scp : StewardControlPlane) where
  abbrev Keeps : StewardControlPlane → Trace → Type 0
  Keeps l t = HasDeleted r scp t × IsOrdered r scp t

  abbrev Anything : Option Error × StewardControlPlane × Trace → Type 0
  Anything _ = Unit

  dropped :
      (fresh : StewardControlPlane) (x : String)
      → elem x (
          sets.unsorted_list
            (sets.delete (sets.new fresh.meta.finalizers) external_cluster_reference_finalizer))
        ≡ (not (external_cluster_reference_finalizer == x) && elem x fresh.meta.finalizers)
  dropped fresh x =
      laws.elem-unsorted_list _ x
      ∙ laws.has-delete (sets.new fresh.meta.finalizers) external_cluster_reference_finalizer x
      ∙ ap (λ b. not (external_cluster_reference_finalizer == x) && b)
          (laws.has-new fresh.meta.finalizers x)

  drop_finalizer_step :
      (l : StewardControlPlane) (t : Trace)
      → Keeps l t
      → Keeps (drop_finalizer r sets retry l t).1 (drop_finalizer r sets retry l t).2
        × Anything (drop_finalizer r sets retry l t)
  unfolding drop_finalizer
  drop_finalizer_step current t (deleted, ordered) =
      elim (Result-cases (r.client.stored_steward_control_plane t (key_of current.meta))) [
        | inr (e, failed) ↦ rw (failed, drop_finalizer) ((deleted, ordered), tt)
        | inl (fresh, stored) ↦
            rw (stored, drop_finalizer)
              ((deleted, (deleted, (fresh, stored, λ x. dropped fresh x), ordered)), tt)
      ]

  delete_remote-IsOrdered :
      (server : Server) (key : Key) (t : Trace)
      → IsRemote r scp server key t
      → IsOrdered r scp t
      → IsOrdered r scp (delete_remote r sets retry scp server key t).1
  unfolding delete_remote
  delete_remote-IsOrdered server key t remote ordered =
      elim (Result-cases (r.client.deleted_tenant_control_plane t server key)) [
        | inr (e, failed) ↦ rw (failed, delete_remote) ordered
        | inl (unit, deleted) ↦
            let t' : Trace = delete_tenant_control_plane server key ∷ t in
            let (kept, _) =
              Runs-induction (drop_finalizer r sets retry) Keeps Anything drop_finalizer_step
                (retry.runs _ (drop_finalizer r sets retry) scp t')
                (inl (remote, deleted), ordered) in
            rw (deleted, delete_remote) kept.1
      ]

  extract-IsOrdered :
      (ecr : ExternalClusterReference) (t : Trace)
      → IsOrdered r scp t
      → IsOrdered r scp (extract_remote_client r scp ecr t).1
  extract-IsOrdered ecr t ordered = elim (extract_remote_client_reads r scp ecr t) [
    | inl same ↦ rw same ordered
    | inr (read, _) ↦ rw read ordered
  ]

  -- If every update so far was so ordered, every update after the deletion is: the finalizer is
  -- taken off only after the deletion of the object's remote TenantControlPlane, under its generated
  -- names and on the external cluster that its reference resolved to right before, was accepted; it is
  -- taken off the object as it was just read, and no other finalizer is dropped or added. The sets have their laws.
  pub handle_deletion-IsOrdered :
      (t : Trace) → IsOrdered r scp t → IsOrdered r scp (handle_deletion r sets retry scp t).1
  unfolding handle_deletion
  handle_deletion-IsOrdered t ordered =
      elim (Bool-cases
        (sets.has (sets.new scp.meta.finalizers) external_cluster_reference_finalizer)) [
          | inr absent ↦ results (none, t) (ground arith) ordered
          | inl there ↦ elim (Option-cases scp.spec.fields.deployment.external_cluster_reference) [
            | inl no_reference ↦ results (none, t) (ground arith) ordered
            | inr (ecr, refers) ↦
                let read = extract-IsOrdered ecr t ordered in
                let t' = (extract_remote_client r scp ecr t).1 in
                elim (Result-cases (extract_remote_client r scp ecr t).0) [
                  | inr (e, failed) ↦ results (some e, t') (ground arith) read
                  | inl (mgr, client) ↦
                      results
                        (delete_remote r sets retry scp (external mgr) (remote_key scp ecr) t')
                        (ground arith)
                        (delete_remote-IsOrdered (external mgr) (remote_key scp ecr) t'
                          (ecr, mgr, t, refers, cc client, refl, refl, refl) read)
                ]
          ]
        ]
    where
      results :
          (x : Option Error × Trace)
          → handle_deletion r sets retry scp t ≡ x
          → IsOrdered r scp x.1
          → IsOrdered r scp (handle_deletion r sets retry scp t).1
      results x same h = subst (λ y. IsOrdered r scp y.1) (sym same) h

-- When the object has the finalizer, a remote client is returned, and the remote TenantControlPlane
-- is not found, the deletion reports success and its last call is the refused deletion: no update
-- is sent, and the finalizer stays on the object. The sets have their laws.
pub already_deleted_keeps_finalizer :
    (r : Reconciler) (sets : StringSets) (laws : SetLaws sets) (retry : Retry)
    (scp : StewardControlPlane) (ecr : ExternalClusterReference) (t t' : Trace) (mgr : ℕ)
    (e : Error)
    → elem external_cluster_reference_finalizer scp.meta.finalizers ≡ true
    → scp.spec.fields.deployment.external_cluster_reference ≡ some ecr
    → extract_remote_client r scp ecr t ≡ (ok mgr, t')
    → r.client.deleted_tenant_control_plane t' (external mgr) (remote_key scp ecr) ≡ err e
    → is_not_found e ≡ true
    → handle_deletion r sets retry scp t
      ≡ (none, delete_tenant_control_plane (external mgr) (remote_key scp ecr) ∷ t')
unfolding handle_deletion delete_remote
already_deleted_keeps_finalizer r sets laws retry scp ecr t t' mgr e has refers client gone absent =
    let there : sets.has (sets.new scp.meta.finalizers) external_cluster_reference_finalizer
        ≡ true =
      laws.has-new scp.meta.finalizers external_cluster_reference_finalizer ∙ has in
    ground (arith, there)
