-- ===== src/Controller/Finalizer/Setting.antt =====
-- What `handle_finalizer` writes.
use cluster_api_control_plan.Prelude.{
  String, true, ◌||◌, Option, none, List, [], ◌∷◌, ◌≡◌, ◌⊎◌, inl, inr, arith, ◌==◌, eq_refl, elem,
  All, Bool-cases, ap, ◌∙◌,
}
use cluster_api_control_plan.Errors.{Error, ok, Result-cases}
use cluster_api_control_plan.Api.{StewardControlPlane, key_of}
use cluster_api_control_plan.Kube.{Call, update_steward_control_plane, Trace, Client}
use cluster_api_control_plan.Kube.Retry.{Retry, Runs-induction}
use cluster_api_control_plan.Kube.Sets.{StringSets, SetLaws}
use cluster_api_control_plan.Controller.Remote.{Reconciler}
use cluster_api_control_plan.Controller.Finalizer.{
  external_cluster_reference_finalizer, set_finalizer, handle_finalizer, update,
}

-- An update carries these finalizers and the controller's own, and no other.
abbrev pub Carries : List String → Call → Type 0
Carries finalizers (update_steward_control_plane sent) =
    (x : String)
    → elem x sent.meta.finalizers ≡ (external_cluster_reference_finalizer == x || elem x finalizers)
Carries finalizers _ = Unit

-- The latest call is an update that carries the controller's finalizer, and it was accepted.
abbrev pub EndsInUpdate : Client → Trace → Type 0
EndsInUpdate client [] = ⊥
EndsInUpdate client (update_steward_control_plane sent ∷ rest) =
    (elem external_cluster_reference_finalizer sent.meta.finalizers ≡ true)
    × ((new : StewardControlPlane) × (client.updated_steward_control_plane rest sent ≡ ok new))
EndsInUpdate client (_ ∷ rest) = ⊥

accepted :
    (client : Client) (sent : StewardControlPlane) (t : Trace)
    → (update client sent t).0 ≡ none
    → (new : StewardControlPlane) × (client.updated_steward_control_plane t sent ≡ ok new)
accepted client sent t h = elim (Result-cases (client.updated_steward_control_plane t sent)) [
  | inl success ↦ success
  | inr (e, failed) ↦ absurd (ground arith)
]

module _ (r : Reconciler) (sets : StringSets) (laws : SetLaws sets) (retry : Retry)
    (scp : StewardControlPlane) where
  -- The captured set holds the finalizers of the start, and perhaps the controller's own.
  abbrev Started : List String → Type 0
  Started finalizers =
      (x : String)
      → (external_cluster_reference_finalizer == x || sets.has finalizers x)
        ≡ (external_cluster_reference_finalizer == x || elem x scp.meta.finalizers)

  abbrev Keeps : StewardControlPlane × List String → Trace → Type 0
  Keeps l t = Started l.1 × All (Carries scp.meta.finalizers) t

  abbrev Wrote : Option Error × (StewardControlPlane × List String) × Trace → Type 0
  Wrote (e, l, t) = e ≡ none → EndsInUpdate r.client t

  inserted :
      (finalizers : List String) (x : String)
      → Started finalizers
      → elem x (sets.unsorted_list (sets.insert finalizers external_cluster_reference_finalizer))
        ≡ (external_cluster_reference_finalizer == x || elem x scp.meta.finalizers)
  inserted finalizers x started =
      laws.elem-unsorted_list _ x
      ∙ laws.has-insert finalizers external_cluster_reference_finalizer x
      ∙ started x

  insert-Started :
      (finalizers : List String)
      → Started finalizers
      → Started (sets.insert finalizers external_cluster_reference_finalizer)
  insert-Started finalizers started x =
      ground (arith, laws.has-insert finalizers external_cluster_reference_finalizer x, started x)

  set_finalizer_step :
      (l : StewardControlPlane × List String) (t : Trace)
      → Keeps l t
      → Keeps (set_finalizer r sets retry l t).1 (set_finalizer r sets retry l t).2
        × Wrote (set_finalizer r sets retry l t)
  unfolding set_finalizer
  set_finalizer_step (current, finalizers) t (started, carried) =
      elim (Result-cases (r.client.stored_steward_control_plane t (key_of current.meta))) [
        | inr (e, failed) ↦ rw (failed, set_finalizer) ((started, (tt, carried)), λ h. absurd (cc))
        | inl (fresh, stored) ↦
            rw (stored, set_finalizer)
              (
                (
                  insert-Started finalizers started,
                  ((λ x. inserted finalizers x started), (tt, carried)),
                ),
                λ h. (
                  inserted finalizers external_cluster_reference_finalizer started
                      ∙ ap (λ b. b || elem external_cluster_reference_finalizer scp.meta.finalizers)
                          (eq_refl external_cluster_reference_finalizer),
                  accepted r.client _ _ h,
                ),
              )
      ]

  -- Every update that is sent carries exactly the finalizers that the reconciliation started from
  -- and the controller's own, whatever the object holds when it is read again, if every update
  -- before did; if no error is reported, the finalizer was there or the last call is an update that
  -- carries it, and was accepted. The sets have their laws.
  pub handle_finalizer_lem :
      (trace : Trace)
      → All (Carries scp.meta.finalizers) trace
      → All (Carries scp.meta.finalizers) (handle_finalizer r sets retry scp trace).2
        × ((handle_finalizer r sets retry scp trace).0 ≡ none
            → ((elem external_cluster_reference_finalizer scp.meta.finalizers ≡ true)
                ⊎ EndsInUpdate r.client (handle_finalizer r sets retry scp trace).2))
  unfolding handle_finalizer
  handle_finalizer_lem trace carried =
      let start : StewardControlPlane × List String = (scp, sets.new scp.meta.finalizers) in
      let started : Started start.1 = λ x.
        ap (λ b. external_cluster_reference_finalizer == x || b)
          (laws.has-new scp.meta.finalizers x) in
      let (kept, wrote) =
        Runs-induction (set_finalizer r sets retry) Keeps Wrote set_finalizer_step
          (retry.runs _ (set_finalizer r sets retry) start trace) (started, carried) in
      elim (Bool-cases
        (sets.has (sets.new scp.meta.finalizers) external_cluster_reference_finalizer)) [
          | inl there ↦ rw there (
            carried,
            λ h. inl (
                ground
                  (arith, laws.has-new scp.meta.finalizers external_cluster_reference_finalizer)),
          )
          | inr absent ↦ rw absent (kept.1, λ h. inr (wrote h))
        ]
