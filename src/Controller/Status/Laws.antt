-- ===== src/Controller/Status/Laws.antt =====
-- What an update of the status sends.
use cluster_api_control_plan.Prelude.{
  Option, none, [], ◌∷◌, ◌≡◌, refl, arith, Option-cases, inl, inr,
}
use cluster_api_control_plan.Errors.{Error, ok, Result-cases}
use cluster_api_control_plan.Api.{key_of, StewardControlPlane}
use cluster_api_control_plan.Kube.{
  get_steward_control_plane, update_steward_control_plane_status, Trace, Client,
}
use cluster_api_control_plan.Kube.Retry.{Retry, Runs-induction}
use cluster_api_control_plan.Controller.Status.{
  Modifier, modified, write_status, update_steward_control_plane_status_of,
}

module _ (client : Client) (modifier_fn : Modifier) where
  -- Every status update follows a read of the object, and sends what was read with the status that the
  -- modifier makes of it.
  abbrev pub IsFresh : Trace → Type 0
  IsFresh [] = Unit
  IsFresh (update_steward_control_plane_status sent ∷ get_steward_control_plane key ∷ t) =
      ((fresh : StewardControlPlane) × (client.stored_steward_control_plane t key ≡ ok fresh)
        × (sent ≡ modified modifier_fn fresh))
      × IsFresh t
  IsFresh (update_steward_control_plane_status sent ∷ _) = ⊥
  IsFresh (_ ∷ t) = IsFresh t

  -- The latest call is a status update that was accepted, with this answer.
  abbrev pub EndsInStatus : StewardControlPlane → Trace → Type 0
  EndsInStatus new [] = ⊥
  EndsInStatus new (update_steward_control_plane_status sent ∷ t) =
      client.updated_status t sent ≡ ok new
  EndsInStatus new (_ ∷ t) = ⊥

  module _ (retry : Retry) where
    abbrev Keeps : StewardControlPlane → Trace → Type 0
    Keeps scp t = IsFresh t

    abbrev Wrote : Option Error × StewardControlPlane × Trace → Type 0
    Wrote r = r.0 ≡ none → EndsInStatus r.1 r.2

    write_status_step :
        (scp : StewardControlPlane) (t : Trace)
        → Keeps scp t
        → Keeps
            (write_status client retry modifier_fn scp t).1
            (write_status client retry modifier_fn scp t).2
          × Wrote (write_status client retry modifier_fn scp t)
    unfolding write_status
    write_status_step scp t fresh_before =
        elim (Result-cases (client.stored_steward_control_plane t (key_of scp.meta))) [
          | inr (e, failed) ↦ rw (failed, write_status) (fresh_before, λ h. absurd (cc))
          | inl (fresh, stored) ↦
              elim (Result-cases (
                client.updated_status (get_steward_control_plane (key_of scp.meta) ∷ t)
                  (modified modifier_fn fresh))) [
                    | inr (e, failed) ↦
                        rw (stored, failed, write_status)
                          (((fresh, stored, refl), fresh_before), λ h. absurd (cc))
                    | inl (new, accepted) ↦
                        rw (stored, accepted, write_status)
                          (((fresh, stored, refl), fresh_before), λ h. accepted)
                  ]
        ]

    -- If it was so before, every status update follows a read of the object, and sends what was
    -- read with only its status changed, as the modifier does; if no error is reported, the last
    -- call is an update that was accepted, and the object is its answer.
    pub update_status-IsFresh :
        (scp : StewardControlPlane) (t : Trace)
        → IsFresh t
        → IsFresh (update_steward_control_plane_status_of client retry modifier_fn scp t).2
          × ((update_steward_control_plane_status_of client retry modifier_fn scp t).0 ≡ none
              → EndsInStatus
                  (update_steward_control_plane_status_of client retry modifier_fn scp t).1
                  (update_steward_control_plane_status_of client retry modifier_fn scp t).2)
    unfolding update_steward_control_plane_status_of
    update_status-IsFresh scp t fresh =
        let body = write_status client retry modifier_fn in
        let (kept, wrote) =
          Runs-induction body Keeps Wrote write_status_step
            (retry.runs StewardControlPlane body scp t) fresh in
        (
          kept,
          λ h. elim (Option-cases (retry.retry_on_conflict StewardControlPlane body scp t).0) [
            | inl success ↦ wrote success
            | inr (e, failed) ↦ absurd (ground arith)
          ],
        )

    -- What `scp` may hold between two runs: what it held at first, or what a run has left in it.
    pub data Captured (scp : StewardControlPlane) : StewardControlPlane → Type 0 where
      given : Captured scp scp
      sent :
          {held fresh : StewardControlPlane} {t : Trace}
          → Captured scp held
          → client.stored_steward_control_plane t (key_of held.meta) ≡ ok fresh
          → Captured scp (modified modifier_fn fresh)
      answered :
          {held new : StewardControlPlane} {t : Trace}
          → Captured scp held
          → client.updated_status t held ≡ ok new
          → Captured scp new

    -- What was sent last, where no error is reported: the object that the call right before has read,
    -- under the name of what `scp` held.
    abbrev pub SentLast : StewardControlPlane → Trace → Type 0
    SentLast scp t =
        (held fresh : StewardControlPlane) × (rest : Trace) × Captured scp held
        × (client.stored_steward_control_plane rest (key_of held.meta) ≡ ok fresh)
        × (t
            ≡ update_steward_control_plane_status (modified modifier_fn fresh)
              ∷ get_steward_control_plane (key_of held.meta)
              ∷ rest)

    write_status-SentLast :
        (scp held : StewardControlPlane) (t : Trace)
        → Captured scp held
        → Captured scp (write_status client retry modifier_fn held t).1
          × ((write_status client retry modifier_fn held t).0 ≡ none
              → SentLast scp (write_status client retry modifier_fn held t).2)
    unfolding write_status
    write_status-SentLast scp held t captured =
        elim (Result-cases (client.stored_steward_control_plane t (key_of held.meta))) [
          | inr (e, failed) ↦ rw (failed, write_status) (captured, λ h. absurd (cc))
          | inl (fresh, stored) ↦
              elim (Result-cases (
                client.updated_status (get_steward_control_plane (key_of held.meta) ∷ t)
                  (modified modifier_fn fresh))) [
                    | inr (e, failed) ↦
                        rw (stored, failed, write_status) (sent captured stored, λ h. absurd (cc))
                    | inl (new, accepted) ↦
                        rw (stored, accepted, write_status)
                          (
                            answered (sent captured stored) accepted,
                            λ h. (held, fresh, t, captured, stored, refl),
                          )
                  ]
        ]

    pub update_status-SentLast :
        (scp : StewardControlPlane) (t : Trace)
        → (update_steward_control_plane_status_of client retry modifier_fn scp t).0 ≡ none
        → SentLast scp (update_steward_control_plane_status_of client retry modifier_fn scp t).2
    unfolding update_steward_control_plane_status_of
    update_status-SentLast scp t h =
        let body = write_status client retry modifier_fn in
        let (_, sends) =
          Runs-induction body (λ l u. Captured scp l) (λ r. r.0 ≡ none → SentLast scp r.2)
            (λ l u p. write_status-SentLast scp l u p) (retry.runs StewardControlPlane body scp t)
            given in
        elim (Option-cases (retry.retry_on_conflict StewardControlPlane body scp t).0) [
          | inl success ↦ sends success
          | inr (e, failed) ↦ absurd (ground arith)
        ]
