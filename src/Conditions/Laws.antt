-- ===== src/Conditions/Laws.antt =====
-- What a tracked condition says after a step, and that no other condition changes.
use Prim.Native.Nat.{ℕ}
use cluster_api_control_plan.Prelude.{
  String, Option, none, some, List, [], ◌∷◌, ◌++◌, ◌≡◌, ◌≢◌, refl, sym, ap, ◌∙◌, arith, inl, inr,
  ◌==◌, eq_iff, eq_refl, Option-cases, if◌then◌else◌,
}
use cluster_api_control_plan.Errors.{Error, is_enqueue_back}
use cluster_api_control_plan.Api.{is_true, is_false, unset, Condition}
use cluster_api_control_plan.Conditions.{
  ConditionFunctions, ConditionLaws, new_condition, write_back, outcome, track_condition_type,
  track_panicked,
}

-- The condition that a step leaves, by its error and by what the condition said before: the time of
-- the last transition moves exactly when the status does.
pub record IsOutcome (f : ConditionFunctions) (gen now : ℕ) (e : Option Error) (old new : Condition)
    : Type 0 where
  pub generation : new.observed_generation ≡ gen
  pub succeeded :
      e ≡ none → (new.status ≡ is_true) × (new.reason ≡ "Succeeded") × (new.message ≡ "")
  pub failed :
      (x : Error)
      → e ≡ some x
      → (new.status ≡ is_false)
        × (new.message ≡ f.error_text x)
        × (new.reason ≡ (if is_enqueue_back x then "Failed" else "Pending"))
  pub kept : new.status ≡ old.status → new.last_transition_time ≡ old.last_transition_time
  pub changed : new.status ≢ old.status → new.last_transition_time ≡ some now

outcome-IsOutcome :
    (f : ConditionFunctions) (gen now : ℕ) (e : Option Error) (old : Condition)
    → IsOutcome f gen now e old (outcome f old gen now e)
unfolding outcome
outcome-IsOutcome f gen now none old = record {
  generation = refl;
  succeeded = λ h. (refl, refl, refl);
  failed = λ x h. absurd (cc);
  kept = λ h. ground arith;
  changed = λ h. ground arith;
}
outcome-IsOutcome f gen now (some y) old = record {
  generation = refl;
  succeeded = λ h. absurd (cc);
  failed = λ x h. ground arith;
  kept = λ h. ground arith;
  changed = λ h. ground arith;
}

module _ (f : ConditionFunctions) (laws : ConditionLaws f) where
  abbrev find : List Condition → String → Option Condition
  find = f.find_status_condition

  -- The condition of a type, or a new one.
  abbrev pub current : List Condition → String → Condition
  current cs type = elim (f.find_status_condition cs type) [
    | none ↦ new_condition type
    | some c ↦ c
  ]

  type-find :
      (cs : List Condition) (type : String) (c : Condition) → find cs type ≡ some c → c.type ≡ type
  type-find [] type c h = cc (laws.find-nil type)
  type-find (d ∷ cs) type c h =
      ground (arith, laws.find-cons d cs type, eq_iff d.type type, type-find cs type c)

  find-append :
      (cs : List Condition) (c : Condition) (type : String)
      → find cs c.type ≡ none
      → find (cs ++ c ∷ []) type ≡ (if c.type == type then some c else find cs type)
  find-append [] c type h = ground (arith, laws.find-cons c [] type)
  find-append (d ∷ cs) c type h = ground (
    arith,
    laws.find-cons d cs type,
    laws.find-cons d cs c.type,
    laws.find-cons d (cs ++ c ∷ []) type,
    find-append cs c type,
    eq_iff d.type type,
    eq_iff c.type type,
    eq_iff d.type c.type,
  )

  find-write_back :
      (cs : List Condition) (c old : Condition) (type other : String)
      → find cs type ≡ some old
      → c.type ≡ type
      → find (write_back cs type c) other ≡ (if type == other then some c else find cs other)
  unfolding write_back
  find-write_back [] c old type other h e = cc (laws.find-nil type)
  find-write_back (d ∷ cs) c old type other h e = ground (
    arith,
    laws.find-cons d cs type,
    laws.find-cons d cs other,
    laws.find-cons c cs other,
    laws.find-cons d (write_back cs type c) other,
    find-write_back cs c old type other,
    eq_iff d.type type,
    eq_iff d.type other,
    eq_iff type other,
    eq_iff c.type other,
  )

  last_transition_time-outcome :
      (c : Condition) (gen now : ℕ) (e : Option Error)
      → (t : ℕ) × (c.status ≡ unset → (outcome f c gen now e).last_transition_time ≡ some t)
  unfolding outcome
  last_transition_time-outcome c gen now none = (now, λ h. ground arith)
  last_transition_time-outcome c gen now (some x) = (now, λ h. ground arith)

  type-outcome :
      (c : Condition) (gen now : ℕ) (e : Option Error) → (outcome f c gen now e).type ≡ c.type
  unfolding outcome
  type-outcome c gen now none = refl
  type-outcome c gen now (some x) = refl

  module _ (cs : List Condition) (type : String) (gen now : ℕ) (e : Option Error) where
    track_absent :
        (other : String)
        → find cs type ≡ none
        → find (track_condition_type f cs type gen now e) other ≡ (
            if type == other
            then some (outcome f (new_condition type) gen now e)
            else find cs other)
    unfolding track_condition_type
    track_absent other absent =
        let c : Condition = outcome f (new_condition type) gen now e in
        let same : c.type ≡ type = type-outcome (new_condition type) gen now e in
        let (t, time) = last_transition_time-outcome (new_condition type) gen now e in
        let gone : find cs c.type ≡ none = rw same absent in
        let set : f.set_status_condition cs c ≡ cs ++ c ∷ [] =
          laws.set_absent cs c t gone (time refl) in
        let at_other : find (cs ++ c ∷ []) other
            ≡ (if c.type == other then some c else find cs other) =
          find-append cs c other gone in
        ground (arith, eq_iff type c.type)

    track_present :
        (old : Condition) (other : String)
        → find cs type ≡ some old
        → find (track_condition_type f cs type gen now e) other
          ≡ (if type == other then some (outcome f old gen now e) else find cs other)
    unfolding track_condition_type
    track_present old other found =
        let c : Condition = outcome f old gen now e in
        let same : c.type ≡ type = type-outcome old gen now e ∙ type-find cs type old found in
        let written : (t : String)
            → find (write_back cs type c) t ≡ (if type == t then some c else find cs t) =
          λ t. find-write_back cs c old type t found same in
        let there : find (write_back cs type c) c.type ≡ some c =
          written c.type
          ∙ ap (λ b. if b then some c else find cs c.type) ((eq_iff type c.type).1 (sym same)) in
        let set : f.set_status_condition (write_back cs type c) c ≡ write_back cs type c =
          laws.set_present (write_back cs type c) c there in
        ground (arith, written other)

    find_tracked :
        (other : String)
        → find (track_condition_type f cs type gen now e) other
          ≡ (if type == other then some (outcome f (current cs type) gen now e) else find cs other)
    find_tracked other = elim (Option-cases (find cs type)) [
      | inl absent ↦ rw (absent, current) (track_absent other absent)
      | inr (old, found) ↦ rw (found, current) (track_present old other found)
    ]

    -- After a step the condition of its type records the outcome, whether the condition was there
    -- or is new: its status, reason and message are those of the error or of success, and the time
    -- of its last transition moves exactly when the status does. Every other condition is found as
    -- it was. The functions on conditions have their laws.
    pub track_condition_type-IsOutcome :
        (c : Condition) × (find (track_condition_type f cs type gen now e) type ≡ some c)
        × IsOutcome f gen now e (current cs type) c
        × ((other : String)
            → type ≢ other
            → find (track_condition_type f cs type gen now e) other ≡ find cs other)
    track_condition_type-IsOutcome = (
      outcome f (current cs type) gen now e,
      find_tracked type
          ∙ ap (λ b. if b then some (outcome f (current cs type) gen now e) else find cs type)
              (eq_refl type),
      outcome-IsOutcome f gen now e (current cs type),
      λ other ne. find_tracked other ∙ ground (arith, eq_iff type other),
    )

  -- A callback that panics leaves the conditions of the other types alone.
  pub track_panicked-other :
      (cs : List Condition) (type : String) (gen : ℕ) (other : String)
      → type ≢ other
      → find (track_panicked f cs type gen) other ≡ find cs other
  unfolding track_panicked
  track_panicked-other cs type gen other different = elim (Option-cases (find cs type)) [
    | inl absent ↦
        let c : Condition = record (new_condition type) { observed_generation = gen } in
        rw (absent, track_panicked) (laws.set_other cs c other different)
    | inr (old, found) ↦
        let c : Condition = record old { observed_generation = gen } in
        let same : c.type ≡ type = type-find cs type old found in
        let apart : c.type ≢ other = λ h. different (sym same ∙ h) in
        let written : find (write_back cs type c) other ≡ find cs other =
          find-write_back cs c old type other found same ∙ ground (arith, eq_iff type other) in
        rw (found, track_panicked) (laws.set_other (write_back cs type c) c other apart ∙ written)
  ]
