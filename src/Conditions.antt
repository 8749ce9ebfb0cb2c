-- ===== src/Conditions.antt =====
-- controllers/conditions.go: `TrackConditionType`, which records the outcome of a step of the
-- reconciliation as a condition. The callback has run when `track_condition_type` is given its error;
-- `now` is the time that `metav1.Now` returns.
pub mod Laws
pub mod Types
use Prim.Native.Nat.{ℕ}
use cluster_api_control_plan.Prelude.{
  String, Option, none, some, List, [], ◌∷◌, ◌++◌, ◌≡◌, ◌≢◌, ◌==◌, if◌then◌else◌,
}
use cluster_api_control_plan.Errors.{Error, is_enqueue_back}
use cluster_api_control_plan.Api.{ConditionStatus, is_true, is_false, is_unknown, unset, Condition}

-- The functions of `k8s.io/apimachinery/pkg/api/meta` that the code calls, and the text of an error
-- (`err.Error()`).
pub record ConditionFunctions : Type 0 where
  pub find_status_condition : List Condition → String → Option Condition
  pub set_status_condition : List Condition → Condition → List Condition
  pub error_text : Error → String

-- What they document: `FindStatusCondition` finds the first condition of a type, and
-- `SetStatusCondition` appends a condition whose type is not there, changes nothing when the
-- condition of the type has the new one's fields, and leaves every other type alone.
pub record ConditionLaws (f : ConditionFunctions) : Type 0 where
  pub find-nil : (type : String) → f.find_status_condition [] type ≡ none
  pub find-cons :
      (c : Condition) (cs : List Condition) (type : String)
      → f.find_status_condition (c ∷ cs) type
        ≡ (if c.type == type then some c else f.find_status_condition cs type)
  pub set_absent :
      (cs : List Condition) (c : Condition) (t : ℕ)
      → f.find_status_condition cs c.type ≡ none
      → c.last_transition_time ≡ some t
      → f.set_status_condition cs c ≡ cs ++ c ∷ []
  pub set_present :
      (cs : List Condition) (c : Condition)
      → f.find_status_condition cs c.type ≡ some c
      → f.set_status_condition cs c ≡ cs
  pub set_other :
      (cs : List Condition) (c : Condition) (type : String)
      → c.type ≢ type
      → f.find_status_condition (f.set_status_condition cs c) type ≡ f.find_status_condition cs type

-- `&metav1.Condition{Type: …}`
abbrev pub new_condition : String → Condition
new_condition type = record {
  type = type;
  status = unset;
  observed_generation = 0;
  last_transition_time = none;
  reason = "";
  message = "";
}

-- `condition.LastTransitionTime = metav1.Now()` where the status is about to change
abbrev pub transition_to_false : ConditionStatus → Option ℕ → ℕ → Option ℕ
transition_to_false is_false time now = time
transition_to_false _ time now = some now

abbrev pub transition_to_true : ConditionStatus → Option ℕ → ℕ → Option ℕ
transition_to_true is_true time now = time
transition_to_true _ time now = some now

-- A write through the pointer that `FindStatusCondition` returns: the first condition of the type.
unfoldable pub write_back : List Condition → String → Condition → List Condition
write_back [] type c = []
write_back (d ∷ ds) type c = if d.type == type then c ∷ ds else d ∷ write_back ds type c

module _ (f : ConditionFunctions) where
  -- The fields that the callback's outcome gives the condition.
  unfoldable pub outcome : Condition → ℕ → ℕ → Option Error → Condition
  outcome c observed_generation now none = record c {
    status = is_true;
    observed_generation = observed_generation;
    last_transition_time = transition_to_true c.status c.last_transition_time now;
    reason = "Succeeded";
    message = "";
  }
  outcome c observed_generation now (some e) = record c {
    status = is_false;
    observed_generation = observed_generation;
    last_transition_time = transition_to_false c.status c.last_transition_time now;
    reason = if is_enqueue_back e then "Failed" else "Pending";
    message = f.error_text e;
  }

  -- A condition that was found is changed in place, before `SetStatusCondition` sees it again.
  unfoldable pub track_condition_type :
      List Condition → String → ℕ → ℕ → Option Error → List Condition
  track_condition_type conditions type observed_generation now e =
      elim (f.find_status_condition conditions type) [
        | none ↦
            f.set_status_condition conditions
              (outcome (new_condition type) observed_generation now e)
        | some c ↦
            let c' = outcome c observed_generation now e in
            f.set_status_condition (write_back conditions type c') c'
      ]

  -- Where the callback panics, the deferred write still runs, and only the generation has changed.
  unfoldable pub track_panicked : List Condition → String → ℕ → List Condition
  track_panicked conditions type observed_generation =
      elim (f.find_status_condition conditions type) [
        | none ↦
            f.set_status_condition conditions
              (record (new_condition type) { observed_generation = observed_generation })
        | some c ↦
            let c' = record c { observed_generation = observed_generation } in
            f.set_status_condition (write_back conditions type c') c'
      ]
