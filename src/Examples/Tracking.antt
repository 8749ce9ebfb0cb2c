-- ===== src/Examples/Tracking.antt =====
-- A condition that a failed step changes.
use cluster_api_control_plan.Prelude.{String, some, List, [], ◌≡◌, ◌≢◌}
use cluster_api_control_plan.Errors.{message}
use cluster_api_control_plan.Api.{Condition}
use cluster_api_control_plan.Conditions.{track_condition_type}
use cluster_api_control_plan.Conditions.Laws.{IsOutcome, current, track_condition_type-IsOutcome}
use cluster_api_control_plan.Samples.Parameters.{list_conditions, list_conditions_laws}

abbrev tracked : List Condition
tracked =
    track_condition_type list_conditions [] "InfrastructureClusterPatched" 2 100
      (some (message "x"))

track_condition_type-IsOutcome_example :
    (c : Condition) × (list_conditions.find_status_condition tracked "InfrastructureClusterPatched"
      ≡ some c)
    × IsOutcome list_conditions 2 100
        (some (message "x"))
        (current list_conditions list_conditions_laws [] "InfrastructureClusterPatched")
        c
    × ((other : String)
        → "InfrastructureClusterPatched" ≢ other
        → list_conditions.find_status_condition tracked other
          ≡ list_conditions.find_status_condition [] other)
track_condition_type-IsOutcome_example =
    track_condition_type-IsOutcome list_conditions list_conditions_laws []
      "InfrastructureClusterPatched" 2 100 (some (message "x"))
