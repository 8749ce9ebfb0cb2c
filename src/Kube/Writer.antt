-- ===== src/Kube/Writer.antt =====
-- `controllerutil.CreateOrUpdate` of controller-runtime: a parameter, with what it documents. It reads
-- the object, applies the function to what is stored, or to the given object if nothing is, and
-- creates or updates the object if the function changed it.
use cluster_api_control_plan.Prelude.{none, ◌≡◌, ◌⊎◌}
use cluster_api_control_plan.Errors.{Result, ok}
use cluster_api_control_plan.Kube.{Server, Trace}
use cluster_api_control_plan.Kube.Retry.{Body}

-- The object that the function was applied to, what it made of it, and what the object is then: that, or
-- the API server's answer to a write of it.
pub record Applied {T : Type 0} (answer : Trace → T → Result T) (mutate : T → Result T) (object : T)
    : Type 0 where
  pub base : T
  pub sent : T
  pub made : mutate base ≡ ok sent
  pub returned : (object ≡ sent) ⊎ ((t : Trace) × (answer t sent ≡ ok object))

pub record Writer (T : Type 0) : Type 1 where
  -- The answer to a create or an update.
  pub written : Server → Trace → T → Result T
  pub create_or_update : Server → (T → Result T) → Body T
  -- Success means that the function was applied, without an error.
  pub applies :
      (s : Server) (mutate : T → Result T) (o : T) (t : Trace)
      → (create_or_update s mutate o t).0 ≡ none
      → Applied (written s) mutate (create_or_update s mutate o t).1
