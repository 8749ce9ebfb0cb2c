-- ===== src/Kube/Retry.antt =====
-- `retry.RetryOnConflict` of client-go: a parameter, with its documented behaviour. The function that
-- it runs changes local variables, `L`, and makes calls.
use mathlib.Core.Path.{subst}
use cluster_api_control_plan.Prelude.{true, Option, some, ◌≡◌}
use cluster_api_control_plan.Errors.{Error, is_conflict}
use cluster_api_control_plan.Kube.{Trace}

abbrev pub Body : Type 0 → Type 0
Body L = L → Trace → Option Error × L × Trace

-- The body runs, and runs again, from where it left off, only after a conflict; the result is that of
-- its last run.
pub data Runs {L : Type 0} (body : Body L) (r : Option Error × L × Trace) : L → Trace → Type 0 where
  last : {l : L} {t : Trace} → body l t ≡ r → Runs body r l t
  again :
      {l l' : L} {t t' : Trace} {e : Error}
      → body l t ≡ (some e, l', t')
      → is_conflict e ≡ true
      → Runs body r l' t'
      → Runs body r l t

pub record Retry : Type 1 where
  pub retry_on_conflict : (L : Type 0) → Body L → Body L
  pub runs :
      (L : Type 0) (body : Body L) (l : L) (t : Trace)
      → Runs body (retry_on_conflict L body l t) l t

-- What every run of the body keeps, the result has, and with it what a run establishes.
module _ {L : Type 0} (body : Body L) (P : L → Trace → Type 0)
    (Q : Option Error × L × Trace → Type 0) where
  pub Runs-induction :
      ((l : L) (t : Trace) → P l t → P (body l t).1 (body l t).2 × Q (body l t))
      → {r : Option Error × L × Trace} {l : L} {t : Trace} → Runs body r l t
      → P l t
      → P r.1 r.2 × Q r
  Runs-induction step (last {l} {t} e) p = subst (λ r. P r.1 r.2 × Q r) e (step l t p)
  Runs-induction step (again {l} {l'} {t} {t'} e c rest) p =
      Runs-induction step rest (subst (λ r. P r.1 r.2) e (step l t p).0)
