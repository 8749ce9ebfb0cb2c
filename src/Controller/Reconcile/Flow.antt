-- ===== src/Controller/Reconcile/Flow.antt =====
-- The flow of a reconciliation: what it keeps, how it ends, and steps in a row.
use cluster_api_control_plan.Prelude.{List, ◌≡◌, refl, ap}
use cluster_api_control_plan.Errors.{Error}
use cluster_api_control_plan.Api.{Condition, StewardControlPlane}
use cluster_api_control_plan.Kube.{Trace}

-- `ctrl.Result{}` without and with an error, and `ctrl.Result{RequeueAfter: time.Second}`.
pub data Ending : Type 0 where
  finished requeued : Ending
  failed : Error → Ending

pub record State : Type 0 where
  pub scp : StewardControlPlane
  pub conditions : List Condition
  pub trace : Trace

pub data Flow (A : Type 0) : Type 0 where
  go_on : A → Flow A
  stop : Ending → Flow A

abbrev pub Step : Type 0 → Type 0
Step A = State → Flow A × State

abbrev continue : {A B : Type 0} → Flow A → (A → Step B) → Step B
continue (go_on a) f s = f a s
continue (stop e) f s = (stop e, s)

infixl 5 ◌>>=◌ ◌>>◌
unfoldable pub ◌>>=◌ : {A B : Type 0} → Step A → (A → Step B) → Step B
◌>>=◌ m f s = continue (m s).0 f (m s).1

unfoldable pub ◌>>◌ : {A B : Type 0} → Step A → Step B → Step B
unfolding ◌>>=◌
m >> k = m >>= λ _. k

-- Steps in a row go on only if each does.
abbrev pub GoesOn : {A : Type 0} → Step A → State → A → State → Type 0
GoesOn m s a s' = m s ≡ (go_on a, s')

split_flow :
    {A B : Type 0} (r : Flow A) (f : A → Step B) (s s' : State) (b : B)
    → continue r f s ≡ (go_on b, s')
    → (a : A) × (r ≡ go_on a) × (f a s ≡ (go_on b, s'))
split_flow (go_on a) f s s' b h = (a, refl, h)
split_flow (stop e) f s s' b h = absurd (cc)

pub GoesOn-bind :
    {A B : Type 0} (m : Step A) (f : A → Step B) (s s' : State) (b : B)
    → GoesOn (m >>= f) s b s'
    → (a : A) × (t : State) × GoesOn m s a t × GoesOn (f a) t b s'
unfolding ◌>>=◌
GoesOn-bind m f s s' b h =
    let (a, same, rest) = split_flow (m s).0 f (m s).1 s' b h in (a, (m s).1, (cc), rest)

pub GoesOn-then :
    {A B : Type 0} (m : Step A) (k : Step B) (s s' : State) (b : B)
    → GoesOn (m >> k) s b s'
    → (a : A) × (t : State) × GoesOn m s a t × GoesOn k t b s'
unfolding ◌>>◌
GoesOn-then m k s s' b h = GoesOn-bind m (λ _. k) s s' b h

-- What each step preserves, whether it goes on or stops, steps in a row preserve.
abbrev pub Preserves : {A : Type 0} → (State → Type 0) → Step A → Type 0
Preserves R m = (s : State) → R s → R (m s).1

continue-Preserves :
    {A B : Type 0} (R : State → Type 0) (r : Flow A) (f : A → Step B) (s : State)
    → ((a : A) → Preserves R (f a))
    → R s
    → R (continue r f s).1
continue-Preserves R (go_on a) f s kept h = kept a s h
continue-Preserves R (stop e) f s kept h = h

pub Preserves-bind :
    {A B : Type 0} (R : State → Type 0) (m : Step A) (f : A → Step B)
    → Preserves R m
    → ((a : A) → Preserves R (f a))
    → Preserves R (m >>= f)
unfolding ◌>>=◌
Preserves-bind R m f first rest s h = continue-Preserves R (m s).0 f (m s).1 rest (first s h)

pub Preserves-then :
    {A B : Type 0} (R : State → Type 0) (m : Step A) (k : Step B)
    → Preserves R m
    → Preserves R k
    → Preserves R (m >> k)
unfolding ◌>>◌
Preserves-then R m k first rest = Preserves-bind R m (λ _. k) first (λ _. rest)

-- What a step's failing implies, that of steps in a row implies.
abbrev pub Explains : {A : Type 0} → (Error → State → Type 0) → Step A → Type 0
Explains R m = (s : State) (x : Error) → (m s).0 ≡ stop (failed x) → R x (m s).1

stop_as :
    {A B : Type 0} (e d : Ending)
    → ◌≡◌ {A = Flow B} (stop e) (stop d)
    → ◌≡◌ {A = Flow A} (stop e) (stop d)
stop_as e d h = let same : e ≡ d = cc h in ap stop same

continue-Explains :
    {A B : Type 0} (R : Error → State → Type 0) (r : Flow A) (f : A → Step B) (s : State)
    → ((x : Error) → r ≡ stop (failed x) → R x s)
    → ((a : A) → Explains R (f a))
    → (x : Error) → (continue r f s).0 ≡ stop (failed x)
    → R x (continue r f s).1
continue-Explains R (go_on a) f s first rest x h = rest a s x h
continue-Explains R (stop e) f s first rest x h = first x (stop_as e (failed x) h)

pub Explains-bind :
    {A B : Type 0} (R : Error → State → Type 0) (m : Step A) (f : A → Step B)
    → Explains R m
    → ((a : A) → Explains R (f a))
    → Explains R (m >>= f)
unfolding ◌>>=◌
Explains-bind R m f first rest s x h =
    continue-Explains R (m s).0 f (m s).1 (λ y. first s y) rest x h

pub Explains-then :
    {A B : Type 0} (R : Error → State → Type 0) (m : Step A) (k : Step B)
    → Explains R m
    → Explains R k
    → Explains R (m >> k)
unfolding ◌>>◌
Explains-then R m k first rest = Explains-bind R m (λ _. k) first (λ _. rest)
