-- ===== src/Errors.antt =====
-- Errors as values: `k8s.io/apimachinery/pkg/api/errors`, `github.com/pkg/errors` and the errors that
-- the controllers declare.
use cluster_api_control_plan.Prelude.{
  String, Bool, true, false, ◌≡◌, refl, Option, none, some, ◌⊎◌, inl, inr,
}
use cluster_api_control_plan.Net.{AddrError}
use cluster_api_control_plan.Strconv.{NumError}

-- The package-level error values of controllers/.
pub data Sentinel : Type 0 where
  enqueue_back unsupported_certificate_san : Sentinel
  external_cluster_reference_not_enabled cross_namespace_reference : Sentinel
  secret_empty secret_key_empty non_initialized_store tenant_control_plane_not_found : Sentinel

-- `wrap` is what `errors.Wrap` and the verb %w make: a text in front of an error that it holds.
pub data Error : Type 0 where
  not_found conflict api_error message : String → Error
  address : AddrError → Error
  number : NumError → Error
  unmanaged_control_plane_address : String → Error
  sentinel : Sentinel → Error
  wrap : String → Error → Error

pub data Result {ℓ} (A : Type ℓ) : Type ℓ where
  ok : A → Result A
  err : Error → Result A

-- `if err != nil { return err }` after a call
infixl 5 ◌>>=◌
abbrev pub ◌>>=◌ {ℓ κ} : {S : Type ℓ} {T : Type κ} → Result S → (S → Result T) → Result T
err e >>= next = err e
ok s >>= next = next s

-- `if err != nil { return …, errors.Wrap(err, text) }`
abbrev pub wrapped {ℓ} : {A : Type ℓ} → String → Result A → Result A
wrapped text (ok a) = ok a
wrapped text (err e) = err (wrap text e)

-- The error of a result: `nil` is `none`.
abbrev pub error_of {ℓ} : {A : Type ℓ} → Result A → Option Error
error_of (ok a) = none
error_of (err e) = some e

-- `errors.IsNotFound`
unfoldable pub is_not_found : Error → Bool
is_not_found (wrap text e) = is_not_found e
is_not_found (not_found text) = true
is_not_found _ = false

-- `errors.IsConflict`, by which `RetryOnConflict` decides.
unfoldable pub is_conflict : Error → Bool
is_conflict (wrap text e) = is_conflict e
is_conflict (conflict text) = true
is_conflict _ = false

abbrev is_enqueue_back_sentinel : Sentinel → Bool
is_enqueue_back_sentinel enqueue_back = true
is_enqueue_back_sentinel _ = false

-- `errors.Is(err, ErrEnqueueBack)`
unfoldable pub is_enqueue_back : Error → Bool
is_enqueue_back (wrap text e) = is_enqueue_back e
is_enqueue_back (sentinel s) = is_enqueue_back_sentinel s
is_enqueue_back _ = false

-- `errors.As(err, &UnmanagedControlPlaneAddressError{})`
unfoldable pub is_unmanaged_address : Error → Bool
is_unmanaged_address (wrap text e) = is_unmanaged_address e
is_unmanaged_address (unmanaged_control_plane_address kind) = true
is_unmanaged_address _ = false

pub Result-cases {ℓ} :
    {A : Type ℓ} (r : Result A) → ((a : A) × (r ≡ ok a)) ⊎ ((e : Error) × (r ≡ err e))
Result-cases (ok a) = inl (a, refl)
Result-cases (err e) = inr (e, refl)
