-- ===== src/Kube.antt =====
-- The libraries through which the controllers reach the API servers, as parameters: what a call is
-- answered may depend on every call before it, and nothing else is assumed of an answer.
pub mod Retry
pub mod Sets
pub mod Writer
use cluster_api_control_plan.Prelude.{ℕ, String, Bool, Option, none, some, List, [], ◌∷◌, ◌≡◌}
use cluster_api_control_plan.Prelude.Int.{ℤ}
use cluster_api_control_plan.Errors.{Error, Result, ok, err}
use cluster_api_control_plan.Api.{
  Opaque, Key, StewardControlPlane, Secret, ObjectReference, Cluster, TenantControlPlane,
}

-- Which API server: that of the management cluster, or of an external cluster by its manager.
pub data Server : Type 0 where
  management : Server
  external : ℕ → Server

-- The requests that the controllers send themselves, with the objects that they send.
pub data Call : Type 0 where
  get_steward_control_plane get_cluster : Key → Call
  list_steward_control_planes : String → Call
  get_secret : Server → Key → Call
  get_infrastructure : ObjectReference → Call
  update_steward_control_plane update_steward_control_plane_status : StewardControlPlane → Call
  patch_steward_control_plane : StewardControlPlane → StewardControlPlane → Call
  patch_infrastructure : Opaque → Opaque → Call
  delete_tenant_control_plane : Server → Key → Call
  write_tenant_control_plane : Server → TenantControlPlane → Call
  write_secret : Secret → Call

-- The calls so far, the latest first.
abbrev pub Trace : Type 0
Trace = List Call

abbrev pub Exec {ℓ} : Type ℓ → Type ℓ
Exec A = Trace → Result A × Trace

-- `client.Client`: the answers. An object that the client decodes into the caller's variable is the
-- value of the answer.
pub record Client : Type 0 where
  pub stored_steward_control_plane : Trace → Key → Result StewardControlPlane
  pub stored_cluster : Trace → Key → Result Cluster
  pub stored_secret : Trace → Server → Key → Result Secret
  pub stored_infrastructure : Trace → ObjectReference → Result Opaque
  pub updated_steward_control_plane : Trace → StewardControlPlane → Result StewardControlPlane
  pub updated_status : Trace → StewardControlPlane → Result StewardControlPlane
  pub patched_steward_control_plane :
      Trace → StewardControlPlane → StewardControlPlane → Result StewardControlPlane
  pub patched_infrastructure : Trace → Opaque → Opaque → Result (Unit {0})
  pub deleted_tenant_control_plane : Trace → Server → Key → Result (Unit {0})

-- A call is recorded, whatever its answer is.
abbrev pub request {ℓ} : {A : Type ℓ} → Call → Result A → Exec A
request c answer trace = (answer, c ∷ trace)

abbrev continue {ℓ κ} : {A : Type ℓ} {B : Type κ} → Result A → (A → Exec B) → Exec B
continue (ok a) f trace = f a trace
continue (err e) f trace = (err e, trace)

-- `if err != nil { return err }` after a step
infixl 5 ◌>>=◌ ◌>>◌
abbrev pub ◌>>=◌ {ℓ κ} : {A : Type ℓ} {B : Type κ} → Exec A → (A → Exec B) → Exec B
◌>>=◌ m f trace = continue (m trace).0 f (m trace).1

abbrev pub ◌>>◌ {ℓ κ} : {A : Type ℓ} {B : Type κ} → Exec A → Exec B → Exec B
m >> k = m >>= λ _. k

-- A step that makes no call.
abbrev pub lift {ℓ} : {A : Type ℓ} → Result A → Exec A
lift r trace = (r, trace)
