-- ===== src/Controller.antt =====
-- controllers/: the reconciler of the StewardControlPlane, a part to a module.
pub mod Features
pub mod Remote
pub mod Finalizer
pub mod Infrastructure
pub mod Tenant
pub mod Secrets
pub mod Setup
pub mod Status
pub mod Reconcile
pub mod External
