-- ===== src/Examples.antt =====
-- The theorems at concrete inputs.
pub mod Endpoints
pub mod References
pub mod Tracking
pub mod Finalizers
pub mod Clusters
pub mod Managers
pub mod Threads
pub mod Serving
pub mod Startup
pub mod Tenants
pub mod Replicas
pub mod Reconciliations
pub mod Sharing
