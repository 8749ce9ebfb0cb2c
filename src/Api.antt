-- ===== src/Api.antt =====
-- The API objects: the types of api/v1alpha1, and of the third-party types the fields that the
-- controllers read or write. A value that the controllers only copy (a container, a toleration, a
-- resource list) is an `Opaque`, its JSON text. A slice or a map is a list, under `Option` where the
-- code tells nil from empty.
pub mod Meta
pub mod Spec
pub mod Objects
pub mod Tenant
pub mod Template
pub use Meta.*
pub use Spec.*
pub use Objects.*
pub use Tenant.*
pub use Template.*
