-- ===== src/Ecr.antt =====
-- pkg/externalclusterreference and pkg/indexers: the names by which a kubeconfig secret, the control
-- planes that refer to it and the remote objects find one another, and the store of the managers
-- that run against the external clusters.
pub mod Names
pub mod Keys
pub mod Indexers
pub mod Store
