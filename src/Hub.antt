-- ===== src/Hub.antt =====
-- pkg/hub: the controllers that run on the hub.
pub mod ManagedCluster
pub mod RbacFinalizer
pub mod Csr
pub mod Lease
pub mod ClusterSet
pub mod ClusterRole
pub mod AddOnHealth
