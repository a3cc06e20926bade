-- ===== src/Spoke.antt =====
-- pkg/spoke: the controllers of the agent on the managed cluster.
pub mod Lease
pub mod Creating
pub mod HealthCheck
pub mod Claims
pub mod Registration
pub mod Secret
pub mod Agent
pub mod AddOn
pub mod Joining
