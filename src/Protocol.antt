-- ===== src/Protocol.antt =====
-- How the hub (pkg/hub) and the agent (pkg/spoke) bring a cluster in together, through an API server
-- of which the documented behaviour is assumed.
pub mod Server
pub mod Accepting
pub mod Joining
pub mod Heartbeat
pub mod Lapsing
pub mod Renewing
pub mod Settling
pub mod Recovering
pub mod Admitted
pub mod Leaving
pub mod Exposing
