-- ===== src/Wiring.antt =====
-- How the controllers are put together: the informers that each watches, and what the two processes
-- start.
pub mod Factory
pub mod Hub
pub mod Spoke
pub mod Events
pub mod Starts
