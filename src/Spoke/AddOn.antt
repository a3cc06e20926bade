-- ===== src/Spoke/AddOn.antt =====
-- pkg/spoke/addon: the agent's controllers for the add-ons of its cluster.
pub mod Configuration
pub mod Registration
pub mod Lease
