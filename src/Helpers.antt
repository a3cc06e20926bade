-- ===== src/Helpers.antt =====
-- pkg/helpers/helpers.go: what several controllers share.
pub mod Status
pub mod Cleanup
pub mod Assets
