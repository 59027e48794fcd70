-- ===== src/Preferences.antt =====
-- The learner's preferences of src/production.rs: their patches, and the row that keeps them.
pub mod Patches
pub mod Stored
pub mod Concurrent
pub mod Plans
pub mod Conforming
pub mod Brief
mod Examples
