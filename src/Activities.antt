-- ===== src/Activities.antt =====
-- src/activities.rs: the catalogue of activities, their configurations and stimuli, and the
-- validation of the activity part of a recorded session.
pub mod Catalog
pub mod Config
pub mod Stimuli
pub mod Recording
pub mod Defaults
pub mod Phases
pub mod Kinds
pub mod Runs
pub mod Items
pub mod Accepted
pub mod Linked
mod Examples
