-- ===== src/Production.antt =====
-- src/production.rs: what counts as independent production, and which reviews it supports.
pub mod Prompts
pub mod Classes
pub mod Reviews
pub mod Reasons
pub mod Eligible
pub mod Validation
pub mod Accepted
mod Examples
