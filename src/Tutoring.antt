-- ===== src/Tutoring.antt =====
-- src/tutoring.rs: a compact session is expanded into the canonical request.
pub mod Requests
pub mod Checks
pub mod Scan
pub mod Emit
pub mod Expand
pub mod Numbers
pub mod Slots
pub mod Counting
pub mod Order
pub mod Whole
pub mod Complete
pub mod References
mod Examples
