-- ===== src/Practice/Invariant.antt =====
-- The invariant of the job store: job identifiers are used once, and the status of a reservation
-- is the one that the status of its job calls for.
pub mod Lookup
pub mod Accounts
pub mod Preserved
pub mod Creation
pub mod Reach
