-- ===== src/Practice.antt =====
-- src/practice/mod.rs: uploads, recordings and analysis jobs of the recording API.
pub mod Rows
pub mod Create
pub mod Media
pub mod Recordings
pub mod Cleanup
pub mod Requests
pub mod Mime
pub mod Uploads
pub mod Paths
pub mod Invariant
pub mod Idempotency
pub mod Budget
pub mod Claim
pub mod Withdrawn
pub mod Cancellation
pub mod Jobs
mod Examples
