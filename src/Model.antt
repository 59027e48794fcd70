-- ===== src/Model.antt =====
-- The data of src/model.rs, and the records of src/production.rs that a session carries.
pub mod Formats
pub mod Evidence
pub mod Requests
pub mod Production
pub mod Session
pub mod Numbers
pub mod Keys
mod Examples
