-- ===== src/Oauth.antt =====
-- src/embedded_oauth.rs, the authorization server, and src/auth.rs, which tests its tokens.
pub mod Server
pub mod Verify
pub mod Bytes
pub mod Tokens
pub mod Once
pub mod Codes
pub mod Exchange
pub mod Issued
pub mod Refresh
mod Examples
