-- ===== src/OidcServer.antt =====
-- internal/oidcserver: OpenID Connect logins over the Verifier.
pub mod Types
pub mod Store
pub mod Storage
pub mod Login
pub mod Trace
pub mod Ledger
pub mod Tracked
pub mod Refine
pub mod Replies
pub mod SingleUse
pub mod Logins
mod Tests
