-- ===== src/Session.antt =====
-- internal/session: the store of the protocol state, shared by the authorization server
-- (internal/authz) and the Verifier (internal/verifier).
pub mod Types
pub mod Requests
pub mod Codes
pub mod Verifications
pub mod Trace
pub mod SingleUse
pub mod Lifetimes
pub mod Revocation
pub mod Index
mod Tests
