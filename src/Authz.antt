-- ===== src/Authz.antt =====
-- internal/authz: the authorization server's endpoints, over the store of internal/session and the
-- set of DPoP identifiers.
pub mod Types
pub mod Par
pub mod Authorize
pub mod Identify
pub mod TokenGrant
pub mod Grant
pub mod Reuse
pub mod Pushed
pub mod Visits
pub mod Identification
pub mod RoundTrip
mod Tests
mod VisitTests
