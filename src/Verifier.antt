-- ===== src/Verifier.antt =====
-- internal/verifier: the OpenID4VP Verifier, over the sessions of internal/session.
pub mod Types
pub mod Tokens
pub mod Presentation
pub mod Response
pub mod Create
pub mod Served
pub mod Checked
pub mod Steps
pub mod Verified
pub mod Holder
pub mod Outcome
pub mod Opening
mod Presented
mod Examples
mod Tests
mod PresentedTests
