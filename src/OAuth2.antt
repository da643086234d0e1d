-- ===== src/OAuth2.antt =====
-- internal/oauth2: the error model, DPoP proofs, client attestation, PKCE and access tokens.
pub mod Error
pub mod Jose
pub mod Jti
pub mod Dpop
pub mod Attestation
pub mod Token
mod Tests
