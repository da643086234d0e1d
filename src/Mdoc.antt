-- ===== src/Mdoc.antt =====
-- internal/mdocverify: mso_mdoc presentations.
pub mod Cbor
pub mod Cose
pub mod Chain
pub mod Transcript
pub mod Digests
pub mod Verify
pub mod Elements
pub mod Sound
pub mod Device
pub mod Accepted
pub mod Refused
pub mod Binding
pub mod ValidChain
mod Tests
