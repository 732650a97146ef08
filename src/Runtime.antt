-- ===== src/Runtime.antt =====
-- crates/runtime and crates/crypto: the engine around the store, the one-time keys and the local
-- signer.
pub mod Crypto
pub mod Verify
pub mod Engine
pub mod Keys
pub mod Signer
pub mod Service
pub mod Sync
pub mod Admission
pub mod Lifecycle
mod Examples
