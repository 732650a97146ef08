-- ===== src/Protocol/Transition.antt =====
-- crates/protocol/src/state.rs, the state transition.
pub mod Slots
pub mod Header
pub mod Justifications
pub mod Attestations
pub mod Driver
