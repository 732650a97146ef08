-- ===== src/Protocol.antt =====
-- crates/protocol: slots, votes, blocks, the consensus state and its transition.
pub mod Limits
pub mod Slot
pub mod Roots
pub mod Checkpoint
pub mod Vote
pub mod Validator
pub mod Block
pub mod State
pub mod Errors
pub mod Transition
mod Examples
