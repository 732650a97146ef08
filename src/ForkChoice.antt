-- ===== src/ForkChoice.antt =====
-- crates/forkchoice: the clock, the choice of the head and the store.
pub mod Time
pub mod Errors
pub mod Tree
pub mod Head
pub mod Store
pub mod Votes
pub mod Target
pub mod Sound
pub mod Production
mod Examples
