-- ===== src/ForkChoice/Sound.antt =====
-- A sound store: the block tree, the post-states, the checkpoints and the head agree. On such a store
-- the choice of the head cannot fail, and its answer is tracked.
mod Origins
pub mod Ticks
pub mod Ingest
pub mod Growth
pub mod Produces
pub mod Attests
pub mod Anchor
pub use Origins.{IsSound, IsSound-retouch, get_fork_choice_head-tracked}
