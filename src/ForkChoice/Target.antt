-- ===== src/ForkChoice/Target.antt =====
-- crates/forkchoice/src/store.rs: `get_vote_target`. The second walk has the number of blocks and a
-- slot as its fuel, as the walks of the head.
pub mod Walk
use package.lean_rust.Prelude.{
  ℕ, zero, suc, ◌+◌, max, Bool, ◌&&◌, not, length, ltb, leb, if◌then◌else◌, Result, ok, err, ◌>>=◌,
}
use package.lean_rust.Types.Endian.{Bytes32}
use package.lean_rust.Protocol.Limits.{justification_lookback_slots}
use package.lean_rust.Protocol.Slot.{Slot, is_justifiable_after}
use package.lean_rust.Protocol.Checkpoint.{Checkpoint}
use package.lean_rust.Protocol.Block.{Block}
use package.lean_rust.ForkChoice.Errors.{
  ForkchoiceError, parent_block_not_found, unknown_head_block, unknown_safe_target, out_of_fuel,
}
use package.lean_rust.ForkChoice.Store.{Store}
use package.lean_rust.ForkChoice.Votes.{lookup_block}

abbrev pub Cursor : Type 0
Cursor = Bytes32 × Block

unfoldable pub parent_of : Store → Block → Result ForkchoiceError Cursor
parent_of self block = do
  let parent_root = block.parent_root
  parent_block ← lookup_block self parent_root parent_block_not_found
  ok (parent_root, parent_block)

-- `for _ in 0..rounds`
unfoldable pub toward_safe : Store → Slot → ℕ → Cursor → Result ForkchoiceError Cursor
toward_safe self floor_slot zero cursor = ok cursor
toward_safe self floor_slot (suc rounds) cursor =
    if leb cursor.1.slot floor_slot
    then ok cursor
    else (parent_of self cursor.1 >>= toward_safe self floor_slot rounds)

-- The condition of the second loop.
abbrev pub keeps_walking : Slot → Cursor → Bool
keeps_walking finalized cursor =
    ltb finalized cursor.1.slot && not (is_justifiable_after cursor.1.slot finalized)

unfoldable pub toward_justifiable : Store → Slot → ℕ → Cursor → Result ForkchoiceError Cursor
toward_justifiable self finalized zero cursor =
    if keeps_walking finalized cursor then err out_of_fuel else ok cursor
toward_justifiable self finalized (suc fuel) cursor =
    if keeps_walking finalized cursor
    then (parent_of self cursor.1 >>= toward_justifiable self finalized fuel)
    else ok cursor

unfoldable pub get_vote_target : Store → Result ForkchoiceError Checkpoint
get_vote_target self = do
  head_block ← lookup_block self self.head unknown_head_block
  safe_block ← lookup_block self self.safe_target unknown_safe_target
  let finalized = self.latest_finalized.slot
  near ←
      toward_safe self (max safe_block.slot finalized) justification_lookback_slots
        (self.head, head_block)
  target ← toward_justifiable self finalized (near.1.slot + length self.blocks) near
  ok (record { root = target.0; slot = target.1.slot })
