-- ===== src/Protocol/Transition/Slots.antt =====
-- crates/protocol/src/state.rs: `advance_slot`, `process_slot` and `process_slots`. A method on
-- `&mut self` gives the state that it leaves, on errors too, beside its result.
pub mod Path
use package.lean_rust.Prelude.{
  ℕ, zero, suc, ◌-◌, leb, ◌==◌, if◌then◌else◌, Result, ok, err, ok_or, Outcome, and_then, check,
}
use package.lean_rust.Ssz.Merkleize.{Sha256}
use package.lean_rust.Protocol.Errors.{
  StateTransitionError, slot_overflow, target_slot_not_in_future,
}
use package.lean_rust.Protocol.Slot.{Slot, advance}
use package.lean_rust.Protocol.State.{State, state_root}

abbrev pub Step : Type 0
Step = Outcome State StateTransitionError (Unit {0})

unfoldable pub advance_slot : Slot → Result StateTransitionError Slot
advance_slot slot = ok_or (advance slot) (slot_overflow slot)

module _ (sha256 : Sha256) where
  unfoldable pub process_slot : State → Step
  process_slot s =
      let header = s.latest_block_header in
      (
        if header.state_root == 0
            then record s {
              latest_block_header = record header { state_root = state_root sha256 s };
            }
            else s,
        ok tt,
      )

  -- `for _ in 0..steps`
  unfoldable pub slots_loop : ℕ → State → Step
  slots_loop zero s = (s, ok tt)
  slots_loop (suc steps) s =
      and_then (process_slot s)
        λ s' _. check s' (advance_slot s'.slot) λ next. slots_loop steps (record s' { slot = next })

  unfoldable pub process_slots : State → Slot → Step
  process_slots s target_slot =
      if leb target_slot s.slot
      then (s, err (target_slot_not_in_future s.slot target_slot))
      else slots_loop (target_slot - s.slot) s
