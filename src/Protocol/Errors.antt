-- ===== src/Protocol/Errors.antt =====
-- crates/protocol/src/error.rs: the errors of the state transition.
use lean_rust.Prelude.{ℕ}
use lean_rust.Types.Endian.{Bytes32}
use lean_rust.Protocol.Slot.{Slot}
use lean_rust.Protocol.Validator.{ProtocolError}

pub data AttSlotKind : Type 0 where
  source target : AttSlotKind

-- The `context` strings of `StateBoundExceeded`.
pub data Bound : Type 0 where
  historical_block_hashes justified_slots justifications_validators : Bound

pub data StateTransitionError : Type 0 where
  target_slot_not_in_future : (current target : Slot) → StateTransitionError
  slot_overflow : Slot → StateTransitionError
  block_slot_mismatch : (got want : Slot) → StateTransitionError
  block_older_than_latest : (slot latest : Slot) → StateTransitionError
  incorrect_block_proposer : (slot : Slot) (proposer : ℕ) → StateTransitionError
  block_parent_root_mismatch : (slot : Slot) (got want : Bytes32) → StateTransitionError
  attestation_slot_out_of_range : AttSlotKind → (slot : Slot) (len : ℕ) → StateTransitionError
  attestation_validator_out_of_range : (validator num_validators : ℕ) → StateTransitionError
  state_bound_exceeded : Bound → StateTransitionError
  state_root_mismatch : (slot : Slot) (got want : Bytes32) → StateTransitionError
  protocol : ProtocolError → StateTransitionError
