-- ===== src/ForkChoice/Errors.antt =====
-- crates/forkchoice/src/error.rs
use lean_rust.Prelude.{ℕ}
use lean_rust.Types.Endian.{Bytes32}
use lean_rust.Protocol.Slot.{Slot}
use lean_rust.Protocol.Validator.{ProtocolError}
use lean_rust.Protocol.Errors.{StateTransitionError}
use lean_rust.ForkChoice.Time.{Time}

-- `out_of_fuel` is no error of the code: it marks a loop of the model that used up its fuel.
pub data ForkchoiceError : Type 0 where
  anchor_state_root_mismatch : (got want : Bytes32) → ForkchoiceError
  anchor_time_overflow : (slot : Slot) (per_slot : ℕ) → ForkchoiceError
  time_overflow : Time → ForkchoiceError
  unknown_source_block unknown_target_block : Bytes32 → ForkchoiceError
  source_slot_exceeds_target : ForkchoiceError
  source_checkpoint_slot_mismatch target_checkpoint_slot_mismatch : ForkchoiceError
  unknown_attestation_head_block : Bytes32 → ForkchoiceError
  head_slot_below_target : (head_slot target_slot : Slot) → ForkchoiceError
  head_checkpoint_slot_mismatch : ForkchoiceError
  attestation_too_far_in_future : (vote_slot limit : Slot) → ForkchoiceError
  attestation_future_limit_overflow : Slot → ForkchoiceError
  validator_index_out_of_range : (validator_id num_validators : ℕ) → ForkchoiceError
  unknown_root_block parent_block_not_found : Bytes32 → ForkchoiceError
  no_blocks_available : ForkchoiceError
  unauthorized_proposer : (validator : ℕ) (slot : Slot) → ForkchoiceError
  head_state_not_found unknown_head_block unknown_safe_target : Bytes32 → ForkchoiceError
  block_state_root_mismatch : (got want : Bytes32) → ForkchoiceError
  state_slot_ahead_of_target : (state_slot target_slot : Slot) → ForkchoiceError
  state_transition : StateTransitionError → ForkchoiceError
  protocol : ProtocolError → ForkchoiceError
  out_of_fuel : ForkchoiceError
