-- ===== src/Protocol/Transition/Header.antt =====
-- crates/protocol/src/state.rs: `process_block_header`. It changes the state in steps, and an error
-- of a later step leaves what the earlier ones did.
pub mod Commit
use package.lean_rust.Prelude.{
  ℕ, zero, suc, ◌+◌, ◌-◌, Bool, true, false, ◌||◌, not, List, [], ◌∷◌, ◌++◌, length, replicate, ltb,
  leb, ◌==◌, if◌then◌else◌, u64_mod, Result, ok, err, ◌>>=◌, ◌>>◌, fail_if, Outcome, and_then,
  check,
}
use package.lean_rust.Types.Endian.{Bytes32}
use package.lean_rust.Types.Bitlist.{Bitlist, TypesError, set_bit}
use package.lean_rust.Ssz.Merkleize.{Sha256}
use package.lean_rust.Protocol.Limits.{historical_roots_limit}
use package.lean_rust.Protocol.Errors.{
  Bound, StateTransitionError, block_slot_mismatch, block_older_than_latest,
  incorrect_block_proposer, block_parent_root_mismatch, state_bound_exceeded, protocol,
}
use package.lean_rust.Protocol.Validator.{ProtocolError, is_proposer}
use package.lean_rust.Protocol.Block.{Block, BlockHeader, header_root, body_root}
use package.lean_rust.Protocol.State.{State, num_validators}
use package.lean_rust.Protocol.Transition.Slots.{Step}

-- `?` on a `ProtocolError`, by its `From` conversion.
abbrev pub from_protocol {ℓ} : {A : Type ℓ} → Result ProtocolError A → Result StateTransitionError A
from_protocol (ok a) = ok a
from_protocol (err e) = err (protocol e)

-- `map_err(|_| StateBoundExceeded { context: .. })`
abbrev pub bound_error {ℓ} :
    {A : Type ℓ} → Bound → Result TypesError A → Result StateTransitionError A
bound_error context (ok a) = ok a
bound_error context (err e) = err (state_bound_exceeded context)

-- The number of slots without a block before this one.
abbrev pub empty_slots : State → Block → ℕ
empty_slots s block = block.slot - s.latest_block_header.slot - 1

-- The validation gate, and the bound on the history; gives the parent root.
unfoldable pub validate_header : Sha256 → State → Block → Result StateTransitionError Bytes32
validate_header sha256 s block = do
  let latest = s.latest_block_header.slot
  fail_if (not (block.slot == s.slot)) (block_slot_mismatch block.slot s.slot)
  fail_if (leb block.slot latest) (block_older_than_latest block.slot latest)
  proposes ← from_protocol (is_proposer block.proposer_index s.slot (num_validators s))
  fail_if (not proposes) (incorrect_block_proposer s.slot block.proposer_index)
  let parent_root = header_root sha256 s.latest_block_header
  fail_if (not (block.parent_root == parent_root))
      (block_parent_root_mismatch block.slot block.parent_root parent_root)
  let next_history_len = length s.historical_block_hashes + 1 + empty_slots s block
  fail_if (leb u64_mod next_history_len || ltb historical_roots_limit next_history_len)
      (state_bound_exceeded Bound.historical_block_hashes)
  ok parent_root

-- `self.justified_slots.set(self.justified_slots.len(), value)`
unfoldable pub push_justified : Bool → State → Step
push_justified value s =
    check s
      (bound_error Bound.justified_slots
        (set_bit historical_roots_limit s.justified_slots s.justified_slots.length value))
      λ bits. (record s { justified_slots = bits }, ok tt)

-- `for _ in 0..empty_slots`
unfoldable pub push_unjustified : ℕ → State → Step
push_unjustified zero s = (s, ok tt)
push_unjustified (suc count) s = and_then (push_justified false s) λ s' _. push_unjustified count s'

-- `if was_genesis { .. }`: the checkpoints get the root of the genesis block.
unfoldable pub seed_genesis : Bool → Bytes32 → State → State
seed_genesis was_genesis parent_root s = record s {
  latest_justified =
      if was_genesis
      then record (s.latest_justified) { root = parent_root }
      else s.latest_justified;
  latest_finalized =
      if was_genesis
      then record (s.latest_finalized) { root = parent_root }
      else s.latest_finalized;
}

abbrev pub append_history : List Bytes32 → State → State
append_history roots s = record s { historical_block_hashes = s.historical_block_hashes ++ roots }

unfoldable pub commit_header : Sha256 → Bytes32 → State → Block → Step
commit_header sha256 parent_root s block =
    let was_genesis = s.latest_block_header.slot == 0 in
    let seeded = seed_genesis was_genesis parent_root s in
    and_then (push_justified was_genesis (append_history (parent_root ∷ []) seeded)) λ s1 _.
      and_then
        (push_unjustified (empty_slots s block)
          (append_history (replicate (empty_slots s block) 0) s1))
        λ s2 _. (
          record s2 {
            latest_block_header = record {
              slot = block.slot;
              proposer_index = block.proposer_index;
              parent_root = block.parent_root;
              state_root = 0;
              body_root = body_root sha256 block.body;
            };
          },
          ok tt,
        )

unfoldable pub process_block_header : Sha256 → State → Block → Step
process_block_header sha256 s block =
    check s (validate_header sha256 s block) λ parent_root. commit_header sha256 parent_root s block
