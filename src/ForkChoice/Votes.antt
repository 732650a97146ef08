-- ===== src/ForkChoice/Votes.antt =====
-- crates/forkchoice/src/store.rs: the checks of a vote and its way into the vote pools.
pub mod Accepted
pub mod Pools
use package.lean_rust.Prelude.{
  ℕ, Bool, true, false, ◌&&◌, ◌||◌, not, Option, none, some, ltb, leb, ◌==◌, if◌then◌else◌, Result,
  ok, err, ◌>>=◌, ◌>>◌, fail_if, ok_or, Outcome, check,
}
use package.lean_rust.Types.Endian.{Bytes32}
use package.lean_rust.Maps.Hash
use package.lean_rust.Maps.Hash.{HashMap}
use package.lean_rust.Protocol.Slot.{Slot, advance}
use package.lean_rust.Protocol.Checkpoint.{Checkpoint, default_checkpoint, same_checkpoint}
use package.lean_rust.Protocol.Vote.{AttestationData, SignedAttestation}
use package.lean_rust.Protocol.Block.{Block}
use package.lean_rust.ForkChoice.Time.{slot_of}
use package.lean_rust.ForkChoice.Errors.{
  ForkchoiceError, unknown_source_block, unknown_target_block, unknown_attestation_head_block,
  source_slot_exceeds_target, head_slot_below_target, source_checkpoint_slot_mismatch,
  target_checkpoint_slot_mismatch, head_checkpoint_slot_mismatch, attestation_future_limit_overflow,
  attestation_too_far_in_future, validator_index_out_of_range,
}
use package.lean_rust.ForkChoice.Store.{Store, head_validator_count}

unfoldable pub lookup_block :
    Store → Bytes32 → (Bytes32 → ForkchoiceError) → Result ForkchoiceError Block
lookup_block self root error = ok_or (Hash.get self.blocks root) (error root)

-- `.is_some_and(|block| block.slot.is_zero())`
abbrev pub is_slot_zero : Option Block → Bool
is_slot_zero none = false
is_slot_zero (some block) = block.slot == 0

unfoldable pub is_genesis_placeholder : Store → AttestationData → Bool
is_genesis_placeholder self vote =
    same_checkpoint vote.source default_checkpoint
    && vote.slot == 0
    && vote.target.slot == 0
    && vote.target.root == self.latest_justified.root
    && self.latest_justified.slot == 0
    && is_slot_zero (Hash.get self.blocks self.latest_justified.root)

unfoldable pub resolved_source_root : Store → AttestationData → Bytes32
resolved_source_root self vote =
    if is_genesis_placeholder self vote then self.latest_justified.root else vote.source.root

unfoldable pub validate_attestation : Store → AttestationData → Result ForkchoiceError (Unit {0})
validate_attestation self vote = do
  source_block ← lookup_block self (resolved_source_root self vote) unknown_source_block
  target_block ← lookup_block self vote.target.root unknown_target_block
  head_block ← lookup_block self vote.head.root unknown_attestation_head_block
  fail_if (ltb target_block.slot source_block.slot || ltb vote.target.slot vote.source.slot)
      source_slot_exceeds_target
  fail_if (ltb vote.head.slot vote.target.slot)
      (head_slot_below_target vote.head.slot vote.target.slot)
  fail_if (not (source_block.slot == vote.source.slot)) source_checkpoint_slot_mismatch
  fail_if (not (target_block.slot == vote.target.slot)) target_checkpoint_slot_mismatch
  fail_if (not (head_block.slot == vote.head.slot)) head_checkpoint_slot_mismatch
  let current = slot_of self.time
  limit ← ok_or (advance current) (attestation_future_limit_overflow current)
  fail_if (ltb limit vote.slot) (attestation_too_far_in_future vote.slot limit)

unfoldable pub validate_validator_index : Store → ℕ → Result ForkchoiceError (Unit {0})
validate_validator_index self validator_id = do
  num_validators ← head_validator_count self
  fail_if (leb num_validators validator_id)
      (validator_index_out_of_range validator_id num_validators)

-- The map after the call, and whether the vote went in.
unfoldable pub insert_if_newer :
    HashMap SignedAttestation → ℕ → SignedAttestation → HashMap SignedAttestation × Bool
insert_if_newer m validator vote = elim (Hash.get m validator) [
  | none ↦ (Hash.insert m validator vote, true)
  | some existing ↦
      if leb vote.message.contents.slot existing.message.contents.slot
      then (m, false)
      else (Hash.insert m validator vote, true)
]

unfoldable pub evict_if_older :
    HashMap SignedAttestation → ℕ → Slot → HashMap SignedAttestation × Bool
evict_if_older m validator newer_than = elim (Hash.get m validator) [
  | none ↦ (m, false)
  | some existing ↦
      if ltb existing.message.contents.slot newer_than
      then (Hash.remove m validator, true)
      else (m, false)
]

-- The routing of a vote that is valid.
unfoldable pub route_vote : Store → SignedAttestation → Bool → Store × Bool
route_vote self signed_vote is_from_block =
    let validator = signed_vote.message.validator_id in
    let vote_slot = signed_vote.message.contents.slot in
    let (known, promoted) = insert_if_newer self.latest_known_votes validator signed_vote in
    let (kept, evicted) = evict_if_older self.latest_new_votes validator vote_slot in
    let (new, inserted) = insert_if_newer self.latest_new_votes validator signed_vote in
    if is_from_block
    then (record self { latest_known_votes = known; latest_new_votes = kept }, promoted || evicted)
    else (record self { latest_new_votes = new }, inserted)

unfoldable pub process_attestation :
    Store → SignedAttestation → Bool → Outcome Store ForkchoiceError Bool
process_attestation self signed_vote is_from_block =
    check self (validate_validator_index self signed_vote.message.validator_id) λ _.
      check self (validate_attestation self signed_vote.message.contents)
        λ _. let (self', moved) = route_vote self signed_vote is_from_block in (self', ok moved)
