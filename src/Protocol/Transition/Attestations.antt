-- ===== src/Protocol/Transition/Attestations.antt =====
-- crates/protocol/src/state.rs: `bounded_slot_index` and `process_attestations`.
pub mod Votes
pub mod Counted
pub mod Loop
pub mod Batch
use package.lean_rust.Prelude.{
  ℕ, zero, suc, ◌+◌, ◌-◌, ◌*◌, Bool, true, false, ◌&&◌, not, Option, none, some, List, [], ◌∷◌,
  length, get_or, set, replicate, ltb, leb, ◌==◌, if◌then◌else◌, Result, ok, err, ◌>>=◌, ◌>>◌,
  fail_if, check,
}
use package.lean_rust.Types.Endian.{Bytes32}
use package.lean_rust.Types.Bitlist
use package.lean_rust.Types.Bitlist.{Bitlist}
use package.lean_rust.Maps.BTree
use package.lean_rust.Maps.BTree.{BTreeMap}
use package.lean_rust.Protocol.Limits.{historical_roots_limit}
use package.lean_rust.Protocol.Errors.{
  AttSlotKind, Bound, StateTransitionError, attestation_slot_out_of_range,
  attestation_validator_out_of_range,
}
use package.lean_rust.Protocol.Slot.{Slot, is_justifiable_after}
use package.lean_rust.Protocol.Checkpoint.{Checkpoint}
use package.lean_rust.Protocol.Vote.{Attestation, AttestationData}
use package.lean_rust.Protocol.State.{State, num_validators}
use package.lean_rust.Protocol.Transition.Slots.{Step}
use package.lean_rust.Protocol.Transition.Header.{bound_error}
use package.lean_rust.Protocol.Transition.Justifications.{Justifications, from_state, write_back}

unfoldable pub bounded_slot_index : Slot → AttSlotKind → ℕ → Result StateTransitionError ℕ
bounded_slot_index slot kind len =
    if ltb slot len then ok slot else err (attestation_slot_out_of_range kind slot len)

-- The working copies of the loop.
pub record Work : Type 0 where
  pub justifications : Justifications
  pub justified_slots : Bitlist
  pub latest_justified : Checkpoint
  pub latest_finalized : Checkpoint

-- `bits.get(i) == Some(value)`
abbrev pub reads : Bitlist → ℕ → Bool → Bool
reads bits i value = elim (Bitlist.get bits i) [
  | none ↦ false
  | some b ↦ if value then b else not b
]

unfoldable pub check_ranges : State → Attestation → Result StateTransitionError (Unit {0})
check_ranges s att = do
  let just_len = s.justified_slots.length
  let hist_len = length s.historical_block_hashes
  let source_slot = att.contents.source.slot
  let target_slot = att.contents.target.slot
  _ ← bounded_slot_index source_slot AttSlotKind.source just_len
  _ ← bounded_slot_index source_slot AttSlotKind.source hist_len
  _ ← bounded_slot_index target_slot AttSlotKind.target just_len
  _ ← bounded_slot_index target_slot AttSlotKind.target hist_len
  fail_if (leb (length s.validators) att.validator_id)
      (attestation_validator_out_of_range att.validator_id (num_validators s))

-- The semantic filters. An index in range is its slot.
unfoldable pub acceptable : State → Work → AttestationData → Bool
acceptable s w vote =
    reads w.justified_slots vote.source.slot true
    && reads w.justified_slots vote.target.slot false
    && vote.source.root == get_or s.historical_block_hashes vote.source.slot 0
    && vote.target.root == get_or s.historical_block_hashes vote.target.slot 0
    && ltb vote.source.slot vote.target.slot
    && is_justifiable_after vote.target.slot w.latest_finalized.slot

abbrev pub count_votes : List Bool → ℕ
count_votes [] = 0
count_votes (true ∷ votes) = suc (count_votes votes)
count_votes (false ∷ votes) = count_votes votes

-- `entry(root).or_insert_with(|| vec![false; n])`, with the vote set.
unfoldable pub tally : Justifications → Bytes32 → ℕ → List Bool
tally j root validator =
    let votes : List Bool = elim (BTree.lookup root j.table) [
      | none ↦ replicate j.num_validators false
      | some votes ↦ votes
    ] in
    set votes validator true

-- `(from..from + count).all(|mid| !mid.is_justifiable_after(finalized))`
unfoldable pub none_justifiable : Slot → ℕ → Slot → Bool
none_justifiable from zero finalized = true
none_justifiable from (suc count) finalized =
    not (is_justifiable_after from finalized) && none_justifiable (from + 1) count finalized

-- The target has its supermajority.
unfoldable pub justify_target :
    Work → BTreeMap (List Bool) → AttestationData → Result StateTransitionError Work
justify_target w table vote = do
  bits ←
      bound_error Bound.justified_slots
        (Bitlist.set_bit historical_roots_limit w.justified_slots vote.target.slot true)
  let between = vote.target.slot - (vote.source.slot + 1)
  ok (record {
    justifications = record (w.justifications) { table = BTree.remove vote.target.root table };
    justified_slots = bits;
    latest_justified = vote.target;
    latest_finalized =
        if none_justifiable (vote.source.slot + 1) between w.latest_finalized.slot
        then vote.source
        else w.latest_finalized;
  })

-- An acceptable vote is tallied, and justifies its target at two thirds.
unfoldable pub count_vote : State → Work → Attestation → Result StateTransitionError Work
count_vote s w att =
    let target_root = att.contents.target.root in
    let votes = tally w.justifications target_root att.validator_id in
    let table = BTree.insert target_root votes w.justifications.table in
    if ltb (3 * count_votes votes) (2 * length s.validators)
    then ok (record w { justifications = record (w.justifications) { table = table } })
    else justify_target w table att.contents

-- One round of the loop.
unfoldable pub process_vote : State → Work → Attestation → Result StateTransitionError Work
process_vote s w att =
    check_ranges s att >> (if acceptable s w att.contents then count_vote s w att else ok w)

unfoldable pub votes_loop : State → List Attestation → Work → Result StateTransitionError Work
votes_loop s [] w = ok w
votes_loop s (att ∷ atts) w = process_vote s w att >>= votes_loop s atts

unfoldable pub start_work : State → Justifications → Work
start_work s justifications = record {
  justifications = justifications;
  justified_slots = s.justified_slots;
  latest_justified = s.latest_justified;
  latest_finalized = s.latest_finalized;
}

unfoldable pub process_attestations : State → List Attestation → Step
process_attestations s attestations = check s (from_state s) λ justifications.
    check s (votes_loop s attestations (start_work s justifications)) λ w.
      write_back w.justifications (record s {
        justified_slots = w.justified_slots;
        latest_justified = w.latest_justified;
        latest_finalized = w.latest_finalized;
      })
