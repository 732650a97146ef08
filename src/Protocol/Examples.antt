-- ===== src/Protocol/Examples.antt =====
-- A registry of one validator, a block at slot 2 with a vote, and what the theorems say of them.
use lean_rust.Prelude.{
  ℕ, some, ◌≤◌, ◌≡◌, ◌≢◌, refl, inl, ◌↔◌, true, false, [], ◌∷◌, ok, err, All, length, arith,
}
use lean_rust.Types.Bytes.{test_bit, write_bit}
use lean_rust.Types.Bitlist
use lean_rust.Types.Bitlist.{Bitlist, get, bit_at, new}
use lean_rust.Types.Bitlist.Laws.{IsValid, after, new-IsValid, set_bit-IsValid}
use lean_rust.Ssz.Merkleize.{Sha256}
use lean_rust.Protocol.Limits.{historical_roots_limit}
use lean_rust.Protocol.Errors.{StateTransitionError, target_slot_not_in_future}
use lean_rust.Protocol.Slot.{is_justifiable_after, isqrt_u64}
use lean_rust.Protocol.Slot.Isqrt.{IsRoot, isqrt_u64-IsRoot}
use lean_rust.Protocol.Slot.Justifiable.{IsCandidate, is_justifiable_after_iff}
use lean_rust.Protocol.Vote.{Attestation}
use lean_rust.Protocol.Block.{Block, BlockHeader, SignedBlockWithAttestation, header_root}
use lean_rust.Protocol.State.{State}
use lean_rust.Protocol.Transition.Slots.{process_slots}
use lean_rust.Protocol.Transition.Slots.Path.{
  process_slots_path, process_slots-eq, cached_root, cached_header,
}
use lean_rust.Protocol.Transition.Header.{process_block_header}
use lean_rust.Protocol.Transition.Header.Commit.{
  IsInSync, Accepts, Commits, process_block_header-Commits, process_block_header_refuses,
}
use lean_rust.Protocol.Transition.Justifications.{Justifications, from_state, write_back}
use lean_rust.Protocol.Transition.Justifications.RoundTrip.{IsTallied, from_state-write_back}
use lean_rust.Protocol.Transition.Attestations.{process_attestations}
use lean_rust.Protocol.Transition.Attestations.Loop.{IsRanged}
use lean_rust.Protocol.Transition.Attestations.Batch.{
  IsConsistent, IsReadable, Applies, process_attestations-Applies, process_attestations_refuses,
}
use lean_rust.Protocol.Transition.Driver.{apply_block, state_transition}
use lean_rust.Protocol.Transition.Driver.Success.{
  Leaves, IsLive, Applicable, caught_up, state_transition-Applies, state_transition_refused,
}

abbrev toy_sha256 : Sha256
toy_sha256 bytes = length bytes

abbrev one_bit : Bitlist
one_bit = after historical_roots_limit new (new-IsValid historical_roots_limit) 0 (omega arith) true

-- The state after the block at slot 1, its state root cached.
abbrev latest : BlockHeader
latest = record { slot = 1; proposer_index = 0; parent_root = 7; state_root = 9; body_root = 5 }

abbrev before : State
before = record {
  config = record { genesis_time = 0 };
  slot = 1;
  latest_block_header = latest;
  latest_justified = record { root = 7; slot = 0 };
  latest_finalized = record { root = 7; slot = 0 };
  historical_block_hashes = 7 ∷ [];
  justified_slots = one_bit;
  validators = record { pubkey = []; index = 0 } ∷ [];
  justifications_roots = [];
  justifications_validators = new;
}

abbrev vote : Attestation
vote = record {
  validator_id = 0;
  contents = record {
    slot = 1;
    head = record { root = header_root toy_sha256 latest; slot = 1 };
    target = record { root = header_root toy_sha256 latest; slot = 1 };
    source = record { root = 7; slot = 0 };
  };
}

abbrev block : Block
block = record {
  slot = 2;
  proposer_index = 0;
  parent_root = header_root toy_sha256 latest;
  state_root = 3;
  body = record { attestations = vote ∷ [] };
}

abbrev signed_block : SignedBlockWithAttestation
signed_block = record {
  message = record { block = block; proposer_attestation = vote };
  signature = [];
}

before-IsInSync : IsInSync before
unfolding new Bitlist.grow
before-IsInSync = record {
  bits =
      set_bit-IsValid historical_roots_limit new (new-IsValid historical_roots_limit) 0
        (omega arith) true;
  covers = refl;
}

before-IsLive : IsLive before
unfolding new Bitlist.grow Bitlist.write get bit_at test_bit write_bit
before-IsLive = record { sync = before-IsInSync; final = inl refl }

before-IsReadable : IsReadable before
unfolding from_state new
before-IsReadable = (_, refl)

block-Accepts : Accepts toy_sha256 (caught_up toy_sha256 before block) block
block-Accepts = record {
  same_slot = refl;
  newer = omega arith;
  registry = omega arith;
  proposes = refl;
  extends_latest = refl;
  room = omega arith;
}

block-Applicable : Applicable toy_sha256 before block
block-Applicable = record {
  later = omega arith;
  bound = omega arith;
  cached = λ h. omega (arith, h);
  header = block-Accepts;
  readable = before-IsReadable;
  room = omega arith;
  votes = ((omega arith, omega arith, omega arith), tt);
}

state_transition-Applies_example :
    (s' : State) × (state_transition toy_sha256 before signed_block false ≡ (s', ok tt))
    × Leaves toy_sha256 before block s'
state_transition-Applies_example =
    state_transition-Applies toy_sha256 before signed_block false before-IsLive block-Applicable

-- A block at the slot of the state.
abbrev late_block : SignedBlockWithAttestation
late_block = record {
  message = record { block = record block { slot = 1 }; proposer_attestation = vote };
  signature = [];
}

late_block_err :
    state_transition toy_sha256 before late_block false
    ≡ ((state_transition toy_sha256 before late_block false).0, err (target_slot_not_in_future 1 1))
unfolding state_transition apply_block process_slots
late_block_err = refl

state_transition_refused_example : (state_transition toy_sha256 before late_block false).0 ≡ before
state_transition_refused_example =
    state_transition_refused toy_sha256 before late_block false
      ((state_transition toy_sha256 before late_block false).0) (target_slot_not_in_future 1 1)
      late_block_err

-- The state that the header of the block leaves, up to its header.
one_bit-IsValid : IsValid historical_roots_limit one_bit
one_bit-IsValid =
    set_bit-IsValid historical_roots_limit new (new-IsValid historical_roots_limit) 0 (omega arith)
      true

abbrev two_bits : Bitlist
two_bits = after historical_roots_limit one_bit one_bit-IsValid 1 (omega arith) false

abbrev between : State
between = record before {
  slot = 2;
  historical_block_hashes = 7 ∷ header_root toy_sha256 latest ∷ [];
  justified_slots = two_bits;
}

between-IsConsistent : IsConsistent between
unfolding new Bitlist.grow Bitlist.write get bit_at test_bit write_bit
between-IsConsistent = record {
  sync = record {
    bits = set_bit-IsValid historical_roots_limit one_bit one_bit-IsValid 1 (omega arith) false;
    covers = refl;
  };
  final = refl;
}

between-IsReadable : IsReadable between
unfolding from_state new
between-IsReadable = (_, refl)

vote-IsRanged : IsRanged between vote
unfolding new Bitlist.grow
vote-IsRanged = record {
  source_bit = omega arith;
  source_root = omega arith;
  target_bit = omega arith;
  target_root = omega arith;
  validator = omega arith;
}

process_attestations-Applies_example :
    (s' : State) × (process_attestations between (vote ∷ []) ≡ (s', ok tt))
    × Applies between (vote ∷ []) s'
process_attestations-Applies_example =
    process_attestations-Applies between (vote ∷ []) between-IsConsistent between-IsReadable
      (omega arith) (vote-IsRanged, tt)

-- The vote of a validator that is not registered.
abbrev stray_vote : Attestation
stray_vote = record vote { validator_id = 5 }

stray_vote_out : ¬ All (IsRanged between) (stray_vote ∷ [])
stray_vote_out all = omega (arith, all.0.validator)

process_attestations_refuses_example :
    (e : StateTransitionError) × (process_attestations between (stray_vote ∷ []) ≡ (between, err e))
process_attestations_refuses_example =
    process_attestations_refuses between (stray_vote ∷ []) between-IsConsistent stray_vote_out

abbrev at_two : State
at_two = record before { slot = 2 }

at_two-IsInSync : IsInSync at_two
at_two-IsInSync = record { bits = before-IsInSync.bits; covers = before-IsInSync.covers }

at_two-Accepts : Accepts toy_sha256 at_two block
at_two-Accepts = record {
  same_slot = refl;
  newer = omega arith;
  registry = omega arith;
  proposes = refl;
  extends_latest = refl;
  room = omega arith;
}

process_block_header-Commits_example :
    (s' : State) × (process_block_header toy_sha256 at_two block ≡ (s', ok tt))
    × Commits toy_sha256 at_two block s'
    × IsInSync s'
process_block_header-Commits_example =
    process_block_header-Commits toy_sha256 at_two block at_two-IsInSync at_two-Accepts

-- A block of another proposer.
abbrev foreign_block : Block
foreign_block = record block { proposer_index = 3 }

foreign_block_out : ¬ Accepts toy_sha256 at_two foreign_block
foreign_block_out a = omega (arith, a.proposes)

process_block_header_refuses_example :
    (e : StateTransitionError) × (process_block_header toy_sha256 at_two foreign_block
      ≡ (at_two, err e))
process_block_header_refuses_example =
    process_block_header_refuses toy_sha256 at_two foreign_block at_two-IsInSync foreign_block_out

before_cached : cached_root toy_sha256 before ≢ 0
before_cached h = omega (arith, h)

process_slots-eq_example :
    process_slots toy_sha256 before 4
    ≡ (record before { slot = 4; latest_block_header = cached_header toy_sha256 before }, ok tt)
process_slots-eq_example =
    process_slots-eq toy_sha256 before 4 (omega arith) (omega arith) before_cached

process_slots_path_example :
    (s1 s2 : State) × (process_slots toy_sha256 before 2 ≡ (s1, ok tt))
    × (process_slots toy_sha256 s1 4 ≡ (s2, ok tt))
    × (process_slots toy_sha256 before 4 ≡ (s2, ok tt))
    × (s1.slot ≡ 2)
    × (s2.slot ≡ 4)
process_slots_path_example =
    process_slots_path toy_sha256 before 2 4 (omega arith) (omega arith) (omega arith)

-- Two roots, one with a vote.
abbrev tallies : Justifications
tallies = record { table = (3, true ∷ []) ∷ (5, false ∷ []) ∷ []; num_validators = 1 }

tallies-IsTallied : IsTallied 1 tallies
tallies-IsTallied = record {
  sized = refl;
  sorted = ((omega arith, tt), (tt, tt));
  even = (refl, (refl, tt));
}

from_state-write_back_example :
    (s' : State) × (write_back tallies before ≡ (s', ok tt)) × (from_state s' ≡ ok tallies)
from_state-write_back_example =
    from_state-write_back tallies before (omega arith) tallies-IsTallied (omega arith)

isqrt_u64-IsRoot_example : (s : ℕ) × (isqrt_u64 10 ≡ some s) × IsRoot s 10
isqrt_u64-IsRoot_example = isqrt_u64-IsRoot 10 (omega arith)

is_justifiable_after_iff_example : (is_justifiable_after 9 3 ≡ true) ↔ ((3 ≤ 9) × IsCandidate 6)
is_justifiable_after_iff_example = is_justifiable_after_iff 9 3 (omega arith)
