-- ===== src/Runtime/Examples.antt =====
-- A chain of an anchor and one block, a toy key that slides one epoch at a time, and what the theorems
-- say of them.
use lean_rust.Prelude.{
  ℕ, suc, ◌*◌, ◌^◌, bit_length, ◌≡◌, ◌≢◌, refl, true, none, some, List, [], ◌∷◌, ok, err, arith,
  ◌↔◌, length, ◌+◌,
}
use lean_rust.Types.Endian.{to_be_bytes, to_le_bytes, from_be_bytes, from_le_bytes}
use lean_rust.Maps.Hash
use lean_rust.ForkChoice.Production
use lean_rust.ForkChoice.Store
use lean_rust.Maps.Hash.{contains_key}
use lean_rust.Ssz.Merkleize.{
  Sha256, scalar_chunk, merkleize, merkleize_partial, power_of_two_ceil, reduce, next_level,
  hash_pair,
}
use lean_rust.Types.Bitlist.{new, set_bit, with_length}
use lean_rust.Protocol.Roots.{u64_chunk}
use lean_rust.Protocol.Block.{Block, SignedBlockWithAttestation, block_root, header_root, body_root}
use lean_rust.Protocol.State.{State, state_root, config_root}
use lean_rust.Protocol.Transition.Driver.{state_transition, apply_block}
use lean_rust.Protocol.Transition.Slots.{process_slots, advance_slot, process_slot, slots_loop}
use lean_rust.ForkChoice.Sound.Growth.{NoReturn}
use lean_rust.Protocol.Vote.{Attestation}
use lean_rust.Protocol.Transition.Header.{
  validate_header, push_justified, push_unjustified, seed_genesis, commit_header,
  process_block_header,
}
use lean_rust.Protocol.Transition.Attestations.{
  check_ranges, votes_loop, start_work, process_attestations,
}
use lean_rust.Protocol.Transition.Justifications.{
  read_votes, read_table, from_state, write_votes, write_table, flatten, write_back,
}
use lean_rust.Protocol.Slot.{advance}
use lean_rust.Protocol.Validator.{is_proposer}
use lean_rust.ForkChoice.Store.{Store, seed_anchor, insert_block}
use lean_rust.Runtime.Engine.{
  Engine, from_trusted_head, produce_attestation_vote, tick_interval, VerifyPolicy, PersistPlan,
  BlockImportResult, import_block_capturing_inner, enforces,
}
use lean_rust.Runtime.Engine.Safety.{here, next, ticks, votes, engine-IsSound}
use lean_rust.ForkChoice.Sound.{IsSound}
use lean_rust.ForkChoice.Sound.Anchor.{Anchors, from_trusted_head-IsSound}
use lean_rust.ForkChoice.Sound.Ticks.{tick_interval-StaysSound}
use lean_rust.ForkChoice.Production.{ProducedVote}
use lean_rust.ForkChoice.Sound.Attests.{Attests, produce_attestation_vote-Attests}
use lean_rust.Runtime.Engine.Import.{Acceptable, Imported, import_block-Imported}
use lean_rust.Runtime.Engine.Refusal.{Explains, import_block_refuses}
use lean_rust.Runtime.Verify.{pre_check_over_cap, check_caps, Verifier, verify_positional}
use lean_rust.Runtime.Crypto.{CryptoError}
use lean_rust.Runtime.Verify.Positional.{AllSigned, verify_positional_iff}

-- The first byte in front of a last byte 1.
abbrev pub first_byte : Sha256
first_byte [] = 1
first_byte (b ∷ bytes) = suc (b * 2 ^ 248)

first_byte-pos : (bytes : List ℕ) → first_byte bytes ≢ 0
first_byte-pos [] h = omega (arith, h)
first_byte-pos (b ∷ bytes) h = omega (arith, h)

abbrev genesis : State
genesis = record {
  config = record { genesis_time = 0 };
  slot = 0;
  latest_block_header = record {
    slot = 0;
    proposer_index = 0;
    parent_root = 0;
    state_root = 0;
    body_root = 0;
  };
  latest_justified = record { root = 0; slot = 0 };
  latest_finalized = record { root = 0; slot = 0 };
  historical_block_hashes = [];
  justified_slots = new;
  validators = record { pubkey = []; index = 0 } ∷ [];
  justifications_roots = [];
  justifications_validators = new;
}

abbrev pub anchor : Block
anchor = record {
  slot = 0;
  proposer_index = 0;
  parent_root = 0;
  state_root = 1;
  body = record { attestations = [] };
}

anchor-root : block_root first_byte anchor ≡ 1
unfolding block_root merkleize merkleize_partial power_of_two_ceil bit_length reduce next_level
    hash_pair u64_chunk scalar_chunk to_be_bytes to_le_bytes from_be_bytes from_le_bytes
anchor-root = refl

genesis-root : state_root first_byte genesis ≡ 1
unfolding state_root merkleize merkleize_partial power_of_two_ceil bit_length reduce next_level
    hash_pair u64_chunk scalar_chunk to_be_bytes to_le_bytes from_be_bytes from_le_bytes config_root
genesis-root = refl

pub first_byte-NoReturn : NoReturn first_byte anchor
unfolding block_root merkleize merkleize_partial power_of_two_ceil bit_length reduce next_level
    hash_pair
first_byte-NoReturn b later back = first_byte-pos _ back

abbrev proposer_vote : Attestation
proposer_vote = record {
  validator_id = 0;
  contents = record {
    slot = 1;
    head = record { root = 1; slot = 0 };
    target = record { root = 1; slot = 0 };
    source = record { root = 1; slot = 0 };
  };
}

abbrev pub signed : SignedBlockWithAttestation
signed = record {
  message = record {
    block = record {
      slot = 1;
      proposer_index = 0;
      parent_root = 1;
      state_root = 1;
      body = record { attestations = [] };
    };
    proposer_attestation = proposer_vote;
  };
  signature = [];
}

signed-applies : (state_transition first_byte genesis signed true).1 ≡ ok tt
unfolding state_transition apply_block advance_slot process_slot slots_loop process_slots
    validate_header push_justified push_unjustified seed_genesis commit_header process_block_header
    check_ranges votes_loop start_work process_attestations read_votes read_table from_state
    write_votes write_table flatten write_back state_root header_root body_root block_root merkleize
    merkleize_partial power_of_two_ceil bit_length reduce next_level hash_pair u64_chunk
    scalar_chunk to_be_bytes to_le_bytes from_be_bytes from_le_bytes config_root new advance
    is_proposer set_bit with_length
signed-applies = refl

abbrev seeded : Store
seeded = record {
  time = 0;
  config = record { genesis_time = 0 };
  head = 1;
  safe_target = 1;
  latest_justified = record { root = 1; slot = 0 };
  latest_finalized = record { root = 1; slot = 0 };
  blocks = (1, anchor) ∷ [];
  states = (1, genesis) ∷ [];
  block_order = 1 ∷ [];
  latest_known_votes = [];
  latest_new_votes = [];
}

abbrev pub start : Engine
start = record { store = seeded; verifier = none }

store-seeded : Store.from_trusted_head first_byte genesis anchor ≡ ok seeded
unfolding Store.from_trusted_head seed_anchor insert_block Hash.insert contains_key Hash.get
store-seeded = rw (genesis-root, anchor-root) refl

start-seeded : from_trusted_head first_byte genesis anchor ≡ ok start
unfolding from_trusted_head
start-seeded = rw store-seeded refl

genesis-Anchors : Anchors first_byte genesis anchor
genesis-Anchors = record { headed = refl; proper = λ h. omega (arith, h, anchor-root) }

pub seeded-IsSound : IsSound anchor seeded
seeded-IsSound = from_trusted_head-IsSound first_byte genesis anchor store-seeded genesis-Anchors

engine-IsSound_example :
    IsSound anchor (produce_attestation_vote (tick_interval start true).0 0).0.store
engine-IsSound_example =
    engine-IsSound first_byte genesis anchor start-seeded genesis-Anchors first_byte-NoReturn
      (next (next here (ticks true)) (votes 0))

tick_interval-StaysSound_example :
    (self' : Store) × (Store.tick_interval seeded true ≡ (self', ok tt)) × IsSound anchor self'
tick_interval-StaysSound_example = tick_interval-StaysSound seeded true seeded-IsSound (omega arith)

produce_attestation_vote-Attests_example :
    (self' : Store) × (produced : ProducedVote) × (Production.produce_attestation_vote seeded 0
      ≡ (self', ok produced))
    × IsSound anchor self'
    × Attests self' 0 produced
produce_attestation_vote-Attests_example = produce_attestation_vote-Attests seeded 0 seeded-IsSound

pub signed-root : block_root first_byte signed.message.block ≡ suc (2 ^ 248)
unfolding block_root merkleize merkleize_partial power_of_two_ceil bit_length reduce next_level
    hash_pair u64_chunk scalar_chunk to_be_bytes to_le_bytes from_be_bytes from_le_bytes
signed-root = refl

abbrev after : State
after = (state_transition first_byte genesis signed true).0

signed-Acceptable : Acceptable first_byte start signed VerifyPolicy.skip genesis after
unfolding contains_key Hash.get pre_check_over_cap check_caps enforces
signed-Acceptable = record {
  fresh = rw signed-root refl;
  capped = refl;
  stored = refl;
  gated = refl;
  applies = λ i. ((state_transition first_byte genesis signed true).0, signed-applies i);
}

import_block-Imported_example :
    (self' : Engine) × (plan : PersistPlan) × (import_block_capturing_inner first_byte start signed
        VerifyPolicy.skip
      ≡ (
        self',
        BlockImportResult.accepted
            (block_root first_byte signed.message.block)
            1
            (state_root first_byte after)
            self'.store.head,
        some plan,
      ))
    × Imported first_byte start signed anchor after self' plan
import_block-Imported_example =
    import_block-Imported first_byte start signed seeded-IsSound first_byte-NoReturn
      VerifyPolicy.skip genesis after signed-Acceptable

-- The anchor once more.
abbrev again : SignedBlockWithAttestation
again = record {
  message = record { block = anchor; proposer_attestation = proposer_vote };
  signature = [];
}

again-known : contains_key seeded.blocks (block_root first_byte anchor) ≡ true
unfolding contains_key Hash.get
again-known = rw anchor-root refl

import_block_refuses_example :
    (outcome : BlockImportResult) × (import_block_capturing_inner first_byte start again
        VerifyPolicy.enforce
      ≡ (start, outcome, none))
    × Explains first_byte start again outcome
import_block_refuses_example =
    import_block_refuses first_byte start again VerifyPolicy.enforce
      λ s s' a. cc (a.fresh, again-known)

abbrev no_verifier : Verifier
no_verifier pubkey epoch message signature = err CryptoError.signing

verify_positional_iff_example :
    (verify_positional first_byte genesis.validators no_verifier [] proposer_vote ([] ∷ []) ≡ ok tt)
    ↔ ((length {A = List ℕ} ([] ∷ []) ≡ length {A = Attestation} [] + 1)
        × AllSigned first_byte genesis.validators no_verifier (proposer_vote ∷ []) ([] ∷ []))
verify_positional_iff_example =
    verify_positional_iff first_byte genesis.validators no_verifier [] proposer_vote ([] ∷ [])
