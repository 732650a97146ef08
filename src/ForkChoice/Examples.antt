-- ===== src/ForkChoice/Examples.antt =====
-- A tree of two blocks and one registered validator, and what the theorems say of them.
use lean_rust.Prelude.{
  ℕ, ◌⊎◌, bit_length, suc, ◌≡◌, refl, inl, inr, ◌↔◌, Bool, true, false, some, [], ◌∷◌,
  if◌then◌else◌, Result, ok, err, ok_inj, arith,
}
use lean_rust.Types.Endian.{Bytes32}
use lean_rust.Maps.Hash
use lean_rust.Maps.Hash.{HashMap, IsUnique, contains_key}
use lean_rust.Ssz.Merkleize.{
  Sha256, merkleize, merkleize_partial, power_of_two_ceil, reduce, next_level, hash_pair,
}
use lean_rust.Protocol.Slot.{Slot}
use lean_rust.Protocol.Checkpoint.{Checkpoint}
use lean_rust.Protocol.Vote.{SignedAttestation}
use lean_rust.Protocol.Block.{Block, block_root}
use lean_rust.Protocol.State.{State, state_root}
use lean_rust.ForkChoice.Time.{phase, slot_of}
use lean_rust.ForkChoice.Errors.{ForkchoiceError}
use lean_rust.ForkChoice.Tree.{IsDescending, IsClosed, Climbs}
use lean_rust.ForkChoice.Head.{weight_of, weigh_votes, get_fork_choice_head}
use lean_rust.ForkChoice.Head.Weights.{support}
use lean_rust.ForkChoice.Head.Support.{CountsDescendants, weigh_votes-CountsDescendants}
use lean_rust.ForkChoice.Production.{converge_attestations}
use lean_rust.ForkChoice.Production.Converge.{Settled, Broken, converge_attestations-Ends}
use lean_rust.ForkChoice.Head.Greedy.{Ghost}
use lean_rust.ForkChoice.Head.Origin.{IsOrigin, get_fork_choice_head-Ghost}
use lean_rust.ForkChoice.Store.{Store, head_validator_count, tick_interval, track_block}
use lean_rust.ForkChoice.Store.Tracking.{Fits, Tracks, track_block-Tracks, track_block_refuses}
use lean_rust.ForkChoice.Store.Clock.{Ticked, tick_interval-Ticked}
use lean_rust.ForkChoice.Votes.{validate_attestation, process_attestation}
use lean_rust.ForkChoice.Votes.Accepted.{IsValidVote, validate_attestation_iff}
use lean_rust.ForkChoice.Votes.Pools.{
  IsAdmitted, Routed, process_attestation-Routed, process_attestation_refuses,
}
use lean_rust.ForkChoice.Target.{get_vote_target}
use lean_rust.ForkChoice.Target.Walk.{IsTarget, KeepsLow, get_vote_target-Reaches}

abbrev toy_sha256 : Sha256
toy_sha256 bytes = 77

abbrev block_at : Slot → Bytes32 → Block
block_at slot parent = record {
  slot = slot;
  proposer_index = 0;
  parent_root = parent;
  state_root = 0;
  body = record { attestations = [] };
}

abbrev tree : HashMap Block
tree = (10, block_at 0 0) ∷ (12, block_at 1 10) ∷ []

tree-IsDescending : IsDescending tree
unfolding Hash.get
tree-IsDescending r b p hb hp = ground (arith, hb, hp)

tree-IsClosed : IsClosed tree 0
unfolding Hash.get
tree-IsClosed r b hb above = (block_at 0 0, ground (arith, hb, above))

tree-IsUnique : IsUnique tree
tree-IsUnique = ((λ h. omega (arith, h), tt), (tt, tt))

abbrev votes : HashMap Checkpoint
votes = (0, record { root = 12; slot = 1 }) ∷ []

tree-IsOrigin : IsOrigin tree 10 10 (block_at 0 0)
unfolding Hash.get
tree-IsOrigin = record { tracked = refl; resolved = inl (λ h. omega (arith, h), refl) }

get_fork_choice_head-Ghost_example :
    (head : Bytes32) × (get_fork_choice_head tree 10 votes 0 ≡ ok head)
    × Ghost tree 0 votes 0 head 10
get_fork_choice_head-Ghost_example =
    get_fork_choice_head-Ghost tree tree-IsUnique votes 0 tree-IsDescending 10 10 (block_at 0 0)
      tree-IsOrigin tree-IsClosed

abbrev registered : State
registered = record {
  config = record { genesis_time = 0 };
  slot = 1;
  latest_block_header = record {
    slot = 1;
    proposer_index = 0;
    parent_root = 10;
    state_root = 0;
    body_root = 0;
  };
  latest_justified = record { root = 10; slot = 0 };
  latest_finalized = record { root = 10; slot = 0 };
  historical_block_hashes = 10 ∷ [];
  justified_slots = record { bytes = 1 ∷ []; length = 1 };
  validators = record { pubkey = []; index = 0 } ∷ [];
  justifications_roots = [];
  justifications_validators = record { bytes = []; length = 0 };
}

abbrev store : Store
store = record {
  time = 9;
  config = record { genesis_time = 0 };
  head = 12;
  safe_target = 10;
  latest_justified = record { root = 10; slot = 0 };
  latest_finalized = record { root = 10; slot = 0 };
  blocks = tree;
  states = (12, registered) ∷ [];
  block_order = 10 ∷ 12 ∷ [];
  latest_known_votes = [];
  latest_new_votes = [];
}

head_of : Hash.get store.blocks store.head ≡ some (block_at 1 10)
unfolding Hash.get
head_of = refl

safe_of : Hash.get store.blocks store.safe_target ≡ some (block_at 0 0)
unfolding Hash.get
safe_of = refl

get_vote_target-Reaches_example :
    (target : Checkpoint) × (block : Block) × (get_vote_target store ≡ ok target)
    × (Hash.get tree target.root ≡ some block)
    × (block.slot ≡ target.slot)
    × Climbs tree target.root 12
    × IsTarget 0 target.slot
    × KeepsLow store tree-IsDescending tree-IsClosed 12 target.root
get_vote_target-Reaches_example =
    get_vote_target-Reaches store tree-IsDescending tree-IsClosed (block_at 1 10) (block_at 0 0)
      head_of safe_of

abbrev vote : SignedAttestation
vote = record {
  message = record {
    validator_id = 0;
    contents = record {
      slot = 1;
      head = record { root = 12; slot = 1 };
      target = record { root = 12; slot = 1 };
      source = record { root = 10; slot = 0 };
    };
  };
  signature = [];
}

validate_attestation_iff_example :
    (validate_attestation store vote.message.contents ≡ ok tt)
    ↔ IsValidVote store vote.message.contents
validate_attestation_iff_example = validate_attestation_iff store vote.message.contents

vote-IsValidVote : IsValidVote store vote.message.contents
unfolding Hash.get slot_of
vote-IsValidVote = record {
  source_block = block_at 0 0;
  source_root = 10;
  stands = inr (λ p. omega (arith, p.source_root), refl);
  source = refl;
  target_block = block_at 1 10;
  target = refl;
  head_block = block_at 1 10;
  head = refl;
  source_slot = refl;
  target_slot = refl;
  head_slot = refl;
  rises = omega arith;
  tops = omega arith;
  ticks = omega arith;
  timely = omega arith;
}

vote-IsAdmitted : IsAdmitted store vote
unfolding head_validator_count Hash.get
vote-IsAdmitted = record {
  count = 1;
  counted = refl;
  registered = omega arith;
  valid = vote-IsValidVote;
}

process_attestation-Routed_example :
    (store' : Store) × (moved : Bool) × (process_attestation store vote true ≡ (store', ok moved))
    × Routed store store' vote true
    × (if moved then Unit else store' ≡ store)
process_attestation-Routed_example = process_attestation-Routed store vote tt true vote-IsAdmitted

abbrev stray_vote : SignedAttestation
stray_vote = record { message = record (vote.message) { validator_id = 4 }; signature = [] }

stray_vote_out : ¬ IsAdmitted store stray_vote
unfolding head_validator_count Hash.get
stray_vote_out a = let one : 1 ≡ a.count = ok_inj _ _ a.counted in omega (arith, one, a.registered)

process_attestation_refuses_example :
    (e : ForkchoiceError) × (process_attestation store stray_vote false ≡ (store, err e))
process_attestation_refuses_example =
    process_attestation_refuses store stray_vote tt false stray_vote_out

-- A store with a pending vote, before the last phase of the slot.
abbrev pending : Store
pending = record store { time = 10; latest_new_votes = (0, vote) ∷ [] }

tick_interval-Ticked_example :
    (store' : Store) × (r : Result ForkchoiceError (Unit {0})) × (tick_interval pending false
      ≡ (store', r))
    × Ticked pending store' (phase 11) false
tick_interval-Ticked_example = tick_interval-Ticked pending (tt, tt) false (omega arith)

-- A child of the head.
abbrev child : Block
child = record {
  slot = 2;
  proposer_index = 0;
  parent_root = 12;
  state_root = state_root toy_sha256 registered;
  body = record { attestations = [] };
}

child-root : block_root toy_sha256 child ≡ 77
unfolding block_root merkleize merkleize_partial power_of_two_ceil bit_length reduce next_level
    hash_pair
child-root = refl

child-Fits : Fits toy_sha256 store child registered
unfolding contains_key Hash.get
child-Fits = record { parity = refl; fresh = rw child-root refl; attached = inr refl }

track_block-Tracks_example :
    (store' : Store) × (track_block toy_sha256 store child registered ≡ (store', ok true))
    × Tracks toy_sha256 store child registered store'
track_block-Tracks_example = track_block-Tracks toy_sha256 store child registered child-Fits

abbrev forged : Block
forged = record child { state_root = suc (state_root toy_sha256 registered) }

track_block_refuses_example :
    (e : ForkchoiceError) × (track_block toy_sha256 store forged registered ≡ (store, err e))
track_block_refuses_example =
    track_block_refuses toy_sha256 store forged registered (λ f. omega (arith, f.parity))
      (λ known. omega (arith, known.0))

weigh_votes-CountsDescendants_example :
    (w : HashMap ℕ) × (weigh_votes tree 0 votes [] ≡ ok w)
    × ((r : Bytes32) → weight_of w r ≡ support tree 0 votes r)
    × CountsDescendants tree 0
weigh_votes-CountsDescendants_example =
    weigh_votes-CountsDescendants tree 0 votes tree-IsDescending tree-IsClosed

converge_attestations-Ends_example :
    Settled toy_sha256 store 12 2 0 registered
      (converge_attestations toy_sha256 store 12 2 0 registered)
    ⊎ Broken toy_sha256 store 12 2 0 registered
        (converge_attestations toy_sha256 store 12 2 0 registered)
converge_attestations-Ends_example = converge_attestations-Ends toy_sha256 store 12 2 0 registered
