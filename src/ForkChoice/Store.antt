-- ===== src/ForkChoice/Store.antt =====
-- crates/forkchoice/src/store.rs: the store, its construction and its clock. A method on `&mut self`
-- gives the store that it leaves, on errors too, beside its result.
pub mod Tracking
pub mod Clock
use package.lean_rust.Prelude.{
  ℕ, zero, suc, ◌+◌, ◌*◌, ◌/◌, ◌-◌, min, max, Bool, true, false, ◌&&◌, ◌||◌, not, Option, none,
  some, List, [], ◌∷◌, ◌++◌, length, map, ltb, leb, ◌==◌, if◌then◌else◌, Result, ok, err, ◌>>=◌,
  ◌>>◌, fail_if, ok_or, Outcome, and_then, check, u64_mod,
}
use package.lean_rust.Types.Endian.{Bytes32}
use package.lean_rust.Maps.Hash
use package.lean_rust.Maps.Hash.{HashMap}
use package.lean_rust.Ssz.Merkleize.{Sha256}
use package.lean_rust.Protocol.Limits.{intervals_per_slot}
use package.lean_rust.Protocol.Slot.{Slot}
use package.lean_rust.Protocol.Checkpoint.{Checkpoint, default_checkpoint, same_checkpoint}
use package.lean_rust.Protocol.Vote.{SignedAttestation}
use package.lean_rust.Protocol.Block.{Block, block_root}
use package.lean_rust.Protocol.State.{State, ProtocolConfig, num_validators, state_root}
use package.lean_rust.ForkChoice.Time.{
  Time, Phase, proposal, idle, update_safe_target, accept_new_votes, phase, checked_advance,
}
use package.lean_rust.ForkChoice.Errors.{
  ForkchoiceError, anchor_state_root_mismatch, anchor_time_overflow, time_overflow,
  head_state_not_found, block_state_root_mismatch, parent_block_not_found,
}
use package.lean_rust.ForkChoice.Head.{get_fork_choice_head}

pub record Store : Type 0 where
  pub time : Time
  pub config : ProtocolConfig
  pub head : Bytes32
  pub safe_target : Bytes32
  pub latest_justified : Checkpoint
  pub latest_finalized : Checkpoint
  pub blocks : HashMap Block
  pub states : HashMap State
  pub block_order : List Bytes32
  pub latest_known_votes : HashMap SignedAttestation
  pub latest_new_votes : HashMap SignedAttestation

abbrev pub StoreStep : Type 0
StoreStep = Outcome Store ForkchoiceError (Unit {0})

-- `HashMap::insert` returns `None` for a key that was absent.
unfoldable pub insert_block : Store → Bytes32 → Block → State → Store
insert_block self root block state =
    let blocks = Hash.insert self.blocks root block in
    if Hash.contains_key self.blocks root then record self { blocks = blocks } else record self {
      blocks = blocks;
      states = Hash.insert self.states root state;
      block_order = self.block_order ++ root ∷ [];
    }

unfoldable pub normalize_genesis_checkpoint : Checkpoint → Slot → Bytes32 → Checkpoint
normalize_genesis_checkpoint checkpoint anchor_slot anchor_root =
    if anchor_slot == 0 && same_checkpoint checkpoint default_checkpoint
    then record { root = anchor_root; slot = 0 }
    else checkpoint

module _ (sha256 : Sha256) where
  unfoldable pub seed_anchor :
      State → Block → (Bytes32 → Slot → Checkpoint × Checkpoint) → Result ForkchoiceError Store
  seed_anchor state anchor_block checkpoints = do
    let want_state_root = state_root sha256 state
    fail_if (not (anchor_block.state_root == want_state_root))
        (anchor_state_root_mismatch anchor_block.state_root want_state_root)
    let anchor_root = block_root sha256 anchor_block
    fail_if (leb u64_mod (anchor_block.slot * intervals_per_slot))
        (anchor_time_overflow anchor_block.slot intervals_per_slot)
    let seeds = checkpoints anchor_root anchor_block.slot
    ok (
        insert_block
          (record {
            time = anchor_block.slot * intervals_per_slot;
            config = state.config;
            head = anchor_root;
            safe_target = anchor_root;
            latest_justified = seeds.0;
            latest_finalized = seeds.1;
            blocks = [];
            states = [];
            block_order = [];
            latest_known_votes = [];
            latest_new_votes = [];
          })
          anchor_root anchor_block state)

  unfoldable pub from_anchor : State → Block → Result ForkchoiceError Store
  from_anchor state anchor_block = seed_anchor state anchor_block λ anchor_root anchor_slot. (
    normalize_genesis_checkpoint state.latest_justified anchor_slot anchor_root,
    normalize_genesis_checkpoint state.latest_finalized anchor_slot anchor_root,
  )

  unfoldable pub from_trusted_head : State → Block → Result ForkchoiceError Store
  from_trusted_head state anchor_block = seed_anchor state anchor_block λ anchor_root anchor_slot.
      let cp : Checkpoint = record { root = anchor_root; slot = anchor_slot } in (cp, cp)

unfoldable pub head_validator_count : Store → Result ForkchoiceError ℕ
head_validator_count self = do
  state ← ok_or (Hash.get self.states self.head) (head_state_not_found self.head)
  ok (num_validators state)

unfoldable pub vote_head_checkpoints : HashMap SignedAttestation → HashMap Checkpoint
vote_head_checkpoints votes = map (λ entry. (entry.0, entry.1.message.contents.head)) votes

unfoldable pub update_head : Store → StoreStep
update_head self =
    let checkpoints = vote_head_checkpoints self.latest_known_votes in
    check self (get_fork_choice_head self.blocks self.latest_justified.root checkpoints 0)
      λ head. (record self { head = head }, ok tt)

unfoldable pub accept_votes : Store → StoreStep
accept_votes self = update_head (record self {
  latest_new_votes = [];
  latest_known_votes = Hash.extend self.latest_known_votes self.latest_new_votes;
})

abbrev pub saturating_mul : ℕ → ℕ → ℕ
saturating_mul a b = min (a * b) (u64_mod - 1)

-- `x.div_ceil(3)`
abbrev pub div_ceil3 : ℕ → ℕ
div_ceil3 x = (x + 2) / 3

unfoldable pub refresh_safe_target : Store → StoreStep
refresh_safe_target self = check self (head_validator_count self) λ n.
    let min_target_score = div_ceil3 (saturating_mul n 2) in
    let checkpoints = vote_head_checkpoints self.latest_new_votes in
    check self
      (get_fork_choice_head self.blocks self.latest_justified.root checkpoints min_target_score)
      λ target. (record self { safe_target = target }, ok tt)

unfoldable pub run_phase : Phase → Bool → Store → StoreStep
run_phase proposal true self = accept_votes self
run_phase proposal false self = (self, ok tt)
run_phase idle has_proposal self = (self, ok tt)
run_phase update_safe_target has_proposal self = refresh_safe_target self
run_phase accept_new_votes has_proposal self = accept_votes self

unfoldable pub tick_interval : Store → Bool → StoreStep
tick_interval self has_proposal =
    check self (ok_or (checked_advance self.time) (time_overflow self.time))
      λ next. run_phase (phase next) has_proposal (record self { time = next })

unfoldable pub get_proposal_head : Store → Outcome Store ForkchoiceError Bytes32
get_proposal_head self = and_then (accept_votes self) λ self' _. (self', ok self'.head)

unfoldable pub should_adopt_checkpoint : Store → Checkpoint → Checkpoint → Bool
should_adopt_checkpoint self candidate current =
    ltb current.slot candidate.slot && Hash.contains_key self.blocks candidate.root

unfoldable pub adopt_post_state_checkpoints : Store → Checkpoint → Checkpoint → Store
adopt_post_state_checkpoints self latest_justified latest_finalized =
    let self1 =
      if should_adopt_checkpoint self latest_justified self.latest_justified
      then record self { latest_justified = latest_justified }
      else self in
    if should_adopt_checkpoint self1 latest_finalized self1.latest_finalized
    then record self1 { latest_finalized = latest_finalized }
    else self1

-- The guards, then the insertion; the result is whether the block is new.
unfoldable pub track_block : Sha256 → Store → Block → State → Outcome Store ForkchoiceError Bool
track_block sha256 self block post_state =
    let want_state_root = state_root sha256 post_state in
    let root = block_root sha256 block in
    check self
      (fail_if (not (block.state_root == want_state_root))
        (block_state_root_mismatch block.state_root want_state_root))
      λ _.
        if Hash.contains_key self.blocks root
        then (self, ok false)
        else check self
            (fail_if
              (not (block.parent_root == 0)
                && not (Hash.contains_key self.blocks block.parent_root))
              (parent_block_not_found block.parent_root))
            λ _. (
              adopt_post_state_checkpoints (insert_block self root block post_state)
                  post_state.latest_justified post_state.latest_finalized,
              ok true,
            )
