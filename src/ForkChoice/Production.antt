-- ===== src/ForkChoice/Production.antt =====
-- crates/forkchoice/src/production.rs: producing blocks and votes from the store.
pub mod Converge
use package.lean_rust.Prelude.{
  ℕ, zero, suc, ◌+◌, ◌-◌, Bool, true, false, ◌&&◌, ◌||◌, not, Option, none, some, List, [], ◌∷◌,
  ◌++◌, length, map, take, ltb, ◌==◌, if◌then◌else◌, Result, ok, err, ◌>>=◌, ◌>>◌, fail_if, ok_or,
  Outcome, and_then, check,
}
use package.lean_rust.Types.Endian.{Bytes32}
use package.lean_rust.Maps.Hash
use package.lean_rust.Maps.Hash.{HashMap}
use package.lean_rust.Ssz.Merkleize.{Sha256}
use package.lean_rust.Protocol.Limits.{max_attestations}
use package.lean_rust.Protocol.Slot.{Slot}
use package.lean_rust.Protocol.Checkpoint.{Checkpoint, same_checkpoint}
use package.lean_rust.Protocol.Validator.{ProtocolError, is_proposer}
use package.lean_rust.Protocol.Vote.{AttestationData, Attestation, SignedAttestation}
use package.lean_rust.Protocol.Block.{Block, BlockBody, block_root}
use package.lean_rust.Protocol.State.{State, state_root, num_validators}
use package.lean_rust.Protocol.Errors.{StateTransitionError}
use package.lean_rust.Protocol.Transition.Slots.{Step, process_slots}
use package.lean_rust.Protocol.Transition.Header.{process_block_header}
use package.lean_rust.Protocol.Transition.Attestations.{process_attestations}
use package.lean_rust.ForkChoice.Errors.{
  ForkchoiceError, unauthorized_proposer, head_state_not_found, unknown_head_block,
  state_slot_ahead_of_target, state_transition, protocol, out_of_fuel,
}
use package.lean_rust.ForkChoice.Store.{Store, accept_votes, get_proposal_head, track_block}
use package.lean_rust.ForkChoice.Votes.{lookup_block}
use package.lean_rust.ForkChoice.Target.{get_vote_target}

pub record ProducedBlock : Type 0 where
  pub block : Block
  pub root : Bytes32
  pub parent_root : Bytes32
  pub post_state : State
  pub post_state_root : Bytes32

pub record ProducedVote : Type 0 where
  pub vote : AttestationData
  pub head_root : Bytes32
  pub target : Checkpoint
  pub source : Checkpoint
  pub safe_target : Bytes32

-- `?` on a step of the state transition.
abbrev pub from_step : State × Result StateTransitionError (Unit {0}) → Result ForkchoiceError State
from_step (s, ok u) = ok s
from_step (s, err e) = err (state_transition e)

abbrev pub from_proposer : Result ProtocolError Bool → Result ForkchoiceError Bool
from_proposer (ok b) = ok b
from_proposer (err e) = err (protocol e)

unfoldable pub body_from : List SignedAttestation → BlockBody
body_from votes = record { attestations = map (λ sv. sv.message) votes }

-- The derived `PartialEq`.
abbrev pub same_bytes : List ℕ → List ℕ → Bool
same_bytes [] [] = true
same_bytes [] (y ∷ ys) = false
same_bytes (x ∷ xs) [] = false
same_bytes (x ∷ xs) (y ∷ ys) = x == y && same_bytes xs ys

abbrev pub same_vote : SignedAttestation → SignedAttestation → Bool
same_vote a b =
    a.message.validator_id == b.message.validator_id
    && a.message.contents.slot == b.message.contents.slot
    && same_checkpoint a.message.contents.head b.message.contents.head
    && same_checkpoint a.message.contents.target b.message.contents.target
    && same_checkpoint a.message.contents.source b.message.contents.source
    && same_bytes a.signature b.signature

unfoldable pub contains_vote : List SignedAttestation → SignedAttestation → Bool
contains_vote [] sv = false
contains_vote (x ∷ xs) sv = same_vote x sv || contains_vote xs sv

-- The three filters.
unfoldable pub is_includable : Store → State → List SignedAttestation → SignedAttestation → Bool
is_includable self post_state already sv =
    Hash.contains_key self.blocks sv.message.contents.target.root
    && same_checkpoint sv.message.contents.source post_state.latest_justified
    && not (contains_vote already sv)

unfoldable pub filter_votes :
    Store → State → List SignedAttestation → HashMap SignedAttestation → List SignedAttestation
filter_votes self post_state already [] = []
filter_votes self post_state already ((v, sv) ∷ votes) =
    let rest = filter_votes self post_state already votes in
    if is_includable self post_state already sv then sv ∷ rest else rest

unfoldable pub collect_includable_votes :
    Store → State → List SignedAttestation → List SignedAttestation
collect_includable_votes self post_state already =
    let cap = max_attestations - length already in
    if cap == 0 then [] else take cap (filter_votes self post_state already self.latest_known_votes)

module _ (sha256 : Sha256) where
  unfoldable pub advance_state_to_slot : State → Slot → Result ForkchoiceError State
  advance_state_to_slot s target =
      if s.slot == target
      then ok s
      else (if ltb s.slot target
          then from_step (process_slots sha256 s target)
          else err (state_slot_ahead_of_target s.slot target))

  unfoldable pub build_candidate_block :
      Bytes32 → Slot → ℕ → State → List SignedAttestation → Result ForkchoiceError (Block × State)
  build_candidate_block head_root slot validator head_state votes = do
    let candidate : Block = record {
      slot = slot;
      proposer_index = validator;
      parent_root = head_root;
      state_root = 0;
      body = body_from votes;
    }
    s ← advance_state_to_slot head_state slot
    s' ← from_step (process_block_header sha256 s candidate)
    next ← from_step (process_attestations s' candidate.body.attestations)
    ok (candidate, next)

  -- `loop`. Each round but the last adds a vote, and there are at most `max_attestations`.
  unfoldable pub converge_loop :
      Store
      → ℕ
      → Bytes32
      → Slot
      → ℕ
      → State
      → List SignedAttestation
      → Result ForkchoiceError (List SignedAttestation × State)
  converge_loop self zero head_root slot validator head_state attestations = err out_of_fuel
  converge_loop self (suc fuel) head_root slot validator head_state attestations =
      build_candidate_block head_root slot validator head_state attestations >>= λ built.
      elim (collect_includable_votes self built.1 attestations) [
        | [] ↦ ok (attestations, built.1)
        | a ∷ additions ↦
            converge_loop self fuel head_root slot validator head_state
              (attestations ++ a ∷ additions)
      ]

  unfoldable pub converge_attestations :
      Store → Bytes32 → Slot → ℕ → State → Result ForkchoiceError (List SignedAttestation × State)
  converge_attestations self head_root slot validator head_state =
      converge_loop self (max_attestations + 1) head_root slot validator head_state []

  unfoldable pub finalize_produced_block :
      Store
      → Bytes32
      → Slot
      → ℕ
      → List SignedAttestation
      → State
      → Outcome Store ForkchoiceError ProducedBlock
  finalize_produced_block self head_root slot validator attestations post_state =
      let post_state_root = state_root sha256 post_state in
      let block : Block = record {
        slot = slot;
        proposer_index = validator;
        parent_root = head_root;
        state_root = post_state_root;
        body = body_from attestations;
      } in
      and_then (track_block sha256 self block post_state) λ self1 _.
        and_then (accept_votes self1) λ self2 _. (
          self2,
          ok (record {
            block = block;
            root = block_root sha256 block;
            parent_root = head_root;
            post_state = post_state;
            post_state_root = post_state_root;
          }),
        )

  unfoldable pub produce_block : Store → Slot → ℕ → Outcome Store ForkchoiceError ProducedBlock
  produce_block self slot validator = and_then (get_proposal_head self) λ self1 head_root.
      check self1 (ok_or (Hash.get self1.states head_root) (head_state_not_found head_root))
        λ head_state.
          check self1 (from_proposer (is_proposer validator slot (num_validators head_state)))
            λ proposes.
              check self1 (fail_if (not proposes) (unauthorized_proposer validator slot)) λ _.
                check self1 (converge_attestations self1 head_root slot validator head_state)
                  λ converged.
                    finalize_produced_block self1 head_root slot validator converged.0 converged.1

unfoldable pub produce_attestation_vote : Store → Slot → Outcome Store ForkchoiceError ProducedVote
produce_attestation_vote self slot = and_then (get_proposal_head self) λ self1 head_root.
    check self1 (lookup_block self1 head_root unknown_head_block) λ head_block.
      check self1 (get_vote_target self1) λ target. (
        self1,
        ok (record {
          vote = record {
            slot = slot;
            head = record { root = head_root; slot = head_block.slot };
            target = target;
            source = self1.latest_justified;
          };
          head_root = head_root;
          target = target;
          source = self1.latest_justified;
          safe_target = self1.safe_target;
        }),
      )
