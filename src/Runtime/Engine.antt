-- ===== src/Runtime/Engine.antt =====
-- crates/runtime/src/chain/engine (handle.rs, importer.rs, results.rs, error.rs): the engine around
-- the fork choice store. The lock is held for the whole of a call, so a call is one step from engine
-- to engine; metrics and logs are left out.
pub mod Import
pub mod Refusal
pub mod Safety
use package.lean_rust.Prelude.{
  ℕ, Bool, true, false, Option, none, some, List, [], ◌∷◌, get_elem?, replicate, if◌then◌else◌,
  Result, ok, err, ◌>>=◌, Outcome, and_then, check, suc,
}
use package.lean_rust.Types.Endian.{Bytes32}
use package.lean_rust.Maps.Hash
use package.lean_rust.Maps.Hash.{contains_key}
use package.lean_rust.Ssz.Merkleize.{Sha256}
use package.lean_rust.Protocol.Slot.{Slot}
use package.lean_rust.Protocol.Checkpoint.{Checkpoint}
use package.lean_rust.Protocol.Validator.{Validator}
use package.lean_rust.Protocol.Vote.{Attestation, SignedAttestation, Signature}
use package.lean_rust.Protocol.Errors.{StateTransitionError}
use package.lean_rust.Protocol.Block.{Block, SignedBlockWithAttestation, block_root}
use package.lean_rust.Protocol.State.{State, state_root}
use package.lean_rust.Protocol.Transition.Driver.{state_transition}
use package.lean_rust.ForkChoice.Errors.{ForkchoiceError}
use package.lean_rust.ForkChoice.Store.{
  Store, track_block, accept_votes, tick_interval as store_tick,
}
use package.lean_rust.ForkChoice.Store
use package.lean_rust.ForkChoice.Votes
use package.lean_rust.ForkChoice.Production
use package.lean_rust.ForkChoice.Production.{ProducedBlock, ProducedVote}
use package.lean_rust.Runtime.Verify.{Verifier, VerifyError, pre_check_over_cap, verify_positional}

pub data EngineError : Type 0 where
  forkchoice : ForkchoiceError → EngineError
  transition : StateTransitionError → EngineError
  verify : VerifyError → EngineError

pub data BlockImportResult : Type 0 where
  accepted : (block_root parent_root post_state_root head_root : Bytes32) → BlockImportResult
  duplicate_block : (block_root : Bytes32) → BlockImportResult
  missing_parent : (block_root parent_root : Bytes32) → BlockImportResult
  rejected : (block_root parent_root : Bytes32) (error : EngineError) → BlockImportResult

pub data AttestationImportResult : Type 0 where
  accepted ignored :
      (validator_id : ℕ) (head_root safe_target_root : Bytes32) → AttestationImportResult
  rejected : (validator_id : ℕ) (error : EngineError) → AttestationImportResult

pub data VerifyPolicy : Type 0 where
  enforce skip : VerifyPolicy

unfoldable pub enforces : VerifyPolicy → Bool
enforces VerifyPolicy.enforce = true
enforces VerifyPolicy.skip = false

pub record Engine : Type 0 where
  pub store : Store
  pub verifier : Option Verifier

pub record PersistPlan : Type 0 where
  pub block_root : Bytes32
  pub head : Checkpoint
  pub finalized : Checkpoint
  pub state : State
  pub block : SignedBlockWithAttestation

pub record PersistInputs : Type 0 where
  pub head : Checkpoint
  pub finalized : Checkpoint
  pub post_state : State

pub record UnsignedProduction : Type 0 where
  pub block : Block
  pub proposer_vote : ProducedVote
  pub block_root : Bytes32
  pub persist : Option PersistInputs

-- `?` on a result of the store and of the transition.
abbrev pub from_store {ℓ} : {A : Type ℓ} → Result ForkchoiceError A → Result EngineError A
from_store (ok a) = ok a
from_store (err e) = err (forkchoice e)

abbrev pub from_transition {ℓ} : {A : Type ℓ} → Result StateTransitionError A → Result EngineError A
from_transition (ok a) = ok a
from_transition (err e) = err (transition e)

abbrev pub in_store {ℓ} :
    {A : Type ℓ} → Outcome Store ForkchoiceError A → Outcome Store EngineError A
in_store (s, r) = (s, from_store r)

-- `a?` where both are options.
abbrev pub bind_option {ℓ κ} : {A : Type ℓ} {B : Type κ} → Option A → (A → Option B) → Option B
bind_option none f = none
bind_option (some a) f = f a

unfoldable pub capture_persist_inputs : Store → Bytes32 → Bytes32 → Option PersistInputs
capture_persist_inputs store block_root head_root =
    bind_option (Hash.get store.states block_root) λ post_state.
      bind_option (Hash.get store.blocks head_root) λ head_block. some (record {
        head = record { root = head_root; slot = head_block.slot };
        finalized = store.latest_finalized;
        post_state = post_state;
      })

unfoldable pub capture_persist_plan :
    Store → Bytes32 → Bytes32 → SignedBlockWithAttestation → Option PersistPlan
capture_persist_plan store block_root head_root block =
    bind_option (capture_persist_inputs store block_root head_root) λ inputs. some (record {
      block_root = block_root;
      head = inputs.head;
      finalized = inputs.finalized;
      state = inputs.post_state;
      block = block;
    })

-- `Signature::default()`, and the signature at an index or that one.
abbrev pub default_signature : Signature
default_signature = replicate 3116 0

unfoldable pub signature_at : List Signature → ℕ → Signature
signature_at signatures i = elim (get_elem? signatures i) [
  | none ↦ default_signature
  | some signature ↦ signature
]

-- `body.iter().enumerate().map(..)`, from index `i`.
unfoldable pub carried_votes : List Signature → ℕ → List Attestation → List SignedAttestation
carried_votes signatures i [] = []
carried_votes signatures i (att ∷ atts) =
    record { message = att; signature = signature_at signatures i }
    ∷ carried_votes signatures (suc i) atts

unfoldable pub block_carried_votes : List Attestation → List Signature → List SignedAttestation
block_carried_votes body signatures = carried_votes signatures 0 body

-- A vote that fails is skipped; the count of those is only logged.
unfoldable pub fold_block_attestations : Store → List SignedAttestation → Store
fold_block_attestations store [] = store
fold_block_attestations store (vote ∷ votes) =
    fold_block_attestations (Votes.process_attestation store vote true).0 votes

module _ (sha256 : Sha256) where
  -- `let Some(verifier) = self.verifier() else { return Ok(()) }`
  unfoldable pub run_verify_gate :
      Option Verifier → SignedBlockWithAttestation → List Validator → Result VerifyError (Unit {0})
  run_verify_gate none signed_block validators = ok tt
  run_verify_gate (some verifier) signed_block validators =
      verify_positional sha256 validators verifier signed_block.message.block.body.attestations
        signed_block.message.proposer_attestation signed_block.signature

  unfoldable pub transition_and_track :
      Store → SignedBlockWithAttestation → State → Outcome Store EngineError Bytes32
  transition_and_track store signed_block parent_state =
      let (post_state, result) = state_transition sha256 parent_state signed_block true in
      let block = signed_block.message.block in
      let votes = block_carried_votes block.body.attestations signed_block.signature in
      check store (from_transition result) λ _.
        and_then (in_store (track_block sha256 store block post_state)) λ tracked _.
          and_then (in_store (accept_votes (fold_block_attestations tracked votes)))
            λ refreshed _. (refreshed, ok (state_root sha256 post_state))

  -- `match transition_and_track(..)`
  unfoldable pub finish_import :
      Engine
      → SignedBlockWithAttestation
      → Outcome Store EngineError Bytes32
      → Engine × BlockImportResult × Option PersistPlan
  finish_import self signed_block (store, ok post_state_root) =
      let root = block_root sha256 signed_block.message.block in
      let parent_root = signed_block.message.block.parent_root in
      (
        record self { store = store },
        BlockImportResult.accepted root parent_root post_state_root store.head,
        capture_persist_plan store root store.head signed_block,
      )
  finish_import self signed_block (store, err error) =
      let root = block_root sha256 signed_block.message.block in
      let parent_root = signed_block.message.block.parent_root in
      (record self { store = store }, BlockImportResult.rejected root parent_root error, none)

  unfoldable pub import_block_capturing_inner :
      Engine
      → SignedBlockWithAttestation
      → VerifyPolicy
      → Engine × BlockImportResult × Option PersistPlan
  import_block_capturing_inner self signed_block policy =
      let block = signed_block.message.block in
      let root = block_root sha256 block in
      let reject : VerifyError → Engine × BlockImportResult × Option PersistPlan =
        λ error. (self, BlockImportResult.rejected root block.parent_root (verify error), none) in
      if contains_key self.store.blocks root
      then (self, BlockImportResult.duplicate_block root, none)
      else elim (pre_check_over_cap signed_block.signature block.body.attestations) [
        | err e ↦ reject e
        | ok _ ↦ elim (Hash.get self.store.states block.parent_root) [
          | none ↦ (self, BlockImportResult.missing_parent root block.parent_root, none)
          | some parent_state ↦
              elim (if enforces policy
                then run_verify_gate self.verifier signed_block parent_state.validators
                else ok tt) [
                  | err e ↦ reject e
                  | ok _ ↦
                      finish_import self signed_block
                        (transition_and_track self.store signed_block parent_state)
                ]
        ]
      ]

  unfoldable pub import_block_capturing :
      Engine → SignedBlockWithAttestation → Engine × BlockImportResult × Option PersistPlan
  import_block_capturing self signed_block =
      import_block_capturing_inner self signed_block VerifyPolicy.enforce

  unfoldable pub import_block_synced_capturing :
      Engine → SignedBlockWithAttestation → Engine × BlockImportResult × Option PersistPlan
  import_block_synced_capturing self signed_block =
      import_block_capturing_inner self signed_block VerifyPolicy.skip

  unfoldable pub import_block : Engine → SignedBlockWithAttestation → Engine × BlockImportResult
  import_block self signed_block =
      let (self', outcome, plan) = import_block_capturing self signed_block in (self', outcome)

  unfoldable pub produce_block : Engine → Slot → ℕ → Outcome Engine EngineError ProducedBlock
  produce_block self slot validator =
      let (store, result) = Production.produce_block sha256 self.store slot validator in
      (record self { store = store }, from_store result)

  -- The block, then the vote, then what is to be stored, with the lock held throughout.
  unfoldable pub produce_block_unsigned :
      Engine → Slot → ℕ → Outcome Engine EngineError UnsignedProduction
  produce_block_unsigned self slot validator =
      let (store, result) =
        and_then (in_store (Production.produce_block sha256 self.store slot validator))
          λ store1 produced.
            and_then (in_store (Production.produce_attestation_vote store1 slot)) λ store2 vote. (
              store2,
              ok (record {
                block = produced.block;
                proposer_vote = vote;
                block_root = produced.root;
                persist = capture_persist_inputs store2 produced.root store2.head;
              }),
            ) in
      (record self { store = store }, result)

-- `Ok(true)`, `Ok(false)` and `Err` of `process_attestation`.
abbrev pub attestation_result : ℕ → Outcome Store ForkchoiceError Bool → AttestationImportResult
attestation_result validator_id (store, ok true) =
    AttestationImportResult.accepted validator_id store.head store.safe_target
attestation_result validator_id (store, ok false) =
    AttestationImportResult.ignored validator_id store.head store.safe_target
attestation_result validator_id (store, err e) =
    AttestationImportResult.rejected validator_id (forkchoice e)

unfoldable pub import_attestation : Engine → SignedAttestation → Engine × AttestationImportResult
import_attestation self signed_vote =
    let outcome = Votes.process_attestation self.store signed_vote false in
    (record self { store = outcome.0 }, attestation_result signed_vote.message.validator_id outcome)

unfoldable pub produce_attestation_vote : Engine → Slot → Outcome Engine EngineError ProducedVote
produce_attestation_vote self slot =
    let (store, result) = Production.produce_attestation_vote self.store slot in
    (record self { store = store }, from_store result)

unfoldable pub tick_interval : Engine → Bool → Outcome Engine EngineError (Unit {0})
tick_interval self has_proposal =
    let (store, result) = store_tick self.store has_proposal in
    (record self { store = store }, from_store result)

unfoldable pub from_anchor : Sha256 → State → Block → Result ForkchoiceError Engine
from_anchor sha256 state anchor_block = Store.from_anchor sha256 state anchor_block >>= λ store.
    ok (record { store = store; verifier = none })

unfoldable pub from_trusted_head : Sha256 → State → Block → Result ForkchoiceError Engine
from_trusted_head sha256 state anchor_block =
    Store.from_trusted_head sha256 state anchor_block >>= λ store.
    ok (record { store = store; verifier = none })

unfoldable pub with_verifier : Engine → Verifier → Engine
with_verifier self verifier = record self { verifier = some verifier }
