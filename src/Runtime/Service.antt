-- ===== src/Runtime/Service.antt =====
-- crates/runtime/src/chain/chain (service.rs, cache.rs, error.rs): the chain service over the engine, the
-- storage and the signer. Calls run one after the other, each from its first step to its last. The guarded
-- signer writes to the storage that the service writes to, so signing passes the storage on.
pub mod Persist
mod Examples
use package.lean_rust.Prelude.{
  ℕ, Bool, Option, none, some, [], ◌∷◌, Result, ok, err, ok_or, Outcome, and_then, check,
  if◌then◌else◌,
}
use package.lean_rust.Types.Endian.{Bytes32}
use package.lean_rust.Maps.Hash
use package.lean_rust.Ssz.Merkleize.{Sha256}
use package.lean_rust.Protocol.Slot.{Slot}
use package.lean_rust.Protocol.Checkpoint.{Checkpoint}
use package.lean_rust.Protocol.Vote.{Attestation, SignedAttestation, Signature}
use package.lean_rust.Protocol.Block.{SignedBlockWithAttestation}
use package.lean_rust.Storage.{Backend}
use package.lean_rust.ForkChoice.Time.{slot_of}
use package.lean_rust.Runtime.Engine
use package.lean_rust.Runtime.Engine.{
  Engine, EngineError, BlockImportResult, AttestationImportResult, PersistPlan,
  import_block_capturing, import_block_synced_capturing, produce_block_unsigned,
  produce_attestation_vote,
}
use package.lean_rust.Runtime.Signer.{SignError, map_err}

pub data ChainError (E : Type 0) : Type 0 where
  storage : E → ChainError E
  post_state_missing : (block_root : Bytes32) → ChainError E
  engine_error : EngineError → ChainError E
  head_block_missing : (head_root : Bytes32) → ChainError E
  sign_error : SignError E → ChainError E

-- `Status` of the wire protocol.
pub record Status : Type 0 where
  pub finalized : Checkpoint
  pub head : Checkpoint

pub record ChainSnapshot : Type 0 where
  pub head_root : Bytes32
  pub current_slot : ℕ
  pub latest_justified : Checkpoint
  pub latest_finalized : Checkpoint

-- `P` is the signer and `S` the storage.
pub record Service (P S : Type 0) : Type 0 where
  pub engine : Engine
  pub signer : P
  pub store : S

module _ {P S : Type 0} where
  unfoldable pub snapshot : Service P S → ChainSnapshot
  snapshot self =
      let s = self.engine.store in
      record {
        head_root = s.head;
        current_slot = slot_of s.time;
        latest_justified = s.latest_justified;
        latest_finalized = s.latest_finalized;
      }

  unfoldable pub local_status : Service P S → Status
  local_status self =
      let snap = snapshot self in
      record {
        finalized = snap.latest_finalized;
        head = record { root = snap.head_root; slot = snap.current_slot };
      }

abbrev pub Call : Type 0 → Type 0 → Type 0 → Type 0 → Type 0
Call P S E A = Outcome (Service P S) (ChainError E) A

module _ {P S E : Type 0} (backend : Backend S E) where
  unfoldable pub has_block : Service P S → Bytes32 → Result (ChainError E) Bool
  has_block self root = map_err storage (backend.has_block self.store root)

  unfoldable pub persist_plan : Service P S → PersistPlan → Call P S E (Unit {0})
  persist_plan self plan =
      let (store, saved) =
        backend.save_accepted self.store plan.block_root plan.block plan.state
          (record { head = plan.head; finalized = plan.finalized }) in
      (record self { store = store }, map_err storage saved)

  unfoldable pub persist_accepted :
      Service P S → BlockImportResult → Option PersistPlan → Call P S E BlockImportResult
  persist_accepted self (BlockImportResult.accepted r p s h) plan =
      check self (ok_or plan (post_state_missing r)) λ found.
        and_then (persist_plan self found)
          λ self' _. (self', ok (BlockImportResult.accepted r p s h))
  persist_accepted self (BlockImportResult.duplicate_block r) plan =
      (self, ok (BlockImportResult.duplicate_block r))
  persist_accepted self (BlockImportResult.missing_parent r p) plan =
      (self, ok (BlockImportResult.missing_parent r p))
  persist_accepted self (BlockImportResult.rejected r p e) plan =
      (self, ok (BlockImportResult.rejected r p e))

  unfoldable pub import_attestation :
      Service P S → SignedAttestation → Call P S E AttestationImportResult
  import_attestation self signed =
      let (engine', outcome) = Engine.import_attestation self.engine signed in
      (record self { engine = engine' }, ok outcome)

  unfoldable pub tick_interval : Service P S → Bool → Call P S E (Unit {0})
  tick_interval self has_proposal =
      let (engine', ticked) = Engine.tick_interval self.engine has_proposal in
      (record self { engine = engine' }, map_err engine_error ticked)

  module _ (sha256 : Sha256) where
    unfoldable pub import_block :
        Service P S → SignedBlockWithAttestation → Call P S E BlockImportResult
    import_block self signed =
        let (engine', outcome, plan) = import_block_capturing sha256 self.engine signed in
        persist_accepted (record self { engine = engine' }) outcome plan

    unfoldable pub import_block_synced :
        Service P S → SignedBlockWithAttestation → Call P S E BlockImportResult
    import_block_synced self signed =
        let (engine', outcome, plan) = import_block_synced_capturing sha256 self.engine signed in
        persist_accepted (record self { engine = engine' }) outcome plan

    module _ (signs : P × S → Attestation → Outcome (P × S) (SignError E) Signature) where
      -- `self.signer.lock().sign_attestation(..)`
      unfoldable pub sign_vote : Service P S → Attestation → Call P S E Signature
      sign_vote self att =
          let (guard, result) = signs (self.signer, self.store) att in
          (record self { signer = guard.0; store = guard.1 }, map_err sign_error result)

      -- The node's own vote goes to its store; the answer is only logged.
      unfoldable pub reimport : Service P S → SignedAttestation → Service P S
      reimport self vote = (import_attestation self vote).0

      unfoldable pub produce_block : Service P S → Slot → ℕ → Call P S E SignedBlockWithAttestation
      produce_block self slot validator =
          let (engine', produced) = produce_block_unsigned sha256 self.engine slot validator in
          let self1 = record self { engine = engine' } in
          check self1 (map_err engine_error produced) λ prod.
            check self1 (ok_or prod.persist (post_state_missing prod.block_root)) λ inputs.
              let proposer_attestation : Attestation = record {
                validator_id = validator;
                contents = prod.proposer_vote.vote;
              } in
              and_then (sign_vote self1 proposer_attestation) λ self2 signature.
                let self3 =
                  reimport self2
                    (record { message = proposer_attestation; signature = signature }) in
                let signed : SignedBlockWithAttestation = record {
                  message = record {
                    block = prod.block;
                    proposer_attestation = proposer_attestation;
                  };
                  signature = signature ∷ [];
                } in
                and_then
                  (persist_plan self3 (record {
                    block_root = prod.block_root;
                    head = inputs.head;
                    finalized = inputs.finalized;
                    state = inputs.post_state;
                    block = signed;
                  }))
                  λ self4 _. (self4, ok signed)

      unfoldable pub produce_attestation : Service P S → Slot → ℕ → Call P S E SignedAttestation
      produce_attestation self slot validator =
          let (engine', produced) = produce_attestation_vote self.engine slot in
          let self1 = record self { engine = engine' } in
          check self1 (map_err engine_error produced) λ prod.
            let message : Attestation = record { validator_id = validator; contents = prod.vote } in
            and_then (sign_vote self1 message) λ self2 signature.
              let signed : SignedAttestation = record {
                message = message;
                signature = signature;
              } in
              (reimport self2 signed, ok signed)
