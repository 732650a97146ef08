-- ===== src/Protocol/Vote.antt =====
-- crates/protocol/src/vote.rs: votes. A signature is its bytes.
use lean_rust.Prelude.{ℕ, List, [], ◌∷◌}
use lean_rust.Types.Endian.{Bytes32}
use lean_rust.Ssz.Merkleize.{Sha256, merkleize}
use lean_rust.Protocol.Slot.{Slot}
use lean_rust.Protocol.Checkpoint.{Checkpoint, checkpoint_root}
use lean_rust.Protocol.Roots.{u64_chunk, byte_vector_root}

pub record AttestationData : Type 0 where
  pub slot : Slot
  pub head : Checkpoint
  pub target : Checkpoint
  pub source : Checkpoint

pub record Attestation : Type 0 where
  pub validator_id : ℕ
  pub contents : AttestationData

abbrev pub Signature : Type 0
Signature = List ℕ

pub record SignedAttestation : Type 0 where
  pub message : Attestation
  pub signature : Signature

module _ (sha256 : Sha256) where
  unfoldable pub attestation_data_root : AttestationData → Bytes32
  attestation_data_root d = merkleize sha256 (
      u64_chunk d.slot
      ∷ checkpoint_root sha256 d.head
      ∷ checkpoint_root sha256 d.target
      ∷ checkpoint_root sha256 d.source
      ∷ [])

  unfoldable pub attestation_root : Attestation → Bytes32
  attestation_root a =
      merkleize sha256 (u64_chunk a.validator_id ∷ attestation_data_root a.contents ∷ [])

  unfoldable pub signed_attestation_root : SignedAttestation → Bytes32
  signed_attestation_root a =
      merkleize sha256 (attestation_root a.message ∷ byte_vector_root sha256 a.signature ∷ [])
