-- ===== src/Protocol/Block.antt =====
-- crates/protocol/src/block.rs: headers, blocks and their signed envelopes.
use lean_rust.Prelude.{ℕ, List, [], ◌∷◌, map}
use lean_rust.Types.Endian.{Bytes32}
use lean_rust.Ssz.Merkleize.{Sha256, merkleize}
use lean_rust.Protocol.Limits.{max_attestations}
use lean_rust.Protocol.Slot.{Slot}
use lean_rust.Protocol.Vote.{Attestation, Signature, attestation_root}
use lean_rust.Protocol.Roots.{u64_chunk, byte_vector_root, list_hash_tree_root}

pub record BlockHeader : Type 0 where
  pub slot : Slot
  pub proposer_index : ℕ
  pub parent_root : Bytes32
  pub state_root : Bytes32
  pub body_root : Bytes32

pub record BlockBody : Type 0 where
  pub attestations : List Attestation

pub record Block : Type 0 where
  pub slot : Slot
  pub proposer_index : ℕ
  pub parent_root : Bytes32
  pub state_root : Bytes32
  pub body : BlockBody

pub record BlockWithAttestation : Type 0 where
  pub block : Block
  pub proposer_attestation : Attestation

pub record SignedBlockWithAttestation : Type 0 where
  pub message : BlockWithAttestation
  pub signature : List Signature

module _ (sha256 : Sha256) where
  unfoldable pub header_root : BlockHeader → Bytes32
  header_root h = merkleize sha256 (
      u64_chunk h.slot
      ∷ u64_chunk h.proposer_index
      ∷ h.parent_root
      ∷ h.state_root
      ∷ h.body_root
      ∷ [])

  unfoldable pub body_root : BlockBody → Bytes32
  body_root b =
      list_hash_tree_root sha256 (map (attestation_root sha256) b.attestations) max_attestations

  unfoldable pub block_root : Block → Bytes32
  block_root b = merkleize sha256 (
      u64_chunk b.slot
      ∷ u64_chunk b.proposer_index
      ∷ b.parent_root
      ∷ b.state_root
      ∷ body_root b.body
      ∷ [])

  unfoldable pub signatures_root : List Signature → Bytes32
  signatures_root s = list_hash_tree_root sha256 (map (byte_vector_root sha256) s) max_attestations

  unfoldable pub block_with_attestation_root : BlockWithAttestation → Bytes32
  block_with_attestation_root b =
      merkleize sha256 (block_root b.block ∷ attestation_root sha256 b.proposer_attestation ∷ [])

  unfoldable pub signed_block_root : SignedBlockWithAttestation → Bytes32
  signed_block_root b =
      merkleize sha256 (block_with_attestation_root b.message ∷ signatures_root b.signature ∷ [])

  -- `BlockHeader::genesis`
  unfoldable pub genesis_header : BlockHeader
  genesis_header = record {
    slot = 0;
    proposer_index = 0;
    parent_root = 0;
    state_root = 0;
    body_root = body_root (record { attestations = [] });
  }
