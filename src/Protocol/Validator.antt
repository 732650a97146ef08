-- ===== src/Protocol/Validator.antt =====
-- crates/protocol/src/validator.rs: registry entries and the round-robin proposer.
use lean_rust.Prelude.{ℕ, ◌%◌, Bool, List, [], ◌∷◌, ◌==◌, if◌then◌else◌, Result, ok, err}
use lean_rust.Types.Endian.{Bytes32}
use lean_rust.Ssz.Merkleize.{Sha256, merkleize}
use lean_rust.Protocol.Roots.{u64_chunk, byte_vector_root}

-- The variant of `ProtocolError` that `is_proposer` returns.
pub data ProtocolError : Type 0 where
  no_validators : ProtocolError

pub record Validator : Type 0 where
  pub pubkey : List ℕ
  pub index : ℕ

unfoldable pub is_proposer : ℕ → ℕ → ℕ → Result ProtocolError Bool
is_proposer validator_index slot num_validators =
    if num_validators == 0 then err no_validators else ok (slot % num_validators == validator_index)

unfoldable pub validator_root : Sha256 → Validator → Bytes32
validator_root sha256 v =
    merkleize sha256 (byte_vector_root sha256 v.pubkey ∷ u64_chunk v.index ∷ [])
