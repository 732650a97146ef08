-- ===== src/Protocol/State.antt =====
-- crates/protocol/src/state.rs, the containers: `ProtocolConfig` and `State` with its root, and the
-- genesis constructors of crates/protocol/src/stf.rs.
use lean_rust.Prelude.{ℕ, List, [], ◌∷◌, map, length}
use lean_rust.Types.Endian.{Bytes32}
use lean_rust.Types.Bitlist
use lean_rust.Types.Bitlist.{Bitlist}
use lean_rust.Ssz.Merkleize.{Sha256, merkleize}
use lean_rust.Protocol.Limits.{
  historical_roots_limit, validator_registry_limit, justifications_validators_limit,
}
use lean_rust.Protocol.Slot.{Slot}
use lean_rust.Protocol.Checkpoint.{Checkpoint, default_checkpoint, checkpoint_root}
use lean_rust.Protocol.Validator.{Validator, validator_root}
use lean_rust.Protocol.Block.{Block, BlockHeader, genesis_header, header_root}
use lean_rust.Protocol.Roots.{u64_chunk, bytes32_root, list_hash_tree_root, bitlist_hash_tree_root}

pub record ProtocolConfig : Type 0 where
  pub genesis_time : ℕ

pub record State : Type 0 where
  pub config : ProtocolConfig
  pub slot : Slot
  pub latest_block_header : BlockHeader
  pub latest_justified : Checkpoint
  pub latest_finalized : Checkpoint
  pub historical_block_hashes : List Bytes32
  pub justified_slots : Bitlist
  pub validators : List Validator
  pub justifications_roots : List Bytes32
  pub justifications_validators : Bitlist

-- The saturation at `u64::MAX` cannot occur: a vector has fewer elements.
abbrev pub num_validators : State → ℕ
num_validators s = length s.validators

module _ (sha256 : Sha256) where
  unfoldable pub config_root : ProtocolConfig → Bytes32
  config_root c = merkleize sha256 (u64_chunk c.genesis_time ∷ [])

  unfoldable pub state_root : State → Bytes32
  state_root s = merkleize sha256 (
      config_root s.config
      ∷ u64_chunk s.slot
      ∷ header_root sha256 s.latest_block_header
      ∷ checkpoint_root sha256 s.latest_justified
      ∷ checkpoint_root sha256 s.latest_finalized
      ∷ list_hash_tree_root sha256 (map (bytes32_root sha256) s.historical_block_hashes)
          historical_roots_limit
      ∷ bitlist_hash_tree_root sha256 historical_roots_limit s.justified_slots
      ∷ list_hash_tree_root sha256 (map (validator_root sha256) s.validators)
          validator_registry_limit
      ∷ list_hash_tree_root sha256 (map (bytes32_root sha256) s.justifications_roots)
          historical_roots_limit
      ∷ bitlist_hash_tree_root sha256 justifications_validators_limit s.justifications_validators
      ∷ [])

  unfoldable pub genesis_state : ℕ → List Validator → State
  genesis_state genesis_time validators = record {
    config = record { genesis_time = genesis_time };
    slot = 0;
    latest_block_header = genesis_header sha256;
    latest_justified = default_checkpoint;
    latest_finalized = default_checkpoint;
    historical_block_hashes = [];
    justified_slots = Bitlist.new;
    validators = validators;
    justifications_roots = [];
    justifications_validators = Bitlist.new;
  }

  unfoldable pub genesis_anchor_block : State → Block
  genesis_anchor_block s = record {
    slot = 0;
    proposer_index = 0;
    parent_root = 0;
    state_root = state_root s;
    body = record { attestations = [] };
  }
