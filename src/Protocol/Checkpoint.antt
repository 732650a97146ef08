-- ===== src/Protocol/Checkpoint.antt =====
-- crates/protocol/src/checkpoint.rs
use lean_rust.Prelude.{Bool, ◌&&◌, ◌==◌}
use lean_rust.Types.Endian.{Bytes32}
use lean_rust.Ssz.Merkleize.{Sha256, hash_pair}
use lean_rust.Protocol.Slot.{Slot}
use lean_rust.Protocol.Roots.{u64_chunk}

pub record Checkpoint : Type 0 where
  pub root : Bytes32
  pub slot : Slot

abbrev pub default_checkpoint : Checkpoint
default_checkpoint = record { root = 0; slot = 0 }

-- The derived `PartialEq`.
abbrev pub same_checkpoint : Checkpoint → Checkpoint → Bool
same_checkpoint a b = a.root == b.root && a.slot == b.slot

unfoldable pub checkpoint_root : Sha256 → Checkpoint → Bytes32
checkpoint_root sha256 c = hash_pair sha256 c.root (u64_chunk c.slot)
