-- ===== src/Storage.antt =====
-- crates/storage/src/store.rs: the contract of a store, with the default `save_accepted`. An adapter
-- is a parameter; a method on `&self` with a lock inside is a function from store to store.
pub mod Contract
pub mod Memory
mod Examples
use package.lean_rust.Prelude.{
  ℕ, Bool, true, false, Option, none, some, ltb, ◌==◌, if◌then◌else◌, Result, ok, err, ◌>>=◌, ◌>>◌,
  fail_if, Outcome, and_then,
}
use package.lean_rust.Types.Endian.{Bytes32}
use package.lean_rust.Types.Ots.{OtsWatermark}
use package.lean_rust.Protocol.Slot.{Slot}
use package.lean_rust.Protocol.Checkpoint.{Checkpoint}
use package.lean_rust.Protocol.Block.{SignedBlockWithAttestation}
use package.lean_rust.Protocol.State.{State}

pub record HeadInfo : Type 0 where
  pub head : Checkpoint
  pub finalized : Checkpoint

pub data HeadInfoError : Type 0 where
  finalized_ahead_of_head : (head finalized : Slot) → HeadInfoError

unfoldable pub try_new : Checkpoint → Checkpoint → Result HeadInfoError HeadInfo
try_new head finalized =
    fail_if (ltb head.slot finalized.slot) (finalized_ahead_of_head head.slot finalized.slot)
    >> ok (record { head = head; finalized = finalized })

-- `trait WatermarkStore` and the methods of `trait Store` without a default body, over the states of
-- an adapter and its errors.
pub record Backend (S E : Type 0) : Type 0 where
  pub save_block : S → Bytes32 → SignedBlockWithAttestation → Outcome S E (Unit {0})
  pub save_state : S → Bytes32 → State → Outcome S E (Unit {0})
  pub save_head : S → HeadInfo → Outcome S E (Unit {0})
  pub save_accepted :
      S → Bytes32 → SignedBlockWithAttestation → State → HeadInfo → Outcome S E (Unit {0})
  pub has_block : S → Bytes32 → Result E Bool
  pub has_state : S → Bytes32 → Result E Bool
  pub load_block : S → Bytes32 → Result E (Option SignedBlockWithAttestation)
  pub load_state : S → Bytes32 → Result E (Option State)
  pub load_head : S → Result E (Option HeadInfo)
  pub save_ots_key_state : S → ℕ → OtsWatermark → Outcome S E (Unit {0})
  pub load_ots_key_state : S → ℕ → Result E (Option OtsWatermark)

-- The default body of `save_accepted`: the head last.
unfoldable pub default_save_accepted :
    {S E : Type 0}
    → Backend S E
    → S
    → Bytes32
    → SignedBlockWithAttestation
    → State
    → HeadInfo
    → Outcome S E (Unit {0})
default_save_accepted b self block_root block state head =
    and_then (b.save_block self block_root block) λ s1 _.
      and_then (b.save_state s1 block_root state)
        λ s2 _. and_then (b.save_head s2 head) λ s3 _. (s3, ok tt)
