-- ===== src/Runtime/Sync.antt =====
-- crates/runtime/src/sync (loop_.rs, config.rs): the backfill from one peer. What happens outside a walk,
-- cancellation, the answers of the peer and the local lookup, is a function of the hop and the root that
-- is asked for. The watch loop that spawns the walks is not modelled.
pub mod Walk
mod Examples
use package.lean_rust.Prelude.{
  ℕ, zero, suc, ◌+◌, Bool, true, false, ◌||◌, Option, none, some, List, [], ◌∷◌, ◌++◌, ltb, ◌==◌,
  if◌then◌else◌, Result, ok, err,
}
use mathlib.Core.List.{reverse}
use package.lean_rust.Types.Endian.{Bytes32}
use package.lean_rust.Ssz.Merkleize.{Sha256}
use package.lean_rust.Protocol.Block.{SignedBlockWithAttestation, block_root}
use package.lean_rust.Storage.{Backend}
use package.lean_rust.Runtime.Service.{Service, Status, local_status, import_block_synced}

-- The durations in milliseconds; a `NonZeroUsize` is its number.
pub record Config : Type 0 where
  pub max_sync_depth : ℕ
  pub max_concurrent_peer_syncs : ℕ
  pub request_timeout : ℕ

unfoldable pub new : ℕ → Config
new max_sync_depth = record {
  max_sync_depth = max_sync_depth;
  max_concurrent_peer_syncs = 4;
  request_timeout = 10000;
}

unfoldable pub default_config : Config
default_config = new 64

unfoldable pub try_from : ℕ → Option Config
try_from max_sync_depth = if max_sync_depth == 0 then none else some (new max_sync_depth)

pub data Hop : Type 0 where
  block : SignedBlockWithAttestation → Hop
  stop abort : Hop

pub data InvalidResponse : Type 0 where
  hash_mismatch more_than_one : InvalidResponse

-- How a request ends: the walk is cancelled first, the transport fails, the time is over, or the peer
-- answers.
pub data Answer (E : Type 0) : Type 0 where
  cancelled timed_out : Answer E
  failed : E → Answer E
  responds : List SignedBlockWithAttestation → Answer E

pub record Moment (E : Type 0) : Type 0 where
  pub is_cancelled : Bool
  pub has_block : Result E Bool
  pub answer : Answer E

abbrev pub WalkSource : Type 0 → Type 0
WalkSource E = ℕ → Bytes32 → Moment E

unfoldable pub should_sync : Status → Status → Bool
should_sync local peer =
    ltb local.finalized.slot peer.finalized.slot || ltb local.head.slot peer.head.slot

module _ (sha256 : Sha256) where
  unfoldable pub validate_single_root_response :
      List SignedBlockWithAttestation
      → Bytes32
      → Result InvalidResponse (Option SignedBlockWithAttestation)
  validate_single_root_response [] requested = ok none
  validate_single_root_response (b ∷ []) requested =
      if block_root sha256 b.message.block == requested then ok (some b) else err hash_mismatch
  validate_single_root_response (b ∷ c ∷ blocks) requested = err more_than_one

  -- The response of the peer as a hop.
  unfoldable pub hop_of : List SignedBlockWithAttestation → Bytes32 → Hop
  hop_of blocks root = elim (validate_single_root_response blocks root) [
    | ok (some b) ↦ Hop.block b
    | ok none ↦ Hop.stop
    | err reason ↦ Hop.abort
  ]

  module _ {E : Type 0} (source : WalkSource E) where
    -- `for _ in 0..max_depth`, from hop `i`.
    unfoldable pub walk_loop :
        ℕ
        → ℕ
        → Bytes32
        → List SignedBlockWithAttestation
        → Result E (List SignedBlockWithAttestation)
    walk_loop zero i next_root pending = ok pending
    walk_loop (suc left) i next_root pending = elim (source i next_root).is_cancelled [
      | true ↦ ok []
      | false ↦ elim (next_root == 0) [
        | true ↦ ok pending
        | false ↦ elim (source i next_root).has_block [
          | err e ↦ ok []
          | ok true ↦ ok pending
          | ok false ↦ elim (source i next_root).answer [
            | cancelled ↦ ok []
            | timed_out ↦ ok []
            | failed e ↦ err e
            | responds blocks ↦ elim (hop_of blocks next_root) [
              | block b ↦ walk_loop left (i + 1) b.message.block.parent_root (pending ++ b ∷ [])
              | stop ↦ ok pending
              | abort ↦ ok []
            ]
          ]
        ]
      ]
    ]

    unfoldable pub walk_back_with : ℕ → Bytes32 → Result E (List SignedBlockWithAttestation)
    walk_back_with max_depth start_root = walk_loop max_depth 0 start_root []

  module _ {P S E : Type 0} (backend : Backend S E) where
    -- The loop of `import_chain` on the blocks in forward order; `stops i` is the token before block `i`.
    unfoldable pub import_loop :
        (ℕ → Bool) → ℕ → Service P S → List SignedBlockWithAttestation → Service P S
    import_loop stops i chain [] = chain
    import_loop stops i chain (b ∷ blocks) = elim (stops i) [
      | true ↦ chain
      | false ↦ import_loop stops (i + 1) (import_block_synced backend sha256 chain b).0 blocks
    ]

    unfoldable pub import_chain :
        (ℕ → Bool) → Service P S → List SignedBlockWithAttestation → Service P S
    import_chain stops chain blocks = import_loop stops 0 chain (reverse blocks)

    unfoldable pub sync_with_peer :
        {F : Type 0} → Config → WalkSource F → (ℕ → Bool) → Service P S → Bytes32 → Service P S
    sync_with_peer config source stops chain start_root =
        elim (walk_back_with source config.max_sync_depth start_root) [
          | err e ↦ chain
          | ok pending ↦ import_chain stops chain pending
        ]

    -- `handle`, with what the token of the peer says at its start. The status of the peer is missing if it
    -- has disconnected.
    unfoldable pub handle :
        {F : Type 0}
        → Bool
        → Config
        → WalkSource F
        → (ℕ → Bool)
        → Service P S
        → Option Status
        → Service P S
    handle true config source stops chain peer = chain
    handle false config source stops chain none = chain
    handle false config source stops chain (some peer) =
        if should_sync (local_status chain) peer
        then sync_with_peer config source stops chain peer.head.root
        else chain
