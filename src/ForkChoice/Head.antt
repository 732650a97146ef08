-- ===== src/ForkChoice/Head.antt =====
-- crates/forkchoice/src/helpers.rs: `get_fork_choice_head`, the LMD-GHOST rule. A loop that climbs
-- or descends the block tree has the number of blocks and a slot as its fuel: a walk that takes more
-- steps than there are blocks comes back to a block and never ends, and where slots rise from parent to
-- child the slot alone is enough.
pub mod Weights
pub mod Support
pub mod Kids
pub mod Greedy
pub mod Origin
use package.lean_rust.Prelude.{
  ℕ, zero, suc, ◌+◌, max, Bool, true, false, ◌&&◌, ◌||◌, Option, none, some, List, [], ◌∷◌, ◌++◌,
  length, ltb, leb, ◌==◌, if◌then◌else◌, Result, ok, err, ◌>>=◌, ok_or,
}
use package.lean_rust.Types.Endian.{Bytes32}
use package.lean_rust.Maps.Hash
use package.lean_rust.Maps.Hash.{HashMap}
use package.lean_rust.Protocol.Slot.{Slot}
use package.lean_rust.Protocol.Checkpoint.{Checkpoint}
use package.lean_rust.Protocol.Block.{Block}
use package.lean_rust.ForkChoice.Errors.{
  ForkchoiceError, parent_block_not_found, no_blocks_available, unknown_root_block, out_of_fuel,
}

-- `(slot, root)` in the order of the tuple.
abbrev pub lowest : ℕ → Slot → HashMap Block → Bytes32
lowest root slot [] = root
lowest root slot ((r, b) ∷ blocks) =
    let lower = ltb b.slot slot || b.slot == slot && ltb r root in
    lowest (if lower then r else root) (if lower then b.slot else slot) blocks

unfoldable pub min_block_root : HashMap Block → Option Bytes32
min_block_root [] = none
min_block_root ((r, b) ∷ blocks) = some (lowest r b.slot blocks)

-- `weights.get(r).copied().unwrap_or(0)`
unfoldable pub weight_of : HashMap ℕ → Bytes32 → ℕ
weight_of weights r = elim (Hash.get weights r) [ none ↦ 0 | some w ↦ w ]

-- `*weights.entry(cursor).or_default() += 1`
unfoldable pub bump : HashMap ℕ → Bytes32 → HashMap ℕ
bump weights cursor = Hash.insert weights cursor (weight_of weights cursor + 1)

-- `while block.slot > root_slot { .. }`
unfoldable pub weigh :
    HashMap Block → Slot → ℕ → Bytes32 → Block → HashMap ℕ → Result ForkchoiceError (HashMap ℕ)
weigh blocks root_slot zero cursor block weights =
    if ltb root_slot block.slot then err out_of_fuel else ok weights
weigh blocks root_slot (suc fuel) cursor block weights =
    if ltb root_slot block.slot
    then (ok_or (Hash.get blocks block.parent_root) (parent_block_not_found block.parent_root)
        >>= λ parent. weigh blocks root_slot fuel block.parent_root parent (bump weights cursor))
    else ok weights

-- `for checkpoint in latest_votes.values()`
unfoldable pub weigh_votes :
    HashMap Block → Slot → HashMap Checkpoint → HashMap ℕ → Result ForkchoiceError (HashMap ℕ)
weigh_votes blocks root_slot [] weights = ok weights
weigh_votes blocks root_slot ((v, checkpoint) ∷ votes) weights =
    elim (Hash.get blocks checkpoint.root) [
      | none ↦ weigh_votes blocks root_slot votes weights
      | some block ↦
          weigh blocks root_slot (block.slot + length blocks) checkpoint.root block weights
          >>= weigh_votes blocks root_slot votes
    ]

-- `children.entry(parent_root).or_default().push(root)`
unfoldable pub push_child : HashMap (List Bytes32) → Bytes32 → Bytes32 → HashMap (List Bytes32)
push_child children parent root =
    let kids : List Bytes32 = elim (Hash.get children parent) [ none ↦ [] | some kids ↦ kids ] in
    Hash.insert children parent (kids ++ root ∷ [])

-- `for (block_root, block) in blocks`
unfoldable pub children_map :
    HashMap ℕ → ℕ → HashMap Block → HashMap (List Bytes32) → HashMap (List Bytes32)
children_map weights min_score [] children = children
children_map weights min_score ((r, block) ∷ blocks) children =
    if leb min_score (weight_of weights r)
    then children_map weights min_score blocks (push_child children block.parent_root r)
    else children_map weights min_score blocks children

-- `(weight_of(a), a) > (weight_of(b), b)`
unfoldable pub outranks : HashMap ℕ → Bytes32 → Bytes32 → Bool
outranks weights a b =
    ltb (weight_of weights b) (weight_of weights a)
    || weight_of weights a == weight_of weights b && ltb b a

-- `max_by_key`, which keeps the last of equals.
unfoldable pub best_from : HashMap ℕ → Bytes32 → List Bytes32 → Bytes32
best_from weights best [] = best
best_from weights best (r ∷ kids) =
    best_from weights (if outranks weights best r then best else r) kids

unfoldable pub best_child : HashMap ℕ → Option (List Bytes32) → Option Bytes32
best_child weights none = none
best_child weights (some []) = none
best_child weights (some (r ∷ kids)) = some (best_from weights r kids)

-- `while let Some(best) = ..`
unfoldable pub descend :
    HashMap ℕ → HashMap (List Bytes32) → ℕ → Bytes32 → Result ForkchoiceError Bytes32
descend weights children zero current = elim (best_child weights (Hash.get children current)) [
  | none ↦ ok current
  | some best ↦ err out_of_fuel
]
descend weights children (suc fuel) current =
    elim (best_child weights (Hash.get children current)) [
      | none ↦ ok current
      | some best ↦ descend weights children fuel best
    ]

abbrev pub top_slot : HashMap Block → Slot
top_slot [] = 0
top_slot ((r, block) ∷ blocks) = max block.slot (top_slot blocks)

-- The three steps, from a root that is resolved.
unfoldable pub head_from :
    HashMap Block → Bytes32 → HashMap Checkpoint → ℕ → Result ForkchoiceError Bytes32
head_from blocks root latest_votes min_score = do
  root_block ← ok_or (Hash.get blocks root) (unknown_root_block root)
  weights ← weigh_votes blocks root_block.slot latest_votes []
  let children = children_map weights min_score blocks []
  descend weights children (top_slot blocks + length blocks) root

unfoldable pub get_fork_choice_head :
    HashMap Block → Bytes32 → HashMap Checkpoint → ℕ → Result ForkchoiceError Bytes32
get_fork_choice_head blocks root latest_votes min_score = do
  origin ← if root == 0 then ok_or (min_block_root blocks) no_blocks_available else ok root
  head_from blocks origin latest_votes min_score
