-- ===== src/ForkChoice/Tree.antt =====
-- The block tree of the fork choice: slots rise from parent to child, and ancestry.
use lean_rust.Prelude.{◌<◌, ◌≡◌, some, ap, arith}
use lean_rust.Types.Endian.{Bytes32}
use lean_rust.Maps.Hash
use lean_rust.Maps.Hash.{HashMap}
use lean_rust.Protocol.Slot.{Slot}
use lean_rust.Protocol.Block.{Block}

-- A tracked parent has a lower slot.
abbrev pub IsDescending : HashMap Block → Type 0
IsDescending blocks =
    (r : Bytes32) (b p : Block)
    → Hash.get blocks r ≡ some b
    → Hash.get blocks b.parent_root ≡ some p
    → p.slot < b.slot

-- A tracked block above the floor has a tracked parent.
abbrev pub IsClosed : HashMap Block → Slot → Type 0
IsClosed blocks floor =
    (r : Bytes32) (b : Block)
    → Hash.get blocks r ≡ some b
    → floor < b.slot
    → (p : Block) × (Hash.get blocks b.parent_root ≡ some p)

-- From a block to an ancestor, or to itself.
pub data Climbs (blocks : HashMap Block) (ancestor : Bytes32) : Bytes32 → Type 0 where
  here : Climbs blocks ancestor ancestor
  up :
      (r : Bytes32) (b : Block)
      → Hash.get blocks r ≡ some b
      → Climbs blocks ancestor b.parent_root
      → Climbs blocks ancestor r

pub same_block :
    (blocks : HashMap Block) (r : Bytes32) (b c : Block)
    → Hash.get blocks r ≡ some b
    → Hash.get blocks r ≡ some c
    → b ≡ c
same_block blocks r b c hb hc = cc

-- A block above its ancestor passes it on to its parent.
pub Climbs-parent :
    (blocks : HashMap Block) (ancestor r : Bytes32) (a b : Block)
    → Hash.get blocks ancestor ≡ some a
    → Hash.get blocks r ≡ some b
    → a.slot < b.slot
    → Climbs blocks ancestor r
    → Climbs blocks ancestor b.parent_root
Climbs-parent blocks ancestor _ a b ha hb above here =
    let e : a.slot ≡ b.slot = ap (λ x. x.slot) (same_block blocks ancestor a b ha hb) in
    absurd (omega (arith, e, above))
Climbs-parent blocks ancestor _ a b ha hb above (up r c hc rest) =
    let e : b.parent_root ≡ c.parent_root =
      ap (λ x. x.parent_root) (same_block blocks r b c hb hc) in
    rw e rest

-- From an ancestor of an ancestor.
pub Climbs-trans :
    (blocks : HashMap Block) (top middle r : Bytes32)
    → Climbs blocks top middle
    → Climbs blocks middle r
    → Climbs blocks top r
Climbs-trans blocks top middle _ h here = h
Climbs-trans blocks top middle _ h (up r b hb rest) =
    up r b hb (Climbs-trans blocks top middle b.parent_root h rest)
