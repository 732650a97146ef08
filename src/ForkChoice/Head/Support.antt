-- ===== src/ForkChoice/Head/Support.antt =====
-- Which votes count for a block, in terms of ancestry.
use lean_rust.Prelude.{
  ℕ, zero, suc, ◌+◌, ◌≤◌, ◌<◌, ◌≡◌, refl, ap, ◌↔◌, true, some, ltb, ◌==◌, ==→≡, ==_refl, Bool-cases,
  lt→ltb, inl, inr, ok, [], ◌∙◌, length, arith,
}
use lean_rust.Types.Endian.{Bytes32}
use lean_rust.Maps.Hash
use lean_rust.Maps.Hash.{HashMap}
use lean_rust.Protocol.Slot.{Slot}
use lean_rust.Protocol.Checkpoint.{Checkpoint}
use lean_rust.Protocol.Block.{Block}
use lean_rust.ForkChoice.Tree.{IsDescending, IsClosed, Climbs, here, up, same_block}
use lean_rust.ForkChoice.Head.{weight_of, weigh_votes}
use lean_rust.ForkChoice.Head.Weights.{supports, supports_step, counts_for, support, weigh_votes-eq}

module _ (blocks : HashMap Block) (root_slot : Slot) (descending : IsDescending blocks)
    (r : Bytes32) (b : Block) (tracked : Hash.get blocks r ≡ some b) where
  -- A block with a tracked ancestor is tracked, and not below it.
  Climbs-le :
      (cursor : Bytes32)
      → Climbs blocks r cursor
      → (c : Block) × (Hash.get blocks cursor ≡ some c) × (b.slot ≤ c.slot)
  Climbs-le _ here = (b, tracked, omega arith)
  Climbs-le _ (up cursor c hc rest) =
      let (p, hp, le) = Climbs-le c.parent_root rest in
      (c, hc, omega (arith, le, descending cursor c p hc hp))

  supports-Climbs :
      IsClosed blocks root_slot
      → (fuel : ℕ) (cursor : Bytes32) (c : Block) → Hash.get blocks cursor ≡ some c
      → supports blocks root_slot fuel cursor c r ≡ true
      → Climbs blocks r cursor × (root_slot < b.slot)
  supports-Climbs closed zero cursor c hc h = cc
  supports-Climbs closed (suc fuel) cursor c hc h = elim (Bool-cases (ltb root_slot c.slot)) [
    | inr low ↦ cc (rw low at h)
    | inl high ↦
        let above : root_slot < c.slot = ground (arith, high) in
        let (p, hp) = closed cursor c hc above in
        let step = rw (supports_step blocks root_slot fuel cursor c p r above hp) at h in
        elim (Bool-cases (cursor == r)) [
          | inl same ↦
              let meet = same_block blocks r c b (rw (==→≡ cursor r same) at hc) tracked in
              (rw (==→≡ cursor r same) here, omega (arith, above, ap (λ x. x.slot) meet))
          | inr other ↦
              let (rest, higher) =
                supports-Climbs closed fuel c.parent_root p hp (rw other at step) in
              (up cursor c hc rest, higher)
        ]
  ]

  Climbs-supports :
      root_slot < b.slot
      → (fuel : ℕ) (cursor : Bytes32) (c : Block) → Hash.get blocks cursor ≡ some c
      → c.slot ≤ fuel
      → Climbs blocks r cursor
      → supports blocks root_slot fuel cursor c r ≡ true
  Climbs-supports above zero cursor c hc enough h =
      let (d, hd, le) = Climbs-le cursor h in
      let meet = same_block blocks cursor c d hc hd in
      absurd (omega (arith, le, above, enough, ap (λ x. x.slot) meet))
  Climbs-supports above (suc fuel) _ c hc enough here =
      let meet = same_block blocks r c b hc tracked in
      let high : root_slot < c.slot = omega (arith, above, ap (λ x. x.slot) meet) in
      rw (lt→ltb _ _ high, ==_refl r) refl
  Climbs-supports above (suc fuel) cursor c hc enough (up _ d hd rest) =
      let (p, hp, le) = Climbs-le d.parent_root rest in
      let meet = same_block blocks cursor c d hc hd in
      let parent : c.parent_root ≡ d.parent_root = ap (λ x. x.parent_root) meet in
      let hp' : Hash.get blocks c.parent_root ≡ some p = rw parent hp in
      let below = descending cursor c p hc hp' in
      let high : root_slot < c.slot = omega (arith, above, le, below) in
      let later =
        Climbs-supports above fuel c.parent_root p hp' (omega (arith, below, enough))
          (rw parent rest) in
      supports_step blocks root_slot fuel cursor c p r high hp' ∙ rw later (ground arith)

  counts_for_iff :
      IsClosed blocks root_slot
      → (checkpoint : Checkpoint) (head : Block) → Hash.get blocks checkpoint.root ≡ some head
      → (counts_for blocks root_slot checkpoint r ≡ true)
        ↔ (Climbs blocks r checkpoint.root × (root_slot < b.slot))
  counts_for_iff closed checkpoint head hh = (
    λ h.
        supports-Climbs closed (head.slot + length blocks) checkpoint.root head hh
          (rw (hh, counts_for) at h),
    λ (climbs, above).
        rw (hh, counts_for)
          (Climbs-supports above (head.slot + length blocks) checkpoint.root head hh (omega arith)
            climbs),
  )

-- A vote for a tracked head counts for a tracked block exactly if the block is the head or an
-- ancestor of it and stands above the root.
abbrev pub CountsDescendants : HashMap Block → Slot → Type 0
CountsDescendants blocks root_slot =
    (checkpoint : Checkpoint) (head : Block) (r : Bytes32) (b : Block)
    → Hash.get blocks checkpoint.root ≡ some head
    → Hash.get blocks r ≡ some b
    → (counts_for blocks root_slot checkpoint r ≡ true)
      ↔ (Climbs blocks r checkpoint.root × (root_slot < b.slot))

-- In a block tree with rising slots whose blocks above the slot of the root have tracked parents, the
-- walks end and weigh every block by the number of votes that count for it: those with a tracked
-- head that is the block or descends from it, for a block above the root.
pub weigh_votes-CountsDescendants :
    (blocks : HashMap Block) (root_slot : Slot) (votes : HashMap Checkpoint)
    → IsDescending blocks
    → IsClosed blocks root_slot
    → (w : HashMap ℕ) × (weigh_votes blocks root_slot votes [] ≡ ok w)
      × ((r : Bytes32) → weight_of w r ≡ support blocks root_slot votes r)
      × CountsDescendants blocks root_slot
unfolding weight_of Hash.get
weigh_votes-CountsDescendants blocks root_slot votes descending closed =
    let (w, returns, weighs) = weigh_votes-eq blocks root_slot descending closed votes [] in
    (
      w,
      returns,
      λ r. weighs r ∙ omega arith,
      λ checkpoint head r b hh hb.
          counts_for_iff blocks root_slot descending r b hb closed checkpoint head hh,
    )
