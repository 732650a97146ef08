-- ===== src/ForkChoice/Head/Weights.antt =====
-- The weights: a block weighs the votes whose head stands on it, above the root.
use lean_rust.Prelude.{
  ℕ, zero, suc, ◌+◌, ◌≤◌, ◌<◌, ◌≡◌, refl, ◌∙◌, ap, Bool, true, false, ◌||◌, none, some, [], ◌∷◌,
  length, ltb, ◌==◌, ==→≡, if◌then◌else◌, Bool-cases, lt→ltb, Option-cases, inl, inr, ok, arith,
}
use lean_rust.Types.Endian.{Bytes32}
use lean_rust.Maps.Hash
use lean_rust.Maps.Hash.{HashMap}
use lean_rust.Protocol.Slot.{Slot}
use lean_rust.Protocol.Checkpoint.{Checkpoint}
use lean_rust.Protocol.Block.{Block}
use lean_rust.ForkChoice.Tree.{IsDescending, IsClosed, same_block}
use lean_rust.ForkChoice.Head.{weight_of, bump, weigh, weigh_votes}

abbrev pub one_if : Bool → ℕ
one_if true = 1
one_if false = 0

-- The block `r` lies on the way from the cursor up to the slot of the root, that slot not included.
abbrev pub supports : HashMap Block → Slot → ℕ → Bytes32 → Block → Bytes32 → Bool
supports blocks root_slot zero cursor block r = false
supports blocks root_slot (suc fuel) cursor block r =
    let rest : Bool = elim (Hash.get blocks block.parent_root) [
      | none ↦ false
      | some parent ↦ supports blocks root_slot fuel block.parent_root parent r
    ] in
    if ltb root_slot block.slot then cursor == r || rest else false

-- The vote counts for the block `r`.
abbrev pub counts_for : HashMap Block → Slot → Checkpoint → Bytes32 → Bool
counts_for blocks root_slot checkpoint r = elim (Hash.get blocks checkpoint.root) [
  | none ↦ false
  | some block ↦ supports blocks root_slot (block.slot + length blocks) checkpoint.root block r
]

-- The number of votes that count for `r`.
abbrev pub support : HashMap Block → Slot → HashMap Checkpoint → Bytes32 → ℕ
support blocks root_slot [] r = 0
support blocks root_slot ((v, checkpoint) ∷ votes) r =
    one_if (counts_for blocks root_slot checkpoint r) + support blocks root_slot votes r

pub supports_step :
    (blocks : HashMap Block) (root_slot : Slot) (fuel : ℕ) (cursor : Bytes32) (block parent : Block)
    (r : Bytes32)
    → root_slot < block.slot
    → Hash.get blocks block.parent_root ≡ some parent
    → supports blocks root_slot (suc fuel) cursor block r
      ≡ (cursor == r || supports blocks root_slot fuel block.parent_root parent r)
supports_step blocks root_slot fuel cursor block parent r above hp = rw (lt→ltb _ _ above, hp) refl

weight_of-bump :
    (w : HashMap ℕ) (cursor r : Bytes32)
    → weight_of (bump w cursor) r ≡ weight_of w r + one_if (cursor == r)
unfolding weight_of bump
weight_of-bump w cursor r = ground (arith, Hash.get-insert w cursor r (weight_of w cursor + 1))

module _ (blocks : HashMap Block) (root_slot : Slot) (descending : IsDescending blocks)
    (closed : IsClosed blocks root_slot) where
  -- Below a block no walk comes back to it.
  supports_below :
      (fuel : ℕ) (cursor r : Bytes32) (c b : Block)
      → Hash.get blocks cursor ≡ some c
      → Hash.get blocks r ≡ some b
      → c.slot < b.slot
      → supports blocks root_slot fuel cursor c r ≡ false
  supports_below zero cursor r c b hc hb below = refl
  supports_below (suc fuel) cursor r c b hc hb below = elim (Bool-cases (ltb root_slot c.slot)) [
    | inr e ↦ rw e refl
    | inl e ↦
        let (p, hp) = closed cursor c hc (ground (arith, e)) in
        let rest =
          supports_below fuel c.parent_root r p b hp hb
            (omega (arith, descending cursor c p hc hp, below)) in
        supports_step blocks root_slot fuel cursor c p r (ground (arith, e)) hp
        ∙ elim (Bool-cases (cursor == r)) [
          | inl same ↦
              let meet : c ≡ b = same_block blocks r c b (rw (==→≡ cursor r same) at hc) hb in
              absurd (omega (arith, ap (λ x. x.slot) meet, below))
          | inr other ↦ rw (other, rest) refl
        ]
  ]

  weigh-eq :
      (fuel : ℕ) (cursor : Bytes32) (block : Block) (w : HashMap ℕ)
      → Hash.get blocks cursor ≡ some block
      → block.slot ≤ fuel
      → (w' : HashMap ℕ) × (weigh blocks root_slot fuel cursor block w ≡ ok w')
        × ((r : Bytes32)
            → weight_of w' r
              ≡ weight_of w r + one_if (supports blocks root_slot fuel cursor block r))
  unfolding weigh
  weigh-eq zero cursor block w tracked enough = (w, ground (arith, enough), λ r. omega arith)
  weigh-eq (suc fuel) cursor block w tracked enough = elim (Bool-cases (ltb root_slot block.slot)) [
    | inr e ↦ (w, rw e refl, λ r. rw e (omega arith))
    | inl e ↦
        let (p, hp) = closed cursor block tracked (ground (arith, e)) in
        let below = descending cursor block p tracked hp in
        let (w', returns, weighs) =
          weigh-eq fuel block.parent_root p (bump w cursor) hp (omega (arith, below, enough)) in
        (
          w',
          rw (e, hp) returns,
          λ r.
              let step =
                supports_step blocks root_slot fuel cursor block p r (ground (arith, e)) hp in
              rw step (elim (Bool-cases (cursor == r)) [
                | inr other ↦ ground (arith, weighs r, weight_of-bump w cursor r, other)
                | inl same ↦
                    let mine : Hash.get blocks r ≡ some block =
                      rw (==→≡ cursor r same) at tracked in
                    let once = supports_below fuel block.parent_root r p block hp mine below in
                    ground (arith, weighs r, weight_of-bump w cursor r, same, once)
              ]),
        )
  ]

  -- Every vote with a tracked head is counted once for each block that it supports.
  pub weigh_votes-eq :
      (votes : HashMap Checkpoint) (w : HashMap ℕ)
      → (w' : HashMap ℕ) × (weigh_votes blocks root_slot votes w ≡ ok w')
        × ((r : Bytes32) → weight_of w' r ≡ weight_of w r + support blocks root_slot votes r)
  unfolding weigh_votes
  weigh_votes-eq [] w = (w, refl, λ r. omega arith)
  weigh_votes-eq ((v, checkpoint) ∷ votes) w =
      elim (Option-cases (Hash.get blocks checkpoint.root)) [
        | inl e ↦
            let (w', returns, weighs) = weigh_votes-eq votes w in
            (w', ground (arith, e, returns), λ r. ground (arith, e, weighs r))
        | inr (block, e) ↦
            let (w1, first, one) =
              weigh-eq (block.slot + length blocks) checkpoint.root block w e (omega arith) in
            let (w', returns, weighs) = weigh_votes-eq votes w1 in
            (w', ground (arith, e, first, returns), λ r. ground (arith, e, one r, weighs r))
      ]
