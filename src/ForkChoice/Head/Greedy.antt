-- ===== src/ForkChoice/Head/Greedy.antt =====
-- The head: the walks end, and the head is what the greedy rule says.
use lean_rust.Prelude.{
  ℕ, zero, suc, ◌+◌, ◌≤◌, ◌<◌, ◌≡◌, refl, ◌∙◌, ap, true, Option, none, some, List, [], ◌∷◌, length,
  ◌==◌, Bool-cases, Option-cases, inl, inr, ok, arith,
}
use mathlib.Core.Path.{fun_ext}
use lean_rust.Types.Endian.{Bytes32}
use lean_rust.Maps.Hash
use lean_rust.Maps.Hash.{HashMap, IsUnique}
use lean_rust.Protocol.Slot.{Slot}
use lean_rust.Protocol.Checkpoint.{Checkpoint}
use lean_rust.Protocol.Block.{Block}
use lean_rust.ForkChoice.Tree.{IsDescending, IsClosed}
use lean_rust.ForkChoice.Store.Tracking.{lists}
use lean_rust.ForkChoice.Head.{weight_of, children_map, best_child, descend, top_slot, head_from}
use lean_rust.ForkChoice.Head.Weights.{support, weigh_votes-eq}
use lean_rust.ForkChoice.Head.Kids.{
  eligible, IsTop, kids_of, kids_of-children_map, best_from-lem, lists-eligible,
}

-- From a block down to the head, each step to the first of the children that reach the score.
pub data Greedy (score : Bytes32 → ℕ) (min_score : ℕ) (blocks : HashMap Block) (head : Bytes32)
    : Bytes32 → Type 0 where
  leaf : eligible score min_score blocks head ≡ [] → Greedy score min_score blocks head head
  step :
      (r child : Bytes32)
      → lists (eligible score min_score blocks r) child ≡ true
      → IsTop score (eligible score min_score blocks r) child
      → Greedy score min_score blocks head child
      → Greedy score min_score blocks head r

top_slot_lem :
    (blocks : HashMap Block) (r : Bytes32) (b : Block)
    → Hash.get blocks r ≡ some b
    → b.slot ≤ top_slot blocks
unfolding Hash.get
top_slot_lem [] r b h = cc
top_slot_lem ((k, c) ∷ blocks) r b h = elim (Bool-cases (k == r)) [
  | inl same ↦
      let found : ◌≡◌ {A = Option Block} (some c) (some b) = rw same at h in
      let mine : c ≡ b = cc in omega (arith, ap (λ x. x.slot) mine)
  | inr other ↦ omega (arith, top_slot_lem blocks r b (rw other at h))
]

-- No child, or the first of them.
Chosen : (Bytes32 → ℕ) → List Bytes32 → Option Bytes32 → Type 0
Chosen score kids none = kids ≡ []
Chosen score kids (some best) = (lists kids best ≡ true) × IsTop score kids best

best_child-Chosen :
    (w : HashMap ℕ) (kids : Option (List Bytes32))
    → Chosen (weight_of w) (kids_of kids) (best_child w kids)
unfolding best_child Chosen
best_child-Chosen w none = refl
best_child-Chosen w (some []) = refl
best_child-Chosen w (some (r ∷ kids)) = best_from-lem w r kids

module _ (w : HashMap ℕ) (min_score : ℕ) (blocks : HashMap Block) (unique : IsUnique blocks)
    (descending : IsDescending blocks) where
  abbrev children : HashMap (List Bytes32)
  children = children_map w min_score blocks []

  choice :
      (r : Bytes32)
      → Chosen
          (weight_of w)
          (eligible (weight_of w) min_score blocks r)
          (best_child w (Hash.get children r))
  unfolding Hash.get
  choice r =
      rw (kids_of-children_map w min_score blocks [] r) at
        (best_child-Chosen w (Hash.get children r))

  child_above :
      (r : Bytes32) (b : Block) (child : Bytes32)
      → Hash.get blocks r ≡ some b
      → lists (eligible (weight_of w) min_score blocks r) child ≡ true
      → (c : Block) × (Hash.get blocks child ≡ some c)
        × (b.slot < c.slot)
        × (c.slot ≤ top_slot blocks)
  child_above r b child tracked lies =
      let (c, hc, parent, _) = lists-eligible (weight_of w) min_score blocks r child unique lies in
      (c, hc, descending child c b hc (rw parent tracked), top_slot_lem blocks child c hc)

  descend-Greedy :
      (fuel : ℕ) (r : Bytes32) (b : Block)
      → Hash.get blocks r ≡ some b
      → top_slot blocks ≤ fuel + b.slot
      → (head : Bytes32) × (descend w children fuel r ≡ ok head)
        × Greedy (weight_of w) min_score blocks head r
  unfolding descend Chosen
  descend-Greedy zero r b tracked enough =
      elim (Option-cases (best_child w (Hash.get children r))) [
        | inl e ↦ (r, ground (arith, e), leaf (rw e at (choice r)))
        | inr (best, e) ↦
            let (lies, top) = rw e at (choice r) in
            let (c, _, above, below) = child_above r b best tracked lies in
            absurd (omega (arith, above, below, enough))
      ]
  descend-Greedy (suc fuel) r b tracked enough =
      elim (Option-cases (best_child w (Hash.get children r))) [
        | inl e ↦ (r, ground (arith, e), leaf (rw e at (choice r)))
        | inr (best, e) ↦
            let (lies, top) = rw e at (choice r) in
            let (c, hc, above, below) = child_above r b best tracked lies in
            let (head, returns, greedy) =
              descend-Greedy fuel best c hc (omega (arith, above, enough)) in
            (head, ground (arith, e, returns), step r best lies top greedy)
      ]

-- The weights as numbers of supporting votes.
abbrev pub Ghost : HashMap Block → Slot → HashMap Checkpoint → ℕ → Bytes32 → Bytes32 → Type 0
Ghost blocks root_slot votes min_score head root =
    Greedy (support blocks root_slot votes) min_score blocks head root

module _ (blocks : HashMap Block) (unique : IsUnique blocks)
    (descending : IsDescending blocks) where
  pub head_from-Ghost :
      (root : Bytes32) (b : Block) (votes : HashMap Checkpoint) (min_score : ℕ)
      → Hash.get blocks root ≡ some b
      → IsClosed blocks b.slot
      → (head : Bytes32) × (head_from blocks root votes min_score ≡ ok head)
        × Ghost blocks b.slot votes min_score head root
  unfolding head_from weight_of Hash.get
  head_from-Ghost root b votes min_score tracked closed =
      let (w, weighed, weighs) = weigh_votes-eq blocks b.slot descending closed votes [] in
      let (head, returns, greedy) =
        descend-Greedy w min_score blocks unique descending (top_slot blocks + length blocks) root b
          tracked (omega arith) in
      let same : weight_of w ≡ support blocks b.slot votes =
        fun_ext (λ r. weighs r ∙ omega arith) in
      (head, rw (tracked, weighed) returns, rw same at greedy)
