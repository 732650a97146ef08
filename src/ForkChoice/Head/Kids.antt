-- ===== src/ForkChoice/Head/Kids.antt =====
-- The children map, and the choice of the best child.
use mathlib.Core.List.{append_assoc, append-nil}
use lean_rust.Prelude.{
  ℕ, ◌≤◌, ◌≡◌, refl, sym, ◌∙◌, ap, Bool, true, false, ◌&&◌, ◌||◌, Option, none, some, List, [], ◌∷◌,
  ◌++◌, ltb, leb, ◌==◌, ==→≡, ==_refl, if◌then◌else◌, Bool-cases, inl, inr, arith,
}
use lean_rust.Types.Endian.{Bytes32}
use lean_rust.Maps.Hash
use lean_rust.Maps.Hash.{HashMap, IsUnique, IsFresh}
use lean_rust.Protocol.Block.{Block}
use lean_rust.ForkChoice.Store.Tracking.{lists}
use lean_rust.ForkChoice.Head.{weight_of, push_child, children_map, outranks, best_from}

-- The tracked children of `parent` that reach the score.
abbrev pub eligible : (Bytes32 → ℕ) → ℕ → HashMap Block → Bytes32 → List Bytes32
eligible score min_score [] parent = []
eligible score min_score ((r, block) ∷ blocks) parent =
    let rest = eligible score min_score blocks parent in
    if leb min_score (score r) && block.parent_root == parent then r ∷ rest else rest

-- `a` comes before `b` in the order of `(weight, root)`.
abbrev pub beats : (Bytes32 → ℕ) → Bytes32 → Bytes32 → Bool
beats score a b = ltb (score b) (score a) || score a == score b && ltb b a

abbrev pub kids_of : Option (List Bytes32) → List Bytes32
kids_of none = []
kids_of (some kids) = kids

kids_of-push_child :
    (children : HashMap (List Bytes32)) (parent root p : Bytes32)
    → kids_of (Hash.get (push_child children parent root) p) ≡ (
        if parent == p
        then kids_of (Hash.get children p) ++ root ∷ []
        else kids_of (Hash.get children p))
unfolding push_child
kids_of-push_child children parent root p =
    let kids = kids_of (Hash.get children parent) ++ root ∷ [] in
    elim (Bool-cases (parent == p)) [
      | inl same ↦
          rw (ap kids_of (Hash.get-insert children parent p kids))
            (rw (==→≡ parent p same, ==_refl p) refl)
      | inr other ↦ rw (ap kids_of (Hash.get-insert children parent p kids)) (rw other refl)
    ]

module _ (w : HashMap ℕ) (min_score : ℕ) where
  pub kids_of-children_map :
      (blocks : HashMap Block) (children : HashMap (List Bytes32)) (p : Bytes32)
      → kids_of (Hash.get (children_map w min_score blocks children) p)
        ≡ kids_of (Hash.get children p) ++ eligible (weight_of w) min_score blocks p
  unfolding children_map
  kids_of-children_map [] children p = sym (append-nil (kids_of (Hash.get children p)))
  kids_of-children_map ((r, block) ∷ blocks) children p =
      elim (Bool-cases (leb min_score (weight_of w r))) [
        | inr low ↦ rw low (kids_of-children_map blocks children p)
        | inl high ↦ rw high (
            kids_of-children_map blocks (push_child children block.parent_root r) p
            ∙ rw (kids_of-push_child children block.parent_root r p)
                (elim (Bool-cases (block.parent_root == p)) [
                  | inl mine ↦ rw mine (append_assoc (kids_of (Hash.get children p)) (r ∷ []) _)
                  | inr other ↦ rw other refl
                ]))
      ]

-- No listed root beats `best`.
abbrev pub IsTop : (Bytes32 → ℕ) → List Bytes32 → Bytes32 → Type 0
IsTop score kids best = (k : Bytes32) → lists kids k ≡ true → beats score k best ≡ false

-- The order is linear.
beats_below :
    (score : Bytes32 → ℕ) (a b top : Bytes32)
    → beats score a b ≡ true
    → beats score a top ≡ false
    → beats score b top ≡ false
beats_below score a b top h h' = ground (arith, h, h')

beats_trans :
    (score : Bytes32 → ℕ) (a b top : Bytes32)
    → beats score a b ≡ false
    → beats score b top ≡ false
    → beats score a top ≡ false
beats_trans score a b top h h' = ground (arith, h, h')

IsTop-cons :
    (score : Bytes32 → ℕ) (x y top : Bytes32) (kids : List Bytes32)
    → beats score x top ≡ false
    → IsTop score (y ∷ kids) top
    → IsTop score (x ∷ y ∷ kids) top
IsTop-cons score x y top kids hx rest k h = elim (Bool-cases (x == k)) [
  | inl same ↦ rw (sym (==→≡ x k same)) hx
  | inr other ↦ rest k (rw other at h)
]

IsTop-swap :
    (score : Bytes32 → ℕ) (x y top : Bytes32) (kids : List Bytes32)
    → IsTop score (x ∷ y ∷ kids) top
    → IsTop score (y ∷ x ∷ kids) top
IsTop-swap score x y top kids h k e = h k (ground (arith, e))

pub best_from-lem :
    (w : HashMap ℕ) (best : Bytes32) (kids : List Bytes32)
    → (lists (best ∷ kids) (best_from w best kids) ≡ true)
      × IsTop (weight_of w) (best ∷ kids) (best_from w best kids)
unfolding best_from outranks
best_from-lem w best [] = (ground (arith, ==_refl best), λ k h. ground (arith, h))
best_from-lem w best (r ∷ kids) = elim (Bool-cases (outranks w best r)) [
  | inl keep ↦
      let rest = best_from-lem w best kids in
      let top = best_from w best kids in
      let below =
        beats_below (weight_of w) best r top keep (rest.1 best (ground (arith, ==_refl best))) in
      rw keep (
        ground (arith, rest.0),
        IsTop-swap (weight_of w) r best top kids
            (IsTop-cons (weight_of w) r best top kids below rest.1),
      )
  | inr swap ↦
      let rest = best_from-lem w r kids in
      let top = best_from w r kids in
      let below =
        beats_trans (weight_of w) best r top swap (rest.1 r (ground (arith, ==_refl r))) in
      rw swap (ground (arith, rest.0), IsTop-cons (weight_of w) best r top kids below rest.1)
]

pub lists-eligible :
    (score : Bytes32 → ℕ) (min_score : ℕ) (blocks : HashMap Block) (p r : Bytes32)
    → IsUnique blocks
    → lists (eligible score min_score blocks p) r ≡ true
    → (b : Block) × (Hash.get blocks r ≡ some b) × (b.parent_root ≡ p) × (min_score ≤ score r)
unfolding Hash.get
lists-eligible score min_score [] p r u h = cc
lists-eligible score min_score ((k, b) ∷ blocks) p r u h = elim (Bool-cases (k == r)) [
  | inl same ↦
      let here : k ≡ r = ==→≡ k r same in
      elim (Bool-cases (leb min_score (score k) && b.parent_root == p)) [
        | inl fits ↦
            let high : min_score ≤ score k = ground (arith, fits) in
            (b, rw same refl, ground (arith, fits), rw here at high)
        | inr out ↦
            let (c, hc, _, _) = lists-eligible score min_score blocks p r u.1 (rw out at h) in
            let gone = rw here at (Hash.get-IsFresh blocks k u.0) in cc
      ]
  | inr other ↦ rw other (lists-eligible score min_score blocks p r u.1 (ground (arith, h, other)))
]

pub eligible-lists :
    (score : Bytes32 → ℕ) (min_score : ℕ) (blocks : HashMap Block) (r : Bytes32) (b : Block)
    → Hash.get blocks r ≡ some b
    → min_score ≤ score r
    → lists (eligible score min_score blocks b.parent_root) r ≡ true
unfolding Hash.get
eligible-lists score min_score [] r b h high = cc
eligible-lists score min_score ((k, c) ∷ blocks) r b h high = elim (Bool-cases (k == r)) [
  | inl same ↦
      let mine : c ≡ b =
        (let found : ◌≡◌ {A = Option Block} (some c) (some b) = rw same at h in cc) in
      let high' : min_score ≤ score k = rw (==→≡ k r same) high in
      let fits : (leb min_score (score k) && c.parent_root == b.parent_root) ≡ true =
        ground (arith, high', ap (λ x. x.parent_root) mine) in
      rw fits (rw same refl)
  | inr other ↦
      ground (arith, eligible-lists score min_score blocks r b (rw other at h) high, other)
]
