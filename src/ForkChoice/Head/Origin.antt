-- ===== src/ForkChoice/Head/Origin.antt =====
-- The origin of the descent, and the whole rule.
use lean_rust.Prelude.{
  ℕ, ◌≡◌, ◌≢◌, refl, sym, ap, ◌⊎◌, Bool, true, false, ◌&&◌, ◌||◌, Option, none, some, [], ◌∷◌, ltb,
  leb, ◌==◌, ==→≡, ==_refl, if◌then◌else◌, Bool-cases, inl, inr, ok, err, arith,
}
use lean_rust.Types.Endian.{Bytes32}
use lean_rust.Maps.Hash
use lean_rust.Maps.Hash.{HashMap, IsUnique}
use lean_rust.Protocol.Slot.{Slot}
use lean_rust.Protocol.Checkpoint.{Checkpoint}
use lean_rust.Protocol.Block.{Block}
use lean_rust.ForkChoice.Errors.{unknown_root_block}
use lean_rust.ForkChoice.Tree.{IsDescending, IsClosed}
use lean_rust.ForkChoice.Head.{lowest, min_block_root, head_from, get_fork_choice_head}
use lean_rust.ForkChoice.Head.Greedy.{Ghost, head_from-Ghost}

-- `(slot, root)` is not above `(slot', root')`.
abbrev pub not_above : Slot → Bytes32 → Slot → Bytes32 → Bool
not_above slot root slot' root' = ltb slot slot' || slot == slot' && leb root root'

-- The block with the lowest slot, and of those the one with the lowest root.
pub record IsLowest (blocks : HashMap Block) (root : Bytes32) (block : Block) : Type 0 where
  pub tracked : Hash.get blocks root ≡ some block
  pub lowest_of :
      (r : Bytes32) (b : Block)
      → Hash.get blocks r ≡ some b
      → not_above block.slot root b.slot r ≡ true

not_above_trans :
    (s r s' r' s'' r'' : ℕ)
    → not_above s r s' r' ≡ true
    → not_above s' r' s'' r'' ≡ true
    → not_above s r s'' r'' ≡ true
not_above_trans s r s' r' s'' r'' h h' = ground (arith, h, h')

-- The outcome of the fold from a first candidate.
record Settles (blocks : HashMap Block) (root : Bytes32) (slot : Slot) (found : Bytes32)
    : Type 0 where
  at_slot : Slot
  origin :
      ((found ≡ root) × (at_slot ≡ slot))
      ⊎ ((b : Block) × (Hash.get blocks found ≡ some b) × (b.slot ≡ at_slot))
  first : not_above at_slot found slot root ≡ true
  all :
      (r : Bytes32) (b : Block)
      → Hash.get blocks r ≡ some b
      → not_above at_slot found b.slot r ≡ true

get_later :
    (blocks : HashMap Block) (k : Bytes32) (c : Block) (r : Bytes32) (b : Block)
    → Hash.IsFresh k blocks
    → Hash.get blocks r ≡ some b
    → Hash.get ((k, c) ∷ blocks) r ≡ some b
unfolding Hash.get
get_later blocks k c r b fresh h = elim (Bool-cases (k == r)) [
  | inl same ↦ let gone = rw (==→≡ k r same) at (Hash.get-IsFresh blocks k fresh) in cc
  | inr other ↦ rw other h
]

first_entry :
    (blocks : HashMap Block) (k : Bytes32) (c : Block) (r : Bytes32) (b : Block)
    → (k == r) ≡ true
    → Hash.get ((k, c) ∷ blocks) r ≡ some b
    → c ≡ b
unfolding Hash.get
first_entry blocks k c r b same h =
    let found : ◌≡◌ {A = Option Block} (some c) (some b) = rw same at h in cc

-- A candidate that the entry `k` is compared with.
Settles-cons :
    (blocks : HashMap Block) (k : Bytes32) (c : Block) (root : Bytes32) (slot : Slot)
    (found : Bytes32)
    → IsUnique ((k, c) ∷ blocks)
    → (lower : Bool) → lower ≡ (ltb c.slot slot || c.slot == slot && ltb k root)
    → Settles blocks (if lower then k else root) (if lower then c.slot else slot) found
    → Settles ((k, c) ∷ blocks) root slot found
unfolding Hash.get
Settles-cons blocks k c root slot found u true e s = record {
  at_slot = s.at_slot;
  origin = elim s.origin [
    | inl (here, height) ↦ inr (c, rw (here, ==_refl k) refl, sym height)
    | inr (b, hb, height) ↦ inr (b, get_later blocks k c found b u.0 hb, height)
  ];
  first = not_above_trans s.at_slot found c.slot k slot root s.first (ground (arith, e));
  all = λ r b h. elim (Bool-cases (k == r)) [
    | inl same ↦
        let mine : c ≡ b = first_entry blocks k c r b same h in
        rw (sym (==→≡ k r same), sym (ap (λ x. x.slot) mine)) s.first
    | inr other ↦ s.all r b (rw other at h)
  ];
}
Settles-cons blocks k c root slot found u false e s = record {
  at_slot = s.at_slot;
  origin = elim s.origin [
    | inl old ↦ inl old
    | inr (b, hb, height) ↦ inr (b, get_later blocks k c found b u.0 hb, height)
  ];
  first = s.first;
  all = λ r b h. elim (Bool-cases (k == r)) [
    | inl same ↦
        let mine : c ≡ b = first_entry blocks k c r b same h in
        rw (sym (==→≡ k r same), sym (ap (λ x. x.slot) mine))
          (not_above_trans s.at_slot found slot root c.slot k s.first (ground (arith, e)))
    | inr other ↦ s.all r b (rw other at h)
  ];
}

lowest-Settles :
    (blocks : HashMap Block) (root : Bytes32) (slot : Slot)
    → IsUnique blocks
    → Settles blocks root slot (lowest root slot blocks)
unfolding Hash.get
lowest-Settles [] root slot u = record {
  at_slot = slot;
  origin = inl (refl, refl);
  first = ground arith;
  all = λ r b h. cc;
}
lowest-Settles ((k, c) ∷ blocks) root slot u =
    Settles-cons blocks k c root slot _ u _ refl (lowest-Settles blocks _ _ u.1)

Settles-IsLowest :
    (blocks : HashMap Block) (k : Bytes32) (c : Block) (found : Bytes32)
    → Settles ((k, c) ∷ blocks) k c.slot found
    → (block : Block) × IsLowest ((k, c) ∷ blocks) found block
unfolding Hash.get
Settles-IsLowest blocks k c found s = elim s.origin [
  | inl (here, height) ↦ (
    c,
    record { tracked = rw (here, ==_refl k) refl; lowest_of = λ r b h. rw height at (s.all r b h) },
  )
  | inr (b, hb, height) ↦ (b, record { tracked = hb; lowest_of = λ r d h. rw height (s.all r d h) })
]

no_lower : (slot k : ℕ) → false ≡ (ltb slot slot || slot == slot && ltb k k)
no_lower slot k = ground arith

pub min_block_root-IsLowest :
    (blocks : HashMap Block) (r : Bytes32) (b : Block)
    → IsUnique blocks
    → Hash.get blocks r ≡ some b
    → (root : Bytes32) × (block : Block) × (min_block_root blocks ≡ some root)
      × IsLowest blocks root block
unfolding min_block_root Hash.get
min_block_root-IsLowest [] r b u h = cc
min_block_root-IsLowest ((k, c) ∷ blocks) r b u h =
    let found = lowest k c.slot blocks in
    let (block, low) = Settles-IsLowest blocks k c found (
      Settles-cons blocks k c k c.slot found u false (no_lower c.slot k)
        (lowest-Settles blocks k c.slot u.1)) in
    (found, block, refl, low)

IsLowest-unique :
    (blocks : HashMap Block) (r r' : Bytes32) (b b' : Block)
    → IsLowest blocks r b
    → IsLowest blocks r' b'
    → r ≡ r'
IsLowest-unique blocks r r' b b' h h' =
    ground (arith, h.lowest_of r' b' h'.tracked, h'.lowest_of r b h.tracked)

-- Where the descent starts: at a root that is given, or at the lowest block for the zero root.
pub record IsOrigin (blocks : HashMap Block) (root origin : Bytes32) (block : Block) : Type 0 where
  pub tracked : Hash.get blocks origin ≡ some block
  pub resolved : ((root ≢ 0) × (origin ≡ root)) ⊎ ((root ≡ 0) × IsLowest blocks origin block)

module _ (blocks : HashMap Block) (unique : IsUnique blocks) (votes : HashMap Checkpoint)
    (min_score : ℕ) where
  -- In a block tree with rising slots whose blocks above the origin have tracked parents, the rule returns a
  -- head, and it is the one that is reached from the origin by going, while a child has the score, to
  -- the child with the most supporting votes, the higher root among equals.
  pub get_fork_choice_head-Ghost :
      IsDescending blocks
      → (root origin : Bytes32) (block : Block) → IsOrigin blocks root origin block
      → IsClosed blocks block.slot
      → (head : Bytes32) × (get_fork_choice_head blocks root votes min_score ≡ ok head)
        × Ghost blocks block.slot votes min_score head origin
  unfolding get_fork_choice_head
  get_fork_choice_head-Ghost descending root origin block o closed =
      let (head, returns, ghost) =
        head_from-Ghost blocks unique descending origin block votes min_score o.tracked closed in
      elim o.resolved [
        | inl (given, same) ↦ (head, ground (arith, given, same, returns), ghost)
        | inr (zero_root, low) ↦
            let (found, fb, e, low') =
              min_block_root-IsLowest blocks origin block unique low.tracked in
            let same : found ≡ origin = IsLowest-unique blocks found origin fb block low' low in
            (head, rw (zero_root, e, same) returns, ghost)
      ]

  -- A root that is given and not tracked is refused.
  pub get_fork_choice_head_unknown :
      (root : Bytes32)
      → root ≢ 0
      → Hash.get blocks root ≡ none
      → get_fork_choice_head blocks root votes min_score ≡ err (unknown_root_block root)
  unfolding get_fork_choice_head head_from
  get_fork_choice_head_unknown root given missing = ground (arith, given, missing)
