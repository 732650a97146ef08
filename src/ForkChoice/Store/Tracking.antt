-- ===== src/ForkChoice/Store/Tracking.antt =====
-- Tracking a block: `block_order` lists the tracked roots once each, and checkpoints only rise.
use lean_rust.Prelude.{
  ℕ, ◌<◌, ◌≡◌, refl, sym, ◌∙◌, ap, ◌⊎◌, inl, inr, Bool, true, false, ◌&&◌, ◌||◌, not, some, List,
  [], ◌∷◌, ◌++◌, ◌==◌, ==→≡, if◌then◌else◌, Bool-cases, ok, err, arith,
}
use lean_rust.Types.Endian.{Bytes32}
use lean_rust.Maps.Hash
use lean_rust.Maps.Hash.{HashMap, contains_key, IsUnique}
use lean_rust.Ssz.Merkleize.{Sha256}
use lean_rust.Protocol.Checkpoint.{Checkpoint}
use lean_rust.Protocol.Block.{Block, block_root}
use lean_rust.Protocol.State.{State, state_root}
use lean_rust.ForkChoice.Errors.{ForkchoiceError, block_state_root_mismatch, parent_block_not_found}
use lean_rust.ForkChoice.Store.{
  Store, insert_block, should_adopt_checkpoint, adopt_post_state_checkpoints, track_block,
}

abbrev pub lists : List Bytes32 → Bytes32 → Bool
lists [] r = false
lists (x ∷ xs) r = x == r || lists xs r

abbrev pub IsDistinct : List Bytes32 → Type 0
IsDistinct [] = Unit
IsDistinct (x ∷ xs) = (lists xs x ≡ false) × IsDistinct xs

-- The two maps and the insertion order hold the same roots, once each.
pub record IsIndexed (self : Store) : Type 0 where
  pub unique : IsUnique self.blocks
  pub distinct : IsDistinct self.block_order
  pub ordered : (r : Bytes32) → lists self.block_order r ≡ contains_key self.blocks r
  pub stated : (r : Bytes32) → contains_key self.states r ≡ contains_key self.blocks r

lists-snoc : (xs : List Bytes32) (x r : Bytes32) → lists (xs ++ x ∷ []) r ≡ (x == r || lists xs r)
lists-snoc [] x r = refl
lists-snoc (y ∷ xs) x r = ground (arith, lists-snoc xs x r)

IsDistinct-snoc :
    (xs : List Bytes32) (x : Bytes32)
    → lists xs x ≡ false
    → IsDistinct xs
    → IsDistinct (xs ++ x ∷ [])
IsDistinct-snoc [] x h d = (refl, tt)
IsDistinct-snoc (y ∷ xs) x h d = ground (arith, lists-snoc xs x y, IsDistinct-snoc xs x)

contains_key-insert {ℓ} :
    {V : Type ℓ} (m : HashMap V) (k : ℕ) (v : V) (r : ℕ)
    → contains_key (Hash.insert m k v) r ≡ (k == r || contains_key m r)
unfolding contains_key
contains_key-insert m k v r = ground (arith, Hash.get-insert m k r v)

pub insert_block-IsIndexed :
    (self : Store) (root : Bytes32) (block : Block) (state : State)
    → IsIndexed self
    → IsIndexed (insert_block self root block state)
unfolding insert_block
insert_block-IsIndexed self root block state i = elim (Bool-cases (contains_key self.blocks root)) [
  | inl known ↦ rw known (record {
    unique = Hash.insert-IsUnique self.blocks root block i.unique;
    distinct = i.distinct;
    ordered = λ r. ground (arith, i.ordered r, contains_key-insert self.blocks root block r, known);
    stated = λ r. ground (arith, i.stated r, contains_key-insert self.blocks root block r, known);
  })
  | inr fresh ↦ rw fresh (record {
    unique = Hash.insert-IsUnique self.blocks root block i.unique;
    distinct = IsDistinct-snoc self.block_order root (i.ordered root ∙ fresh) i.distinct;
    ordered = λ r. ground (
      arith,
      i.ordered r,
      contains_key-insert self.blocks root block r,
      lists-snoc self.block_order root r,
    );
    stated = λ r. ground (
      arith,
      i.stated r,
      contains_key-insert self.blocks root block r,
      contains_key-insert self.states root state r,
    );
  })
]

-- A checkpoint field is kept, or takes a later checkpoint whose block is tracked.
abbrev pub Adopts : HashMap Block → Checkpoint → Checkpoint → Checkpoint → Type 0
Adopts blocks before candidate after =
    (after ≡ before)
    ⊎ ((after ≡ candidate)
        × (before.slot < candidate.slot)
        × (contains_key blocks candidate.root ≡ true))

Adopts-eq :
    (blocks blocks' : HashMap Block) (before before' candidate after : Checkpoint)
    → blocks' ≡ blocks
    → before ≡ before'
    → Adopts blocks before candidate after
    → Adopts blocks' before' candidate after
Adopts-eq blocks blocks' before before' candidate after e e' h = rw (e, sym e') h

-- What adoption leaves, with the rest of the store untouched.
record Adopted (self : Store) (justified finalized : Checkpoint) (self' : Store) : Type 0 where
  rest : self' ≡ record self {
    latest_justified = self'.latest_justified;
    latest_finalized = self'.latest_finalized;
  }
  justified_ok : Adopts self.blocks self.latest_justified justified self'.latest_justified
  finalized_ok : Adopts self.blocks self.latest_finalized finalized self'.latest_finalized

adopt-Adopted :
    (self : Store) (justified finalized : Checkpoint)
    → Adopted self justified finalized (adopt_post_state_checkpoints self justified finalized)
unfolding adopt_post_state_checkpoints should_adopt_checkpoint
adopt-Adopted self justified finalized = record {
  rest = ground arith;
  justified_ok = ground arith;
  finalized_ok = ground arith;
}

module _ (sha256 : Sha256) (self : Store) (block : Block) (post_state : State) where
  abbrev pub root : Bytes32
  root = block_root sha256 block

  -- A block that is new and belongs to the tree.
  pub record Fits : Type 0 where
    pub parity : block.state_root ≡ state_root sha256 post_state
    pub fresh : contains_key self.blocks root ≡ false
    pub attached : (block.parent_root ≡ 0) ⊎ (contains_key self.blocks block.parent_root ≡ true)

  pub record Tracks (self' : Store) : Type 0 where
    pub entries :
        (r : Bytes32)
        → Hash.get self'.blocks r ≡ (if root == r then some block else Hash.get self.blocks r)
    pub order : self'.block_order ≡ self.block_order ++ root ∷ []
    pub indexed : IsIndexed self → IsIndexed self'
    pub justified :
        Adopts self'.blocks self.latest_justified post_state.latest_justified self'.latest_justified
    pub finalized :
        Adopts self'.blocks self.latest_finalized post_state.latest_finalized self'.latest_finalized
    pub head : self'.head ≡ self.head
    pub known : self'.latest_known_votes ≡ self.latest_known_votes
    pub new : self'.latest_new_votes ≡ self.latest_new_votes
    pub time : self'.time ≡ self.time

  abbrev pub inserted : Store
  inserted = insert_block self root block post_state

  abbrev pub tracked : Store
  tracked =
      adopt_post_state_checkpoints inserted post_state.latest_justified post_state.latest_finalized

  adopted : Adopted inserted post_state.latest_justified post_state.latest_finalized tracked
  adopted = adopt-Adopted inserted post_state.latest_justified post_state.latest_finalized

  inserted-entries :
      (r : Bytes32)
      → Hash.get inserted.blocks r ≡ (if root == r then some block else Hash.get self.blocks r)
  unfolding insert_block
  inserted-entries r = ground (arith, Hash.get-insert self.blocks root r block)

  inserted-order : Fits → inserted.block_order ≡ self.block_order ++ root ∷ []
  unfolding insert_block
  inserted-order f = rw f.fresh refl

  inserted_same :
      (inserted.latest_justified ≡ self.latest_justified)
      × (inserted.latest_finalized ≡ self.latest_finalized)
      × (inserted.head ≡ self.head)
      × (inserted.latest_known_votes ≡ self.latest_known_votes)
      × (inserted.latest_new_votes ≡ self.latest_new_votes)
      × (inserted.time ≡ self.time)
  unfolding insert_block
  inserted_same = ground arith

  tracked-blocks : tracked.blocks ≡ inserted.blocks
  tracked-blocks = ap (λ s. s.blocks) adopted.rest

  tracked-IsIndexed : IsIndexed self → IsIndexed tracked
  tracked-IsIndexed i =
      let next = insert_block-IsIndexed self root block post_state i in
      let order = ap (λ s. s.block_order) adopted.rest in
      record {
        unique = rw tracked-blocks next.unique;
        distinct = rw order next.distinct;
        ordered = λ r. rw (order, tracked-blocks) (next.ordered r);
        stated = λ r. rw (ap (λ s. s.states) adopted.rest, tracked-blocks) (next.stated r);
      }

  pub tracked-Tracks : Fits → Tracks tracked
  tracked-Tracks f = record {
    entries = λ r. ap (λ blocks. Hash.get blocks r) tracked-blocks ∙ inserted-entries r;
    order = ap (λ s. s.block_order) adopted.rest ∙ inserted-order f;
    indexed = tracked-IsIndexed;
    justified =
        Adopts-eq inserted.blocks tracked.blocks inserted.latest_justified self.latest_justified _ _
          tracked-blocks inserted_same.0 adopted.justified_ok;
    finalized =
        Adopts-eq inserted.blocks tracked.blocks inserted.latest_finalized self.latest_finalized _ _
          tracked-blocks inserted_same.1 adopted.finalized_ok;
    head = ap (λ s. s.head) adopted.rest ∙ inserted_same.2;
    known = ap (λ s. s.latest_known_votes) adopted.rest ∙ inserted_same.3;
    new = ap (λ s. s.latest_new_votes) adopted.rest ∙ inserted_same.4;
    time = ap (λ s. s.time) adopted.rest ∙ inserted_same.5;
  }

  pub track_block-tracked : Fits → track_block sha256 self block post_state ≡ (tracked, ok true)
  unfolding track_block
  track_block-tracked f = ground (arith, f.parity, f.fresh, f.attached)

  track_block_lem :
      (Fits
        → (self' : Store) × (track_block sha256 self block post_state ≡ (self', ok true))
          × Tracks self')
      × (block.state_root ≡ state_root sha256 post_state
          → contains_key self.blocks root ≡ true
          → track_block sha256 self block post_state ≡ (self, ok false))
      × (¬ Fits
          → ¬ (
              (block.state_root ≡ state_root sha256 post_state)
              × (contains_key self.blocks root ≡ true))
          → (e : ForkchoiceError) × (track_block sha256 self block post_state ≡ (self, err e)))
  unfolding track_block
  track_block_lem =
      let parity = block.state_root == state_root sha256 post_state in
      let orphan =
        not (block.parent_root == 0) && not (contains_key self.blocks block.parent_root) in
      (
        λ f. (tracked, track_block-tracked f, tracked-Tracks f),
        λ parity known. ground (arith, parity, known),
        λ unfit unknown. elim (Bool-cases parity) [
          | inr other ↦ (
            block_state_root_mismatch block.state_root (state_root sha256 post_state),
            rw other refl,
          )
          | inl same ↦ elim (Bool-cases (contains_key self.blocks root)) [
            | inl known ↦ absurd (unknown (==→≡ _ _ same, known))
            | inr fresh ↦ elim (Bool-cases orphan) [
              | inl lone ↦ (parent_block_not_found block.parent_root, rw (same, fresh, lone) refl)
              | inr attached ↦ absurd (
                  unfit (record {
                    parity = ==→≡ _ _ same;
                    fresh = fresh;
                    attached = ground (arith, attached);
                  }))
            ]
          ]
        ],
      )

  -- A new block whose state root is right and whose parent is tracked, or zero, is tracked as `Tracks` says.
  pub track_block-Tracks :
      Fits
      → (self' : Store) × (track_block sha256 self block post_state ≡ (self', ok true))
        × Tracks self'
  track_block-Tracks = track_block_lem.0

  -- A block that is known is not tracked again: the call returns `false` and changes nothing.
  pub track_block_known :
      block.state_root ≡ state_root sha256 post_state
      → contains_key self.blocks root ≡ true
      → track_block sha256 self block post_state ≡ (self, ok false)
  track_block_known = track_block_lem.1

  -- Any other block is refused, and the store is left as it was.
  pub track_block_refuses :
      ¬ Fits
      → ¬ (
          (block.state_root ≡ state_root sha256 post_state)
          × (contains_key self.blocks root ≡ true))
      → (e : ForkchoiceError) × (track_block sha256 self block post_state ≡ (self, err e))
  track_block_refuses = track_block_lem.2
