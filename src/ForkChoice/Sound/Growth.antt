-- ===== src/ForkChoice/Sound/Growth.antt =====
-- A sound store that grows by a block, and the anchors that a store starts from.
use lean_rust.Prelude.{
  ◌≤◌, ◌<◌, ◌≡◌, ◌≢◌, sym, ◌∙◌, ap, ◌⊎◌, inl, inr, true, false, some, Bool-cases, ◌==◌, ==→≡, ==→≢,
  if◌then◌else◌, ok, arith, ltb, ltb→lt, ltb→le,
}
use lean_rust.Types.Endian.{Bytes32}
use lean_rust.Maps.Hash
use lean_rust.Maps.Hash.{HashMap, IsUnique, contains_key, get-contains_key, contains_key-get}
use lean_rust.Ssz.Merkleize.{Sha256}
use lean_rust.Protocol.Block.{Block, block_root}
use lean_rust.Protocol.State.{State, state_root}
use lean_rust.ForkChoice.Store.{Store, insert_block, adopt_post_state_checkpoints, track_block}
use lean_rust.ForkChoice.Store.Tracking.{Fits, tracked, tracked-Tracks, track_block-tracked}
use lean_rust.ForkChoice.Tree.{IsDescending, IsClosed, same_block}
use lean_rust.ForkChoice.Sound.Origins.{IsSound}

-- A block that a transition from its tracked parent's post-state gives.
pub record Grows (sha256 : Sha256) (self : Store) (block : Block) (post_state : State)
    : Type 0 where
  pub parity : block.state_root ≡ state_root sha256 post_state
  pub fresh : contains_key self.blocks (block_root sha256 block) ≡ false
  pub parent : Block
  pub attached : Hash.get self.blocks block.parent_root ≡ some parent
  pub later : parent.slot < block.slot
  pub headed : post_state.latest_block_header.slot ≡ block.slot

-- No block later than the anchor has a root that is the anchor's parent: the hash has no such cycle.
abbrev pub NoReturn : Sha256 → Block → Type 0
NoReturn sha256 anchor =
    (b : Block) → anchor.slot < b.slot → block_root sha256 b ≢ anchor.parent_root

module _ {anchor : Block} (sha256 : Sha256) (self : Store) (block : Block) (post_state : State)
    (s : IsSound anchor self) (proper : NoReturn sha256 anchor)
    (g : Grows sha256 self block post_state) where
  abbrev root : Bytes32
  root = block_root sha256 block

  Grows-Fits : Fits sha256 self block post_state
  Grows-Fits = record {
    parity = g.parity;
    fresh = g.fresh;
    attached = inr (contains_key-get self.blocks block.parent_root g.attached);
  }

  abbrev grown : Store
  grown = tracked sha256 self block post_state

  grown-tree :
      (grown.blocks ≡ Hash.insert self.blocks root block)
      × (grown.states ≡ Hash.insert self.states root post_state)
      × (grown.safe_target ≡ self.safe_target)
  unfolding insert_block adopt_post_state_checkpoints
  grown-tree = ground (arith, g.fresh)

  grown-get :
      (r : Bytes32)
      → Hash.get grown.blocks r ≡ (if root == r then some block else Hash.get self.blocks r)
  grown-get r = rw grown-tree.0 (Hash.get-insert self.blocks root r block)

  -- An entry of the grown tree is the new block, or an old one under another root.
  grown-cases :
      (r : Bytes32) (b : Block)
      → Hash.get grown.blocks r ≡ some b
      → ((root ≡ r) × (block ≡ b)) ⊎ ((root ≢ r) × (Hash.get self.blocks r ≡ some b))
  grown-cases r b h = elim (Bool-cases (root == r)) [
    | inl same ↦ inl (==→≡ root r same, ground (arith, grown-get r, h, same))
    | inr other ↦ inr (==→≢ root r other, ground (arith, grown-get r, h, other))
  ]

  grown-old :
      (r : Bytes32) (b : Block) → Hash.get self.blocks r ≡ some b → Hash.get grown.blocks r ≡ some b
  grown-old r b h = elim (Bool-cases (root == r)) [
    | inl same ↦
        let known = contains_key-get self.blocks r h in
        absurd (ground (arith, rw (sym (==→≡ root r same)) at known, g.fresh))
    | inr other ↦ ground (arith, grown-get r, h, other)
  ]

  grown-tracked :
      (r : Bytes32) → contains_key self.blocks r ≡ true → contains_key grown.blocks r ≡ true
  grown-tracked r h =
      let (b, hb) = get-contains_key self.blocks r h in
      contains_key-get grown.blocks r (grown-old r b hb)

  above_anchor : anchor.slot < block.slot
  above_anchor = omega (arith, s.floored block.parent_root g.parent g.attached, g.later)

  -- No tracked block names the new root as its parent.
  unclaimed : (r : Bytes32) (b : Block) → Hash.get self.blocks r ≡ some b → b.parent_root ≢ root
  unclaimed r b hb claims = elim (Bool-cases (ltb anchor.slot b.slot)) [
    | inl above ↦
        let (p, hp) = s.closed r b hb (ltb→lt _ _ above) in
        let known = contains_key-get self.blocks b.parent_root hp in
        absurd (ground (arith, rw claims at known, g.fresh))
    | inr below ↦ proper block above_anchor (sym claims ∙ s.anchored r b hb (ltb→le _ _ below))
  ]

  grown-descending : IsDescending grown.blocks
  grown-descending r b p hb hp = elim (grown-cases r b hb) [
    | inl (new, mine) ↦
        let hp' : Hash.get grown.blocks block.parent_root ≡ some p =
          rw (sym (ap (λ x. x.parent_root) mine)) at hp in
        let above : Hash.get grown.blocks block.parent_root ≡ some g.parent =
          grown-old block.parent_root g.parent g.attached in
        let same = same_block grown.blocks block.parent_root p g.parent hp' above in
        omega (arith, ap (λ x. x.slot) same, ap (λ x. x.slot) mine, g.later)
    | inr (old, hb') ↦ elim (grown-cases b.parent_root p hp) [
      | inl (new, mine) ↦ absurd (unclaimed r b hb' (sym new))
      | inr (older, hp') ↦ s.descending r b p hb' hp'
    ]
  ]

  grown-closed : IsClosed grown.blocks anchor.slot
  grown-closed r b hb above = elim (grown-cases r b hb) [
    | inl (new, mine) ↦ (g.parent, rw (sym mine) (grown-old block.parent_root g.parent g.attached))
    | inr (old, hb') ↦ let (p, hp) = s.closed r b hb' above in (p, grown-old b.parent_root p hp)
  ]

  grown-floored :
      (r : Bytes32) (b : Block) → Hash.get grown.blocks r ≡ some b → anchor.slot ≤ b.slot
  grown-floored r b hb = elim (grown-cases r b hb) [
    | inl (new, mine) ↦
        omega
          (arith, s.floored block.parent_root g.parent g.attached, g.later, ap (λ x. x.slot) mine)
    | inr (old, hb') ↦ s.floored r b hb'
  ]

  grown-anchored :
      (r : Bytes32) (b : Block)
      → Hash.get grown.blocks r ≡ some b
      → b.slot ≤ anchor.slot
      → b.parent_root ≡ anchor.parent_root
  grown-anchored r b hb low = elim (grown-cases r b hb) [
    | inl (new, mine) ↦ absurd (omega (arith, ap (λ x. x.slot) mine, above_anchor, low))
    | inr (old, hb') ↦ s.anchored r b hb' low
  ]

  grown-in_step :
      (r : Bytes32) (b : Block) (t : State)
      → Hash.get grown.blocks r ≡ some b
      → Hash.get grown.states r ≡ some t
      → t.latest_block_header.slot ≡ b.slot
  grown-in_step r b t hb ht =
      let stored : Hash.get grown.states r
          ≡ (if root == r then some post_state else Hash.get self.states r) =
        rw grown-tree.1 (Hash.get-insert self.states root r post_state) in
      elim (grown-cases r b hb) [
        | inl (new, mine) ↦
            let mine' : post_state ≡ t = ground (arith, stored, ht, new) in
            omega (
              arith,
              ap (λ x. x.slot) mine,
              ap (λ (x : State). x.latest_block_header.slot) mine',
              g.headed,
            )
        | inr (old, hb') ↦ s.in_step r b t hb' (ground (arith, stored, ht, old))
      ]

  grown-justified : contains_key grown.blocks grown.latest_justified.root ≡ true
  grown-justified = elim (tracked-Tracks sha256 self block post_state Grows-Fits).justified [
    | inl kept ↦ rw (ap (λ c. c.root) kept) (grown-tracked self.latest_justified.root s.justified)
    | inr (new, _, there) ↦ rw (ap (λ c. c.root) new) there
  ]

  grown-finalized : anchor.slot ≤ grown.latest_finalized.slot
  grown-finalized = elim (tracked-Tracks sha256 self block post_state Grows-Fits).finalized [
    | inl kept ↦ omega (arith, ap (λ c. c.slot) kept, s.finalized)
    | inr (new, later, _) ↦ omega (arith, ap (λ c. c.slot) new, later, s.finalized)
  ]

  grown-IsSound : IsSound anchor grown
  grown-IsSound =
      let t = tracked-Tracks sha256 self block post_state Grows-Fits in
      record {
        indexed = t.indexed s.indexed;
        descending = grown-descending;
        closed = grown-closed;
        floored = grown-floored;
        anchored = grown-anchored;
        in_step = grown-in_step;
        justified = grown-justified;
        finalized = grown-finalized;
        head = rw t.head (grown-tracked self.head s.head);
        safe = rw grown-tree.2 (grown-tracked self.safe_target s.safe);
        known = rw t.known s.known;
        new = rw t.new s.new;
      }

  -- Tracking the block succeeds, the grown store is sound, and it holds the block, its post-state and
  -- what was tracked before.
  pub track_block-IsSound :
      (self' : Store) × (track_block sha256 self block post_state ≡ (self', ok true))
      × IsSound anchor self'
      × (Hash.get self'.blocks root ≡ some block)
      × (Hash.get self'.states root ≡ some post_state)
      × ((r : Bytes32) (b : Block)
          → Hash.get self.blocks r ≡ some b
          → Hash.get self'.blocks r ≡ some b)
  track_block-IsSound = (
    grown,
    track_block-tracked sha256 self block post_state Grows-Fits,
    grown-IsSound,
    grown-get root ∙ ground arith,
    rw grown-tree.1 (Hash.get-insert self.states root root post_state ∙ ground arith),
    grown-old,
  )
