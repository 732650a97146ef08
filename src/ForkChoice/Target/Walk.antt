-- ===== src/ForkChoice/Target/Walk.antt =====
-- The vote target: the walks end, at a justifiable ancestor of the head.
use lean_rust.Prelude.{
  ℕ, zero, suc, ◌+◌, ◌≤◌, ◌<◌, ◌≡◌, refl, sym, ◌⊎◌, inl, inr, max, true, some, length, leb,
  Bool-cases, ok, arith,
}
use lean_rust.Types.Endian.{Bytes32}
use lean_rust.Maps.Hash
use lean_rust.Protocol.Limits.{justification_lookback_slots}
use lean_rust.Protocol.Slot.{Slot, is_justifiable_after}
use lean_rust.Protocol.Checkpoint.{Checkpoint}
use lean_rust.Protocol.Block.{Block}
use lean_rust.ForkChoice.Tree.{
  IsDescending, IsClosed, Climbs, here, up, Climbs-parent, Climbs-trans,
}
use lean_rust.ForkChoice.Store.{Store}
use lean_rust.ForkChoice.Votes.{lookup_block}
use lean_rust.ForkChoice.Target.{
  Cursor, parent_of, toward_safe, keeps_walking, toward_justifiable, get_vote_target,
}

-- A slot at which the second walk may stop.
abbrev pub IsTarget : Slot → Slot → Type 0
IsTarget finalized slot = (slot ≤ finalized) ⊎ (is_justifiable_after slot finalized ≡ true)

module _ (self : Store) (descending : IsDescending self.blocks)
    (closed : IsClosed self.blocks self.latest_finalized.slot) where
  abbrev pub finalized : Slot
  finalized = self.latest_finalized.slot

  abbrev IsTracked : Cursor → Type 0
  IsTracked c = Hash.get self.blocks c.0 ≡ some c.1

  parent_of-eq :
      (c : Cursor)
      → IsTracked c
      → finalized < c.1.slot
      → (d : Cursor) × (parent_of self c.1 ≡ ok d)
        × IsTracked d
        × (d.1.slot < c.1.slot)
        × (d.0 ≡ c.1.parent_root)
  unfolding parent_of lookup_block
  parent_of-eq c tracked above =
      let (p, hp) = closed c.0 c.1 tracked above in
      ((c.1.parent_root, p), rw hp refl, hp, descending c.0 c.1 p tracked hp, refl)

  -- An ancestor at or below the finalized slot is not passed.
  abbrev pub KeepsLow : Bytes32 → Bytes32 → Type 0
  KeepsLow from to =
      (r : Bytes32) (b : Block)
      → Hash.get self.blocks r ≡ some b
      → b.slot ≤ finalized
      → Climbs self.blocks r from
      → Climbs self.blocks r to

  -- Where a walk from one cursor leads.
  record Reaches (c d : Cursor) : Type 0 where
    tracked : IsTracked d
    lower : d.1.slot ≤ c.1.slot
    climbs : Climbs self.blocks d.0 c.0
    keeps : KeepsLow c.0 d.0

  Reaches-refl : (c : Cursor) → IsTracked c → Reaches c c
  Reaches-refl c tracked = record {
    tracked = tracked;
    lower = omega arith;
    climbs = here;
    keeps = λ r b hb low h. h;
  }

  Reaches-step :
      (c d e : Cursor)
      → IsTracked c
      → finalized < c.1.slot
      → d.1.slot < c.1.slot
      → d.0 ≡ c.1.parent_root
      → Reaches d e
      → Reaches c e
  Reaches-step c d e tracked above lower parent reaches = record {
    tracked = reaches.tracked;
    lower = omega (arith, reaches.lower, lower);
    climbs = up c.0 c.1 tracked (rw (sym parent) reaches.climbs);
    keeps = λ r b hb low h. reaches.keeps r b hb low (
        rw parent (Climbs-parent self.blocks r c.0 b c.1 hb tracked (omega (arith, low, above)) h));
  }

  toward_safe-Reaches :
      (floor_slot : Slot)
      → finalized ≤ floor_slot
      → (rounds : ℕ) (c : Cursor) → IsTracked c
      → (d : Cursor) × (toward_safe self floor_slot rounds c ≡ ok d) × Reaches c d
  unfolding toward_safe
  toward_safe-Reaches floor_slot low zero c tracked = (c, refl, Reaches-refl c tracked)
  toward_safe-Reaches floor_slot low (suc rounds) c tracked =
      elim (Bool-cases (leb c.1.slot floor_slot)) [
        | inl e ↦ (c, rw e refl, Reaches-refl c tracked)
        | inr e ↦
            let above : finalized < c.1.slot = ground (arith, low) in
            let (d, parent, tracked', lower, root) = parent_of-eq c tracked above in
            let (d', returns, reaches) = toward_safe-Reaches floor_slot low rounds d tracked' in
            (d', rw (e, parent) returns, Reaches-step c d d' tracked above lower root reaches)
      ]

  toward_justifiable-Reaches :
      (fuel : ℕ) (c : Cursor)
      → IsTracked c
      → c.1.slot ≤ fuel
      → (d : Cursor) × (toward_justifiable self finalized fuel c ≡ ok d)
        × Reaches c d
        × IsTarget finalized d.1.slot
  unfolding toward_justifiable
  toward_justifiable-Reaches zero c tracked enough =
      (c, ground (arith, enough), Reaches-refl c tracked, inl (omega (arith, enough)))
  toward_justifiable-Reaches (suc fuel) c tracked enough =
      elim (Bool-cases (keeps_walking finalized c)) [
        | inr e ↦ (c, rw e refl, Reaches-refl c tracked, ground (arith, e))
        | inl e ↦
            let above : finalized < c.1.slot = ground (arith, e) in
            let (d, parent, tracked', lower, root) = parent_of-eq c tracked above in
            let (d', returns, reaches, target) =
              toward_justifiable-Reaches fuel d tracked' (omega (arith, lower, enough)) in
            (
              d',
              rw (e, parent) returns,
              Reaches-step c d d' tracked above lower root reaches,
              target,
            )
      ]

  -- With the head and the safe target tracked: the call returns a checkpoint of a tracked block, at or
  -- above which the head stands, at a slot that can be justified or is not above the finalized one.
  -- It does not pass an ancestor of the head at or below the finalized slot, the finalized block
  -- among them.
  pub get_vote_target-Reaches :
      (head_block safe_block : Block)
      → Hash.get self.blocks self.head ≡ some head_block
      → Hash.get self.blocks self.safe_target ≡ some safe_block
      → (target : Checkpoint) × (block : Block) × (get_vote_target self ≡ ok target)
        × (Hash.get self.blocks target.root ≡ some block)
        × (block.slot ≡ target.slot)
        × Climbs self.blocks target.root self.head
        × IsTarget finalized target.slot
        × KeepsLow self.head target.root
  unfolding get_vote_target lookup_block
  get_vote_target-Reaches head_block safe_block hh hs =
      let (near, first, reaches) =
        toward_safe-Reaches (max safe_block.slot finalized) (omega arith)
          justification_lookback_slots (self.head, head_block) hh in
      let (d, second, reaches', target) =
        toward_justifiable-Reaches (near.1.slot + length self.blocks) near reaches.tracked
          (omega arith) in
      (
        record { root = d.0; slot = d.1.slot },
        d.1,
        rw (hh, hs, first, second) refl,
        reaches'.tracked,
        refl,
        Climbs-trans self.blocks d.0 near.0 self.head reaches'.climbs reaches.climbs,
        target,
        λ r b hb low h. reaches'.keeps r b hb low (reaches.keeps r b hb low h),
      )
