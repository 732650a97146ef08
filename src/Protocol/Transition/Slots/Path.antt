-- ===== src/Protocol/Transition/Slots/Path.antt =====
-- Advancing slot by slot: where `process_slots` ends, and that stops on the way change nothing.
use lean_rust.Prelude.{
  ℕ, zero, suc, ◌+◌, ◌-◌, ◌≤◌, ◌<◌, ◌≡◌, ◌≢◌, refl, ◌∙◌, le→leb, lt→leb, lt→ltb, u64_mod, ok, err,
  arith, inl, inr, Bool-cases, ◌==◌, if◌then◌else◌,
}
use native.Mathlib.Nat.{zero-add, add-zero, suc-add}
use lean_rust.Types.Endian.{Bytes32}
use lean_rust.Protocol.Block.{BlockHeader}
use lean_rust.Ssz.Merkleize.{Sha256}
use lean_rust.Protocol.Errors.{target_slot_not_in_future}
use lean_rust.Protocol.Slot.{Slot, advance}
use lean_rust.Protocol.State.{State, state_root}
use lean_rust.Protocol.Transition.Slots.{advance_slot, process_slot, slots_loop, process_slots}

advance_slot-eq : (s : Slot) → s + 1 < u64_mod → advance_slot s ≡ ok (s + 1)
unfolding advance_slot advance
advance_slot-eq s h = rw (lt→ltb _ _ h)

module _ (sha256 : Sha256) where
  -- The state after `process_slot` and the increment.
  abbrev next_slot : State → State
  next_slot s = record ((process_slot sha256 s).0) { slot = s.slot + 1 }

  slot-process_slot : (s : State) → (process_slot sha256 s).0.slot ≡ s.slot
  unfolding process_slot
  slot-process_slot s = ground arith

  process_slot-ok : (s : State) → process_slot sha256 s ≡ ((process_slot sha256 s).0, ok tt)
  unfolding process_slot
  process_slot-ok s = refl

  abbrev iterate : ℕ → State → State
  iterate zero s = s
  iterate (suc n) s = iterate n (next_slot s)

  slots_loop_step :
      (n : ℕ) (s : State)
      → s.slot + 1 < u64_mod
      → slots_loop sha256 (suc n) s ≡ slots_loop sha256 n (next_slot s)
  unfolding slots_loop
  slots_loop_step n s h = rw (process_slot-ok s, slot-process_slot s, advance_slot-eq s.slot h)

  slots_loop-eq :
      (n : ℕ) (s : State) → s.slot + n < u64_mod → slots_loop sha256 n s ≡ (iterate n s, ok tt)
  unfolding slots_loop
  slots_loop-eq zero s h = refl
  slots_loop-eq (suc n) s h =
      slots_loop_step n s (omega arith) ∙ slots_loop-eq n (next_slot s) (omega arith)

  slot-iterate : (n : ℕ) (s : State) → (iterate n s).slot ≡ s.slot + n
  slot-iterate zero s = omega arith
  slot-iterate (suc n) s = slot-iterate n (next_slot s) ∙ omega arith

  iterate_add : (m n : ℕ) (s : State) → iterate n (iterate m s) ≡ iterate (m + n) s
  iterate_add zero n s = rw zero-add
  iterate_add (suc m) n s = iterate_add m n (next_slot s) ∙ rw suc-add

  process_slots-iterate :
      (s : State) (target : Slot)
      → s.slot < target
      → target < u64_mod
      → process_slots sha256 s target ≡ (iterate (target - s.slot) s, ok tt)
  unfolding process_slots
  process_slots-iterate s target h bound =
      rw (lt→leb target s.slot h) (slots_loop-eq (target - s.slot) s (omega arith))

  -- Whatever the root function, a slot on the way and a later target are both reached with no error,
  -- and going on from the slot on the way ends in the same state as the call that does not stop there.
  pub process_slots_path :
      (s : State) (middle target : Slot)
      → s.slot < middle
      → middle < target
      → target < u64_mod
      → (s1 s2 : State) × (process_slots sha256 s middle ≡ (s1, ok tt))
        × (process_slots sha256 s1 target ≡ (s2, ok tt))
        × (process_slots sha256 s target ≡ (s2, ok tt))
        × (s1.slot ≡ middle)
        × (s2.slot ≡ target)
  process_slots_path s middle target h h' bound =
      let first = middle - s.slot in
      let reached : (iterate first s).slot ≡ middle = slot-iterate first s ∙ omega arith in
      let sum : first + (target - middle) ≡ target - s.slot = omega arith in
      (
        iterate first s,
        iterate (target - s.slot) s,
        process_slots-iterate s middle h (omega arith),
        process_slots-iterate (iterate first s) target (omega arith) bound
            ∙ rw reached (rw (iterate_add first (target - middle) s) (rw sum refl)),
        process_slots-iterate s target (omega arith) bound,
        reached,
        slot-iterate (target - s.slot) s ∙ omega arith,
      )

  process_slot_idle :
      (s : State) → s.latest_block_header.state_root ≢ 0 → (process_slot sha256 s).0 ≡ s
  unfolding process_slot
  process_slot_idle s h = ground arith

  iterate_idle :
      (n : ℕ) (s : State)
      → s.latest_block_header.state_root ≢ 0
      → iterate n s ≡ record s { slot = s.slot + n }
  iterate_idle zero s h = rw (add-zero s.slot)
  iterate_idle (suc n) s h = rw (process_slot_idle s h) (
      iterate_idle n (record s { slot = s.slot + 1 }) h
      ∙ (let e : s.slot + 1 + n ≡ s.slot + suc n = omega arith in rw e))

  process_slots-process_slot :
      (s : State) (target : Slot)
      → s.slot < target
      → target < u64_mod
      → (process_slot sha256 s).0.latest_block_header.state_root ≢ 0
      → process_slots sha256 s target
        ≡ (record ((process_slot sha256 s).0) { slot = target }, ok tt)
  process_slots-process_slot s target h bound cached =
      process_slots-iterate s target h bound
      ∙ (let more = target - s.slot - 1 in
          let steps : target - s.slot ≡ suc more = omega arith in
          let sum : s.slot + 1 + more ≡ target = omega arith in
          rw steps (rw (iterate_idle more (next_slot s) cached) (rw sum)))

  -- The state root of the latest header once it is cached.
  abbrev pub cached_root : State → Bytes32
  cached_root s =
      if s.latest_block_header.state_root == 0
      then state_root sha256 s
      else s.latest_block_header.state_root

  abbrev pub cached_header : State → BlockHeader
  cached_header s = record (s.latest_block_header) { state_root = cached_root s }

  process_slot-eq :
      (s : State) → (process_slot sha256 s).0 ≡ record s { latest_block_header = cached_header s }
  unfolding process_slot
  process_slot-eq s = elim (Bool-cases (s.latest_block_header.state_root == 0)) [
    | inl e ↦ rw e refl
    | inr e ↦ rw e refl
  ]

  -- A later target is reached with no error, provided that the root that comes to stand in the latest
  -- header is not zero. The slot becomes the target, a zero state root in the latest header becomes
  -- the root of the state that the call started from, another stays, and nothing else changes.
  pub process_slots-eq :
      (s : State) (target : Slot)
      → s.slot < target
      → target < u64_mod
      → cached_root s ≢ 0
      → process_slots sha256 s target
        ≡ (record s { slot = target; latest_block_header = cached_header s }, ok tt)
  process_slots-eq s target h bound cached =
      let same = process_slot-eq s in
      process_slots-process_slot s target h bound (rw same cached) ∙ rw same refl

  -- A target that is not in the future is refused, and the state is left as it was.
  pub process_slots_refused :
      (s : State) (target : Slot)
      → target ≤ s.slot
      → process_slots sha256 s target ≡ (s, err (target_slot_not_in_future s.slot target))
  unfolding process_slots
  process_slots_refused s target h = rw (le→leb target s.slot h)
