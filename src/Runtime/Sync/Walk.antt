-- ===== src/Runtime/Sync/Walk.antt =====
-- crates/runtime/src/sync/loop_.rs: what a walk back from the head of a peer collects.
use lean_rust.Prelude.{
  ℕ, zero, suc, ◌+◌, ◌≤◌, ◌≡◌, ◌≢◌, refl, sym, ◌∙◌, ap, ◌⊎◌, inl, inr, true, false, Bool-cases,
  List, [], ◌∷◌, ◌++◌, length, length-append, ◌==◌, ==→≡, ==_refl, Result, ok, Result-cases, ok_inj,
  arith,
}
use mathlib.Core.List.{append_assoc, append-nil}
use lean_rust.Types.Endian.{Bytes32}
use lean_rust.Ssz.Merkleize.{Sha256}
use lean_rust.Protocol.Block.{SignedBlockWithAttestation, block_root}
use lean_rust.Runtime.Sync.{
  Hop, block, stop, abort, Answer, cancelled, timed_out, failed, responds, WalkSource,
  validate_single_root_response, hop_of, walk_loop, walk_back_with,
}

≢→== : (a b : ℕ) → a ≢ b → (a == b) ≡ false
≢→== a b h = ground (arith, h)

module _ (sha256 : Sha256) where
  -- From `root` back: each block has the root that the one before it names as its parent.
  abbrev pub IsChain : Bytes32 → List SignedBlockWithAttestation → Type 0
  IsChain root [] = Unit
  IsChain root (b ∷ bs) =
      (block_root sha256 b.message.block ≡ root) × IsChain b.message.block.parent_root bs

  -- Where a chain from `root` leads.
  abbrev pub end_of : Bytes32 → List SignedBlockWithAttestation → Bytes32
  end_of root [] = root
  end_of root (b ∷ bs) = end_of b.message.block.parent_root bs

  IsChain-snoc :
      (root : Bytes32) (bs : List SignedBlockWithAttestation) (b : SignedBlockWithAttestation)
      → IsChain root bs
      → block_root sha256 b.message.block ≡ end_of root bs
      → IsChain root (bs ++ b ∷ [])
  IsChain-snoc root [] b chain next = (next, tt)
  IsChain-snoc root (a ∷ bs) b chain next =
      (chain.0, IsChain-snoc a.message.block.parent_root bs b chain.1 next)

  end_of-snoc :
      (root : Bytes32) (bs : List SignedBlockWithAttestation) (b : SignedBlockWithAttestation)
      → end_of root (bs ++ b ∷ []) ≡ b.message.block.parent_root
  end_of-snoc root [] b = refl
  end_of-snoc root (a ∷ bs) b = end_of-snoc a.message.block.parent_root bs b

  hop_of-block :
      (blocks : List SignedBlockWithAttestation) (root : Bytes32) (b : SignedBlockWithAttestation)
      → hop_of sha256 blocks root ≡ Hop.block b
      → block_root sha256 b.message.block ≡ root
  unfolding hop_of validate_single_root_response
  hop_of-block [] root b h = cc
  hop_of-block (c ∷ []) root b h = elim (Bool-cases (block_root sha256 c.message.block == root)) [
    | inl same ↦
        let found : Hop.block c ≡ Hop.block b =
          rw (same, hop_of, validate_single_root_response) at h in
        let here : c ≡ b = cc in rw (sym here) (==→≡ _ root same)
    | inr other ↦ cc (rw (other, hop_of, validate_single_root_response) at h)
  ]
  hop_of-block (c ∷ d ∷ blocks) root b h = cc

  Answer-cases :
      {E : Type 0} (a : Answer E)
      → ((a ≡ cancelled) ⊎ (a ≡ timed_out))
        ⊎ (((e : E) × (a ≡ failed e))
            ⊎ ((blocks : List SignedBlockWithAttestation) × (a ≡ responds blocks)))
  Answer-cases cancelled = inl (inl refl)
  Answer-cases timed_out = inl (inr refl)
  Answer-cases (failed e) = inr (inl (e, refl))
  Answer-cases (responds blocks) = inr (inr (blocks, refl))

  Hop-cases :
      (hop : Hop)
      → ((b : SignedBlockWithAttestation) × (hop ≡ Hop.block b)) ⊎ ((hop ≡ stop) ⊎ (hop ≡ abort))
  Hop-cases (block b) = inl (b, refl)
  Hop-cases stop = inr (inl refl)
  Hop-cases abort = inr (inr refl)

  module _ {E : Type 0} (source : WalkSource E) (start : Bytes32) where
    abbrev Walked : Type 0
    Walked = Result E (List SignedBlockWithAttestation)

    abbrev Collects : ℕ → List SignedBlockWithAttestation → Type 0
    Collects most bs = IsChain start bs × (length bs ≤ most)

    walk_loop-Collects :
        (left i : ℕ) (next : Bytes32) (pending result : List SignedBlockWithAttestation)
        → IsChain start pending
        → next ≡ end_of start pending
        → walk_loop sha256 source left i next pending ≡ ok result
        → Collects (length pending + left) result
    unfolding walk_loop
    walk_loop-Collects zero i next pending result chain at h =
        rw (sym (ok_inj _ _ h)) (chain, omega arith)
    walk_loop-Collects (suc left) i next pending result chain at h =
        let ends : ◌≡◌ {A = Walked} (ok pending) (ok result)
            → Collects (length pending + suc left) result =
          λ same. rw (sym (ok_inj _ _ same)) (chain, omega arith) in
        let drops : ◌≡◌ {A = Walked} (ok []) (ok result)
            → Collects (length pending + suc left) result =
          λ same. rw (sym (ok_inj _ _ same)) (tt, omega arith) in
        elim (Bool-cases (source i next).is_cancelled) [
          | inl over ↦ drops (rw (over, walk_loop) at h)
          | inr going ↦ elim (Bool-cases (next == 0)) [
            | inl origin ↦ ends (rw (going, origin, walk_loop) at h)
            | inr named ↦ elim (Result-cases (source i next).has_block) [
              | inr (e, broken) ↦ drops (rw (going, named, broken, walk_loop) at h)
              | inl (true, known) ↦ ends (rw (going, named, known, walk_loop) at h)
              | inl (false, unknown) ↦ elim (Answer-cases (source i next).answer) [
                | inl (inl is) ↦ drops (rw (going, named, unknown, is, walk_loop) at h)
                | inl (inr is) ↦ drops (rw (going, named, unknown, is, walk_loop) at h)
                | inr (inl (e, is)) ↦ cc (rw (going, named, unknown, is, walk_loop) at h)
                | inr (inr (blocks, is)) ↦ elim (Hop-cases (hop_of sha256 blocks next)) [
                  | inr (inl hop) ↦ ends (rw (going, named, unknown, is, hop, walk_loop) at h)
                  | inr (inr hop) ↦ drops (rw (going, named, unknown, is, hop, walk_loop) at h)
                  | inl (b, hop) ↦
                      let (all, few) =
                        walk_loop-Collects left (i + 1) b.message.block.parent_root
                          (pending ++ b ∷ []) result
                          (IsChain-snoc start pending b chain (hop_of-block blocks next b hop ∙ at))
                          (sym (end_of-snoc start pending b))
                          (rw (going, named, unknown, is, hop, walk_loop) at h) in
                      (all, omega (arith, few, length-append pending (b ∷ [])))
                ]
              ]
            ]
          ]
        ]

  -- Whatever the peer answers and whenever it is cancelled: what a walk returns is a chain of blocks back
  -- from the root that it started with, by their hashes, and holds no more of them than the depth.
  pub walk_back_with-IsChain :
      {E : Type 0} (source : WalkSource E) (max_depth : ℕ) (start_root : Bytes32)
      (pending : List SignedBlockWithAttestation)
      → walk_back_with sha256 source max_depth start_root ≡ ok pending
      → IsChain start_root pending × (length pending ≤ max_depth)
  unfolding walk_back_with
  walk_back_with-IsChain source max_depth start_root pending h =
      let (chain, few) =
        walk_loop-Collects source start_root max_depth 0 start_root [] pending tt refl h in
      (chain, omega (arith, few))

  -- At hop `i` and after, the walk goes on through `bs`: the peer answers with each of them, none is known
  -- before the end, and the walk is not cancelled. At the end it stands at a known or the zero root.
  abbrev pub Serves :
      {E : Type 0} → WalkSource E → ℕ → Bytes32 → List SignedBlockWithAttestation → Type 0
  Serves source i root [] =
      ((source i root).is_cancelled ≡ false) × ((root ≡ 0) ⊎ ((source i root).has_block ≡ ok true))
  Serves source i root (b ∷ bs) =
      ((source i root).is_cancelled ≡ false)
      × (root ≢ 0)
      × ((source i root).has_block ≡ ok false)
      × ((source i root).answer ≡ responds (b ∷ []))
      × Serves source (i + 1) b.message.block.parent_root bs

  hop_of-eq :
      (b : SignedBlockWithAttestation) (root : Bytes32)
      → block_root sha256 b.message.block ≡ root
      → hop_of sha256 (b ∷ []) root ≡ Hop.block b
  unfolding hop_of validate_single_root_response
  hop_of-eq b root same = rw (same, ==_refl root, hop_of, validate_single_root_response) refl

  walk_loop-Serves :
      {E : Type 0} (source : WalkSource E) (left i : ℕ) (root : Bytes32)
      (bs pending : List SignedBlockWithAttestation)
      → IsChain root bs
      → Serves source i root bs
      → length bs ≤ left
      → walk_loop sha256 source left i root pending ≡ ok (pending ++ bs)
  unfolding walk_loop
  walk_loop-Serves source zero i root [] pending chain serves room =
      ap ok (sym (append-nil pending))
  walk_loop-Serves source (suc left) i root [] pending chain (going, inl origin) room =
      rw (going, origin, append-nil pending, walk_loop) refl
  walk_loop-Serves source (suc left) i root [] pending chain (going, inr known) room =
      elim (Bool-cases (root == 0)) [
        | inl origin ↦ rw (going, origin, append-nil pending, walk_loop) refl
        | inr named ↦ rw (going, named, known, append-nil pending, walk_loop) refl
      ]
  walk_loop-Serves source zero i root (b ∷ bs) pending chain serves room =
      absurd (omega (arith, room))
  walk_loop-Serves source (suc left) i root (b ∷ bs) pending chain
        (going, named, unknown, answers, rest) room =
      rw (going, ≢→== root 0 named, unknown, answers, hop_of-eq b root chain.0, walk_loop)
        (walk_loop-Serves source left (i + 1) b.message.block.parent_root bs (pending ++ b ∷ [])
            chain.1 rest (omega (arith, room))
          ∙ ap ok (append_assoc pending (b ∷ []) bs))

  -- A peer that serves a chain of unknown blocks from the start root down to a known block or the zero root,
  -- no longer than the depth: the walk returns the whole chain.
  pub walk_back_with-Serves :
      {E : Type 0} (source : WalkSource E) (max_depth : ℕ) (start_root : Bytes32)
      (bs : List SignedBlockWithAttestation)
      → IsChain start_root bs
      → Serves source 0 start_root bs
      → length bs ≤ max_depth
      → walk_back_with sha256 source max_depth start_root ≡ ok bs
  unfolding walk_back_with
  walk_back_with-Serves source max_depth start_root bs chain serves room =
      walk_loop-Serves source max_depth 0 start_root bs [] chain serves room
