-- ===== src/ForkChoice/Sound/Anchor.antt =====
-- crates/forkchoice/src/store.rs: the store that starts from an anchor.
use lean_rust.Prelude.{
  ◌*◌, ◌≤◌, ◌≡◌, ◌≢◌, refl, sym, ◌∙◌, ap, some, Bool-cases, leb, ◌==◌, ==→≡, u64_mod, ok, ok_inj,
  Option, inl, inr, [], ◌∷◌, arith,
}
use lean_rust.Types.Endian.{Bytes32}
use lean_rust.Maps.Hash
use lean_rust.Maps.Hash.{HashMap, contains_key, insert}
use lean_rust.Ssz.Merkleize.{Sha256}
use lean_rust.Protocol.Limits.{intervals_per_slot}
use lean_rust.Protocol.Slot.{Slot}
use lean_rust.Protocol.Checkpoint.{Checkpoint}
use lean_rust.Protocol.Block.{Block, block_root}
use lean_rust.Protocol.State.{State, state_root}
use lean_rust.ForkChoice.Store.{Store, seed_anchor, from_trusted_head, insert_block}
use lean_rust.ForkChoice.Sound.Origins.{IsSound}

module _ (sha256 : Sha256) (state : State) (block : Block) where
  abbrev root : Bytes32
  root = block_root sha256 block

  -- What is asked of an anchor: the state is the block's, and the block is not its own parent.
  pub record Anchors : Type 0 where
    pub headed : state.latest_block_header.slot ≡ block.slot
    pub proper : block.parent_root ≢ root

  module _ (justified finalized : Checkpoint) where
    abbrev seeded : Store
    seeded = record {
      time = block.slot * intervals_per_slot;
      config = state.config;
      head = root;
      safe_target = root;
      latest_justified = justified;
      latest_finalized = finalized;
      blocks = (root, block) ∷ [];
      states = (root, state) ∷ [];
      block_order = root ∷ [];
      latest_known_votes = [];
      latest_new_votes = [];
    }

    only : (r : Bytes32) (b : Block) → Hash.get seeded.blocks r ≡ some b → (root ≡ r) × (block ≡ b)
    unfolding Hash.get
    only r b h = elim (Bool-cases (root == r)) [
      | inl same ↦
          let found : ◌≡◌ {A = Option Block} (some block) (some b) = rw same at h in
          (==→≡ root r same, cc)
      | inr other ↦ cc (rw other at h)
    ]

    only_state : (r : Bytes32) (t : State) → Hash.get seeded.states r ≡ some t → state ≡ t
    unfolding Hash.get
    only_state r t h = elim (Bool-cases (root == r)) [
      | inl same ↦ let found : ◌≡◌ {A = Option State} (some state) (some t) = rw same at h in cc
      | inr other ↦ cc (rw other at h)
    ]

    seeded-IsSound :
        Anchors → justified.root ≡ root → block.slot ≤ finalized.slot → IsSound block seeded
    unfolding contains_key Hash.get
    seeded-IsSound a here final = record {
      indexed = record {
        unique = (tt, tt);
        distinct = (refl, tt);
        ordered = λ r. ground arith;
        stated = λ r. ground arith;
      };
      descending = λ r b p hb hp.
          let (_, mine) = only r b hb in
          let (again, _) = only b.parent_root p hp in
          absurd (a.proper (ap (λ x. x.parent_root) mine ∙ sym again));
      closed = λ r b hb above. absurd (omega (arith, above, ap (λ x. x.slot) (only r b hb).1));
      floored = λ r b hb. omega (arith, ap (λ x. x.slot) (only r b hb).1);
      anchored = λ r b hb low. sym (ap (λ x. x.parent_root) (only r b hb).1);
      in_step = λ r b t hb ht.
          sym (ap (λ (x : State). x.latest_block_header.slot) (only_state r t ht))
          ∙ a.headed
          ∙ ap (λ x. x.slot) (only r b hb).1;
      justified = ground (arith, here);
      finalized = final;
      head = ground arith;
      safe = ground arith;
      known = tt;
      new = tt;
    }

  seed_anchor-seeded :
      (checkpoints : Bytes32 → Slot → Checkpoint × Checkpoint) {store : Store}
      → seed_anchor sha256 state block checkpoints ≡ ok store
      → store ≡ seeded (checkpoints root block.slot).0 (checkpoints root block.slot).1
  unfolding seed_anchor insert_block insert contains_key Hash.get
  seed_anchor-seeded checkpoints {store} h =
      elim (Bool-cases (block.state_root == state_root sha256 state)) [
        | inr other ↦ cc (rw other at h)
        | inl same ↦ elim (Bool-cases (leb u64_mod (block.slot * intervals_per_slot))) [
          | inl late ↦ cc (rw (same, late) at h)
          | inr fits ↦ sym (ok_inj _ store (rw (same, fits) at h))
        ]
      ]

  -- A store that resumes from a trusted head is sound, over the anchor.
  pub from_trusted_head-IsSound :
      {store : Store}
      → from_trusted_head sha256 state block ≡ ok store
      → Anchors
      → IsSound block store
  unfolding from_trusted_head
  from_trusted_head-IsSound h a =
      let cp : Checkpoint = record { root = root; slot = block.slot } in
      rw
        (seed_anchor-seeded
          (λ r slot. (record { root = r; slot = slot }, record { root = r; slot = slot })) h)
        (seeded-IsSound cp cp a refl (omega arith))
