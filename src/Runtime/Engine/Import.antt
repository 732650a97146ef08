-- ===== src/Runtime/Engine/Import.antt =====
-- crates/runtime/src/chain/engine/importer.rs: importing a block, by whether it is acceptable.
use lean_rust.Prelude.{
  ◌≡◌, refl, sym, ◌∙◌, true, false, some, List, [], ◌∷◌, if◌then◌else◌, ok, arith,
}
use lean_rust.Types.Endian.{Bytes32}
use lean_rust.Maps.Hash
use lean_rust.Maps.Hash.{contains_key, get-contains_key, contains_key-get}
use lean_rust.Ssz.Merkleize.{Sha256}
use lean_rust.Protocol.Vote.{SignedAttestation}
use lean_rust.Protocol.Block.{Block, SignedBlockWithAttestation, block_root}
use lean_rust.Protocol.State.{State, state_root}
use lean_rust.Protocol.Transition.Driver.{state_transition}
use lean_rust.Protocol.Transition.Driver.Advances.{state_transition-Advances}
use lean_rust.ForkChoice.Store.{Store}
use lean_rust.ForkChoice.Sound.{IsSound}
use lean_rust.ForkChoice.Sound.Ticks.{accept_votes-Settled}
use lean_rust.ForkChoice.Sound.Ingest.{Pooled, Pooled-refl, process_attestation-Pooled}
use lean_rust.ForkChoice.Sound.Growth.{Grows, track_block-IsSound, NoReturn}
use lean_rust.Runtime.Verify.{pre_check_over_cap}
use lean_rust.Runtime.Engine.{
  Engine, BlockImportResult, PersistPlan, VerifyPolicy, enforces, run_verify_gate,
  transition_and_track, finish_import, import_block_capturing_inner, fold_block_attestations,
  block_carried_votes, capture_persist_plan, capture_persist_inputs,
}

Pooled-trans :
    {anchor : Block} {s t u : Store} → Pooled anchor s t → Pooled anchor t u → Pooled anchor s u
Pooled-trans p q = record {
  sound = q.sound;
  blocks = q.blocks ∙ p.blocks;
  states = q.states ∙ p.states;
  head = q.head ∙ p.head;
  justified = q.justified ∙ p.justified;
  finalized = q.finalized ∙ p.finalized;
}

fold_block_attestations-Pooled :
    {anchor : Block} (votes : List SignedAttestation) {s : Store}
    → IsSound anchor s
    → Pooled anchor s (fold_block_attestations s votes)
unfolding fold_block_attestations
fold_block_attestations-Pooled [] sound = Pooled-refl sound
fold_block_attestations-Pooled (vote ∷ votes) sound =
    let p = process_attestation-Pooled vote true sound in
    Pooled-trans p (fold_block_attestations-Pooled votes p.sound)

module _ (sha256 : Sha256) (self : Engine) (signed : SignedBlockWithAttestation) where
  abbrev pub block : Block
  block = signed.message.block

  abbrev pub root : Bytes32
  root = block_root sha256 block

  -- New, within the caps, with a tracked parent, through the gate, and applied by the transition.
  pub record Acceptable (policy : VerifyPolicy) (parent_state post_state : State) : Type 0 where
    pub fresh : contains_key self.store.blocks root ≡ false
    pub capped : pre_check_over_cap signed.signature block.body.attestations ≡ ok tt
    pub stored : Hash.get self.store.states block.parent_root ≡ some parent_state
    pub gated :
        (if enforces policy
          then run_verify_gate sha256 self.verifier signed parent_state.validators
          else ok tt)
        ≡ ok tt
    pub applies : state_transition sha256 parent_state signed true ≡ (post_state, ok tt)

  -- The block is in the tree with its post-state, the store is sound, and the plan to store holds
  -- what the store holds.
  pub record Imported (anchor : Block) (post_state : State) (self' : Engine) (plan : PersistPlan)
      : Type 0 where
    pub sound : IsSound anchor self'.store
    pub tracked : Hash.get self'.store.blocks root ≡ some block
    pub stored : Hash.get self'.store.states root ≡ some post_state
    pub keeps :
        (r : Bytes32) (b : Block)
        → Hash.get self.store.blocks r ≡ some b
        → Hash.get self'.store.blocks r ≡ some b
    pub verifier : self'.verifier ≡ self.verifier
    pub planned_root : plan.block_root ≡ root
    pub planned_block : plan.block ≡ signed
    pub planned_state : plan.state ≡ post_state
    pub planned_head : plan.head.root ≡ self'.store.head
    pub head_block : Block
    pub head_tracked : Hash.get self'.store.blocks plan.head.root ≡ some head_block
    pub head_slot : plan.head.slot ≡ head_block.slot
    pub planned_finalized : plan.finalized ≡ self'.store.latest_finalized

  module _ {anchor : Block} (sound : IsSound anchor self.store)
      (proper : NoReturn sha256 anchor) where
    Acceptable-Grows :
        (policy : VerifyPolicy) (parent_state post_state : State)
        → Acceptable policy parent_state post_state
        → Grows sha256 self.store block post_state
    Acceptable-Grows policy parent_state post_state a =
        let there =
          sym (sound.indexed.stated block.parent_root)
          ∙ contains_key-get self.store.states block.parent_root a.stored in
        let (parent, attached) = get-contains_key self.store.blocks block.parent_root there in
        let (advances, parity) = state_transition-Advances sha256 parent_state signed a.applies in
        record {
          parity = parity;
          fresh = a.fresh;
          parent = parent;
          attached = attached;
          later = omega (
            arith,
            sound.in_step block.parent_root parent parent_state attached a.stored,
            advances.later,
          );
          headed = advances.reached;
        }

    -- What `transition_and_track` leaves of an acceptable block.
    record Extended (post_state : State) (store' : Store) : Type 0 where
      after : IsSound anchor store'
      entry : Hash.get store'.blocks root ≡ some block
      state : Hash.get store'.states root ≡ some post_state
      old :
          (r : Bytes32) (b : Block)
          → Hash.get self.store.blocks r ≡ some b
          → Hash.get store'.blocks r ≡ some b

    transition_and_track-Extended :
        (policy : VerifyPolicy) (parent_state post_state : State)
        → Acceptable policy parent_state post_state
        → (store' : Store) × (transition_and_track sha256 self.store signed parent_state
            ≡ (store', ok (state_root sha256 post_state)))
          × Extended post_state store'
    unfolding transition_and_track
    transition_and_track-Extended policy parent_state post_state a =
        let (s1, tracks, sound1, entry, state, old) =
          track_block-IsSound sha256 self.store block post_state sound proper
            (Acceptable-Grows policy parent_state post_state a) in
        let votes = block_carried_votes block.body.attestations signed.signature in
        let p = fold_block_attestations-Pooled votes sound1 in
        let u = accept_votes-Settled p.sound in
        let blocks = u.blocks ∙ p.blocks in
        (
          u.self',
          rw (a.applies, tracks, u.returns) refl,
          record {
            after = u.sound;
            entry = rw blocks entry;
            state = rw (u.states ∙ p.states) state;
            old = λ r b h. rw blocks (old r b h);
          },
        )

    capture-Imported :
        (post_state : State) (store' : Store)
        → Extended post_state store'
        → (plan : PersistPlan) × (capture_persist_plan store' root store'.head signed ≡ some plan)
          × Imported anchor post_state (record self { store = store' }) plan
    unfolding capture_persist_plan capture_persist_inputs
    capture-Imported post_state store' x =
        let (hb, head) = get-contains_key store'.blocks store'.head x.after.head in
        (
          record {
            block_root = root;
            head = record { root = store'.head; slot = hb.slot };
            finalized = store'.latest_finalized;
            state = post_state;
            block = signed;
          },
          rw (x.state, head) refl,
          record {
            sound = x.after;
            tracked = x.entry;
            stored = x.state;
            keeps = x.old;
            verifier = refl;
            planned_root = refl;
            planned_block = refl;
            planned_state = refl;
            planned_head = refl;
            head_block = hb;
            head_tracked = head;
            head_slot = refl;
            planned_finalized = refl;
          },
        )

    -- On a sound store, an acceptable block is accepted, provided that no later block hashes to the
    -- parent root of the anchor: it is tracked with its post-state, tracked blocks stay, the store stays
    -- sound, and the plan to store is there and agrees with the store.
    pub import_block-Imported :
        (policy : VerifyPolicy) (parent_state post_state : State)
        → Acceptable policy parent_state post_state
        → (self' : Engine) × (plan : PersistPlan) × (import_block_capturing_inner sha256 self signed
              policy
            ≡ (
              self',
              BlockImportResult.accepted root block.parent_root
                  (state_root sha256 post_state)
                  self'.store.head,
              some plan,
            ))
          × Imported anchor post_state self' plan
    unfolding import_block_capturing_inner finish_import
    import_block-Imported policy parent_state post_state a =
        let (store', returns, x) = transition_and_track-Extended policy parent_state post_state a in
        let (plan, captures, imported) = capture-Imported post_state store' x in
        (
          record self { store = store' },
          plan,
          rw (a.fresh, a.capped, a.stored, a.gated, returns, captures) refl,
          imported,
        )
