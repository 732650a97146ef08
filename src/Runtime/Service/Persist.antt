-- ===== src/Runtime/Service/Persist.antt =====
-- crates/runtime/src/chain/chain/service.rs: what importing a block leaves in the engine and in the storage.
use lean_rust.Prelude.{◌≡◌, refl, sym, ◌⊎◌, inl, inr, none, ok, err}
use lean_rust.Ssz.Merkleize.{Sha256}
use lean_rust.Protocol.Block.{Block, SignedBlockWithAttestation}
use lean_rust.Protocol.State.{State}
use lean_rust.Storage.{Backend, HeadInfo}
use lean_rust.Storage.Contract.{Contents, accepted, IsStore}
use lean_rust.ForkChoice.Sound.{IsSound}
use lean_rust.ForkChoice.Sound.Growth.{NoReturn}
use lean_rust.Runtime.Engine.{
  BlockImportResult, PersistPlan, VerifyPolicy, import_block_capturing_inner,
  import_block_capturing, import_block_synced_capturing,
}
use lean_rust.Runtime.Engine.Import.{root, Acceptable, Imported, import_block-Imported}
use lean_rust.Runtime.Engine.Refusal.{Explains, import_block_cases}
use lean_rust.Runtime.Service.{
  Service, storage, Call, persist_plan, persist_accepted, import_block, import_block_synced,
}

module _ {P S E : Type 0} (backend : Backend S E) (view : S → Contents) (sha256 : Sha256)
    (self : Service P S) (signed : SignedBlockWithAttestation) (anchor : Block) where
  -- The head and the finalized checkpoint that a plan stores.
  abbrev pub info_of : PersistPlan → HeadInfo
  info_of plan = record { head = plan.head; finalized = plan.finalized }

  -- The block is imported into the engine, and the plan is in the storage, or the write failed, is reported, and
  -- the stored head is the old one.
  pub record Persists (policy : VerifyPolicy) (outcome : Call P S E BlockImportResult)
      : Type 0 where
    pub parent_state : State
    pub post_state : State
    pub acceptable : Acceptable sha256 self.engine signed policy parent_state post_state
    pub plan : PersistPlan
    pub imported : Imported sha256 self.engine signed anchor post_state outcome.0.engine plan
    pub signer : outcome.0.signer ≡ self.signer
    pub stored :
        ((answer : BlockImportResult) × (outcome.1 ≡ ok answer)
          × (view outcome.0.store
              ≡ accepted
                  (root sha256 self.engine signed)
                  signed
                  post_state
                  (info_of plan)
                  (view self.store)))
        ⊎ ((e : E) × (outcome.1 ≡ err (storage e))
            × ((view outcome.0.store).head ≡ (view self.store).head))

  -- Or nothing changes, and the answer says why.
  abbrev pub Handles : VerifyPolicy → Call P S E BlockImportResult → Type 0
  Handles policy outcome =
      ((answer : BlockImportResult) × (outcome ≡ (self, ok answer))
        × Explains sha256 self.engine signed answer)
      ⊎ Persists policy outcome

  module _ (store : IsStore backend view) (sound : IsSound anchor self.engine.store)
      (proper : NoReturn sha256 anchor) where
    abbrev imports : VerifyPolicy → Call P S E BlockImportResult
    imports policy =
        let (engine', outcome, plan) =
          import_block_capturing_inner sha256 self.engine signed policy in
        persist_accepted backend (record self { engine = engine' }) outcome plan

    refused-Handles :
        (policy : VerifyPolicy) (answer : BlockImportResult)
        → import_block_capturing_inner sha256 self.engine signed policy
          ≡ (self.engine, answer, none)
        → Explains sha256 self.engine signed answer
        → Handles policy (imports policy)
    unfolding persist_accepted
    refused-Handles policy (BlockImportResult.accepted r p s h) refused why = absurd why
    refused-Handles policy (BlockImportResult.duplicate_block r) refused why =
        inl (BlockImportResult.duplicate_block r, rw refused refl, why)
    refused-Handles policy (BlockImportResult.missing_parent r p) refused why =
        inl (BlockImportResult.missing_parent r p, rw refused refl, why)
    refused-Handles policy (BlockImportResult.rejected r p e) refused why =
        inl (BlockImportResult.rejected r p e, rw refused refl, why)

    saved-Handles :
        (policy : VerifyPolicy) (parent_state post_state : State)
        → Acceptable sha256 self.engine signed policy parent_state post_state
        → Handles policy (imports policy)
    unfolding persist_accepted persist_plan
    saved-Handles policy parent_state post_state a =
        let (engine', plan, returns, imported) =
          import_block-Imported sha256 self.engine signed sound proper policy parent_state
            post_state a in
        let saves =
          store.saves_accepted self.store plan.block_root plan.block plan.state (info_of plan) in
        elim saves.outcome [
          | inl (done, after) ↦ inr (
              rw (returns, done)
                (record {
                  parent_state = parent_state;
                  post_state = post_state;
                  acceptable = a;
                  plan = plan;
                  imported = imported;
                  signer = refl;
                  stored = inl (
                    _,
                    refl,
                    rw
                        (
                          sym imported.planned_root,
                          sym imported.planned_block,
                          sym imported.planned_state,
                        )
                        after,
                  );
                }))
          | inr (e, failed, same) ↦ inr (
              rw (returns, failed)
                (record {
                  parent_state = parent_state;
                  post_state = post_state;
                  acceptable = a;
                  plan = plan;
                  imported = imported;
                  signer = refl;
                  stored = inr (e, refl, same);
                }))
        ]

    imports-Handles : (policy : VerifyPolicy) → Handles policy (imports policy)
    imports-Handles policy = elim (import_block_cases sha256 self.engine signed policy) [
      | inl (parent_state, post_state, a) ↦ saved-Handles policy parent_state post_state a
      | inr (answer, refused, why) ↦ refused-Handles policy answer refused why
    ]

    -- On a sound engine, over a storage that keeps its contract, and provided that no later block hashes to the
    -- parent root of the anchor, both ways to import a block end in one of three ways: nothing changes and the answer says why; or the block is imported and stored with its
    -- post-state and the new head; or it is imported, the failed write is reported, and the stored head
    -- is the old one.
    pub import_block-Handles :
        Handles VerifyPolicy.enforce (import_block backend sha256 self signed)
        × Handles VerifyPolicy.skip (import_block_synced backend sha256 self signed)
    unfolding import_block import_block_synced import_block_capturing import_block_synced_capturing
    import_block-Handles = (imports-Handles VerifyPolicy.enforce, imports-Handles VerifyPolicy.skip)
