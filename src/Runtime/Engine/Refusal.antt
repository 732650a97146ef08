-- ===== src/Runtime/Engine/Refusal.antt =====
-- crates/runtime/src/chain/engine/importer.rs: the blocks that are not acceptable.
use lean_rust.Prelude.{
  ◌≡◌, refl, true, false, none, some, Option-cases, if◌then◌else◌, Bool-cases, inl, inr, Result, ok,
  Result-cases, ◌⊎◌,
}
use lean_rust.Maps.Hash
use lean_rust.Maps.Hash.{contains_key, get-contains_key, contains_key-get}
use lean_rust.Ssz.Merkleize.{Sha256}
use lean_rust.Protocol.Block.{SignedBlockWithAttestation}
use lean_rust.Protocol.State.{State}
use lean_rust.Protocol.Transition.Driver.{state_transition}
use lean_rust.Runtime.Verify.{VerifyError, pre_check_over_cap}
use lean_rust.Runtime.Engine.{
  Engine, EngineError, BlockImportResult, VerifyPolicy, enforces, run_verify_gate,
  transition_and_track, finish_import, import_block_capturing_inner, verify, transition,
}
use lean_rust.Runtime.Engine.Import.{root, block, Acceptable}

module _ (sha256 : Sha256) (self : Engine) (signed : SignedBlockWithAttestation) where
  -- Why a block is not accepted.
  abbrev pub Explains : BlockImportResult → Type 0
  Explains (BlockImportResult.accepted r p s h) = ⊥
  Explains (BlockImportResult.duplicate_block r) =
      (r ≡ root sha256 self signed)
      × (contains_key self.store.blocks (root sha256 self signed) ≡ true)
  Explains (BlockImportResult.missing_parent r p) =
      (r ≡ root sha256 self signed)
      × (p ≡ (block sha256 self signed).parent_root)
      × (contains_key self.store.blocks (root sha256 self signed) ≡ false)
      × (Hash.get self.store.states (block sha256 self signed).parent_root ≡ none)
  Explains (BlockImportResult.rejected r p e) =
      (r ≡ root sha256 self signed)
      × (p ≡ (block sha256 self signed).parent_root)
      × (contains_key self.store.blocks (root sha256 self signed) ≡ false)

  -- The engine is as it was, there is no plan, and the answer says why.
  abbrev pub Refuses : VerifyPolicy → Type 0
  Refuses policy =
      (outcome : BlockImportResult) × (import_block_capturing_inner sha256 self signed policy
        ≡ (self, outcome, none))
      × Explains outcome

  abbrev pub Accepts : VerifyPolicy → Type 0
  Accepts policy =
      (parent_state : State) × (post_state : State) × Acceptable sha256 self signed policy
        parent_state post_state

  gate_cases :
      (policy : VerifyPolicy) (parent_state : State)
      → contains_key self.store.blocks (root sha256 self signed) ≡ false
      → pre_check_over_cap signed.signature (block sha256 self signed).body.attestations ≡ ok tt
      → Hash.get self.store.states (block sha256 self signed).parent_root ≡ some parent_state
      → Accepts policy ⊎ Refuses policy
  unfolding import_block_capturing_inner finish_import transition_and_track
  gate_cases policy parent_state fresh capped stored =
      let gate : Result VerifyError (Unit {0}) =
        if enforces policy
        then run_verify_gate sha256 self.verifier signed parent_state.validators
        else ok tt in
      let o = state_transition sha256 parent_state signed true in
      let rejects = λ (e : EngineError).
        BlockImportResult.rejected (root sha256 self signed) (block sha256 self signed).parent_root
          e in
      elim (Result-cases gate) [
        | inr (e, bad) ↦
            inr (rejects (verify e), rw (fresh, capped, stored, bad) refl, (refl, refl, fresh))
        | inl (u, gated) ↦ elim (Result-cases o.1) [
          | inr (e, bad) ↦ inr (
            rejects (transition e),
            rw (fresh, capped, stored, gated, bad) refl,
            (refl, refl, fresh),
          )
          | inl (v, good) ↦ inl (
            parent_state,
            o.0,
            record {
              fresh = fresh;
              capped = capped;
              stored = stored;
              gated = gated;
              applies = λ i. (o.0, good i);
            },
          )
        ]
      ]

  pub import_block_cases : (policy : VerifyPolicy) → Accepts policy ⊎ Refuses policy
  unfolding import_block_capturing_inner
  import_block_cases policy =
      elim (Bool-cases (contains_key self.store.blocks (root sha256 self signed))) [
        | inl known ↦ inr (
          BlockImportResult.duplicate_block (root sha256 self signed),
          rw known refl,
          (refl, known),
        )
        | inr fresh ↦
            elim (Result-cases
              (pre_check_over_cap signed.signature (block sha256 self signed).body.attestations)) [
                | inr (e, over) ↦ inr (
                  BlockImportResult.rejected (root sha256 self signed)
                      (block sha256 self signed).parent_root (verify e),
                  rw (fresh, over) refl,
                  (refl, refl, fresh),
                )
                | inl (u, capped) ↦
                    elim (Option-cases
                      (Hash.get self.store.states (block sha256 self signed).parent_root)) [
                        | inl lost ↦ inr (
                          BlockImportResult.missing_parent (root sha256 self signed)
                              (block sha256 self signed).parent_root,
                          rw (fresh, capped, lost) refl,
                          (refl, refl, fresh, lost),
                        )
                        | inr (parent_state, stored) ↦
                            gate_cases policy parent_state fresh capped stored
                      ]
              ]
      ]

  -- A block that is not acceptable leaves the engine as it was, with no plan, and the answer says whether it is known,
  -- lacks its parent's post-state, or is rejected.
  pub import_block_refuses :
      (policy : VerifyPolicy)
      → ((parent_state post_state : State)
          → ¬ Acceptable sha256 self signed policy parent_state post_state)
      → (outcome : BlockImportResult) × (import_block_capturing_inner sha256 self signed policy
          ≡ (self, outcome, none))
        × Explains outcome
  import_block_refuses policy refused = elim (import_block_cases policy) [
    | inl (parent_state, post_state, a) ↦ absurd (refused parent_state post_state a)
    | inr refuses ↦ refuses
  ]
