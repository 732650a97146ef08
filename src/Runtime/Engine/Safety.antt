-- ===== src/Runtime/Engine/Safety.antt =====
-- crates/runtime/src/chain/engine: the engine in any sequence of calls. The lock makes each call one
-- step, so the interleavings of the callers are sequences.
use lean_rust.Prelude.{
  ℕ, ◌≡◌, ap, Bool, false, ok, Result-cases, inl, inr, sym, none, ok_inj, >>=-eq-ok,
}
use lean_rust.Ssz.Merkleize.{Sha256}
use lean_rust.Protocol.Slot.{Slot}
use lean_rust.Protocol.Vote.{SignedAttestation}
use lean_rust.Protocol.Block.{Block, SignedBlockWithAttestation}
use lean_rust.Protocol.State.{State}
use lean_rust.ForkChoice.Store
use lean_rust.ForkChoice.Production
use lean_rust.ForkChoice.Store.{Store}
use lean_rust.ForkChoice.Sound.{IsSound}
use lean_rust.ForkChoice.Sound.Growth.{NoReturn}
use lean_rust.ForkChoice.Sound.Ingest.{process_attestation-Pooled}
use lean_rust.ForkChoice.Sound.Produces.{produce_block-IsSound}
use lean_rust.ForkChoice.Sound.Attests.{produce_attestation_vote-Attests}
use lean_rust.Runtime.Engine.{
  Engine, VerifyPolicy, import_block_capturing_inner, import_attestation, produce_block,
  produce_block_unsigned, produce_attestation_vote, tick_interval, from_trusted_head,
}
use lean_rust.Runtime.Engine.Import.{import_block-Imported}
use lean_rust.Runtime.Engine.Refusal.{import_block_cases}
use lean_rust.ForkChoice.Sound.Anchor.{Anchors, from_trusted_head-IsSound}
use lean_rust.ForkChoice.Sound.Ticks.{tick_interval-IsSound}

-- One call on the engine.
pub data Step (sha256 : Sha256) (self : Engine) : Engine → Type 0 where
  imports :
      (signed : SignedBlockWithAttestation) (policy : VerifyPolicy)
      → Step sha256 self (import_block_capturing_inner sha256 self signed policy).0
  attests : (vote : SignedAttestation) → Step sha256 self (import_attestation self vote).0
  ticks : (has_proposal : Bool) → Step sha256 self (tick_interval self has_proposal).0
  proposes :
      (slot : Slot) (validator : ℕ) → Step sha256 self (produce_block sha256 self slot validator).0
  proposes_unsigned :
      (slot : Slot) (validator : ℕ)
      → Step sha256 self (produce_block_unsigned sha256 self slot validator).0
  votes : (slot : Slot) → Step sha256 self (produce_attestation_vote self slot).0

pub data Reach (sha256 : Sha256) (start : Engine) : Engine → Type 0 where
  here : Reach sha256 start start
  next : {e e' : Engine} → Reach sha256 start e → Step sha256 e e' → Reach sha256 start e'

module _ (sha256 : Sha256) {anchor : Block} (proper : NoReturn sha256 anchor) where
  import_block-IsSound :
      (self : Engine) (signed : SignedBlockWithAttestation) (policy : VerifyPolicy)
      → IsSound anchor self.store
      → IsSound anchor (import_block_capturing_inner sha256 self signed policy).0.store
  import_block-IsSound self signed policy sound =
      elim (import_block_cases sha256 self signed policy) [
        | inr (outcome, returns, _) ↦ rw returns sound
        | inl (parent_state, post_state, a) ↦
            let (self', plan, returns, imported) =
              import_block-Imported sha256 self signed sound proper policy parent_state post_state
                a in
            rw returns imported.sound
      ]

  produce_block_unsigned-IsSound :
      (self : Engine) (slot : Slot) (validator : ℕ)
      → IsSound anchor self.store
      → IsSound anchor (produce_block_unsigned sha256 self slot validator).0.store
  unfolding produce_block_unsigned
  produce_block_unsigned-IsSound self slot validator sound =
      let o = Production.produce_block sha256 self.store slot validator in
      let sound1 = produce_block-IsSound sha256 proper self.store slot validator sound in
      elim (Result-cases o.1) [
        | inr (e, bad) ↦ rw bad sound1
        | inl (produced, good) ↦
            let (s, vote, returns, sound2, _) = produce_attestation_vote-Attests o.0 slot sound1 in
            rw (good, returns) sound2
      ]

  tick-IsSound :
      (self : Engine) (has_proposal : Bool)
      → IsSound anchor self.store
      → IsSound anchor (tick_interval self has_proposal).0.store
  unfolding tick_interval
  tick-IsSound self has_proposal sound = tick_interval-IsSound self.store has_proposal sound

  votes-IsSound :
      (self : Engine) (slot : Slot)
      → IsSound anchor self.store
      → IsSound anchor (produce_attestation_vote self slot).0.store
  unfolding produce_attestation_vote
  votes-IsSound self slot sound =
      let (s, produced, returns, sound', _) =
        produce_attestation_vote-Attests self.store slot sound in
      rw returns sound'

  attests-IsSound :
      (self : Engine) (vote : SignedAttestation)
      → IsSound anchor self.store
      → IsSound anchor (import_attestation self vote).0.store
  unfolding import_attestation
  attests-IsSound self vote sound = (process_attestation-Pooled vote false sound).sound

  proposes-IsSound :
      (self : Engine) (slot : Slot) (validator : ℕ)
      → IsSound anchor self.store
      → IsSound anchor (produce_block sha256 self slot validator).0.store
  unfolding produce_block
  proposes-IsSound self slot validator sound =
      produce_block-IsSound sha256 proper self.store slot validator sound

  pub Step-IsSound :
      {self self' : Engine}
      → Step sha256 self self'
      → IsSound anchor self.store
      → IsSound anchor self'.store
  Step-IsSound {self} (imports signed policy) sound = import_block-IsSound self signed policy sound
  Step-IsSound {self} (attests vote) sound = attests-IsSound self vote sound
  Step-IsSound {self} (ticks has_proposal) sound = tick-IsSound self has_proposal sound
  Step-IsSound {self} (proposes slot validator) sound = proposes-IsSound self slot validator sound
  Step-IsSound {self} (proposes_unsigned slot validator) sound =
      produce_block_unsigned-IsSound self slot validator sound
  Step-IsSound {self} (votes slot) sound = votes-IsSound self slot sound

  Reach-IsSound :
      {start self : Engine}
      → IsSound anchor start.store
      → Reach sha256 start self
      → IsSound anchor self.store
  Reach-IsSound sound here = sound
  Reach-IsSound sound (next r step) = Step-IsSound step (Reach-IsSound sound r)

-- An engine that resumes from an anchor: after any calls, in any order, whatever they returned, its store is sound,
-- provided that the state is the anchor block's, the block is not its own parent, and no later block hashes
-- to its parent root.
pub engine-IsSound :
    (sha256 : Sha256) (state : State) (anchor : Block) {start self : Engine}
    → from_trusted_head sha256 state anchor ≡ ok start
    → Anchors sha256 state anchor
    → NoReturn sha256 anchor
    → Reach sha256 start self
    → IsSound anchor self.store
unfolding from_trusted_head
engine-IsSound sha256 state anchor {start} h a proper r =
    let (store, seeded, same) = >>=-eq-ok (Store.from_trusted_head sha256 state anchor) _ h in
    let e : record { store = store; verifier = none } ≡ start = ok_inj _ _ same in
    Reach-IsSound sha256 proper
      (rw (ap (λ (x : Engine). x.store) (sym e))
        (from_trusted_head-IsSound sha256 state anchor seeded a))
      r
