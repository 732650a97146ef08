-- ===== src/Protocol/Transition/Driver.antt =====
-- crates/protocol/src/state.rs: `state_transition`.
pub mod Success
pub mod Advances
use package.lean_rust.Prelude.{
  ℕ, Bool, ◌&&◌, not, ◌==◌, if◌then◌else◌, Result, ok, err, and_then, check, fail_if, Outcome,
}
use package.lean_rust.Ssz.Merkleize.{Sha256}
use package.lean_rust.Protocol.Errors.{StateTransitionError, state_root_mismatch}
use package.lean_rust.Protocol.Block.{Block, SignedBlockWithAttestation}
use package.lean_rust.Protocol.State.{State, state_root}
use package.lean_rust.Protocol.Transition.Slots.{Step, process_slots}
use package.lean_rust.Protocol.Transition.Header.{process_block_header}
use package.lean_rust.Protocol.Transition.Attestations.{process_attestations}

-- The steps on the working copy.
unfoldable pub apply_block : Sha256 → State → Block → Step
apply_block sha256 s block = and_then (process_slots sha256 s block.slot) λ s1 _.
    and_then (process_block_header sha256 s1 block)
      λ s2 _. process_attestations s2 block.body.attestations

-- `*self = next` only if every step succeeds.
unfoldable pub state_transition : Sha256 → State → SignedBlockWithAttestation → Bool → Step
state_transition sha256 self signed_block validate_state_root =
    let block = signed_block.message.block in
    let (next, result) = apply_block sha256 self block in
    let got = state_root sha256 next in
    check self result λ _.
      check self
        (fail_if (validate_state_root && not (got == block.state_root))
          (state_root_mismatch block.slot got block.state_root))
        λ _. (next, ok tt)
