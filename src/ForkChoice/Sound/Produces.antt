-- ===== src/ForkChoice/Sound/Produces.antt =====
-- Producing a block on a sound store: the store stays sound, whatever the outcome.
use lean_rust.Prelude.{
  ℕ, zero, suc, ◌<◌, ◌≡◌, refl, sym, ◌∙◌, ap, true, false, some, List, [], ◌∷◌, ◌++◌, ◌==◌, ltb,
  Bool-cases, inl, inr, Result, ok, err, Result-cases, >>=-eq-ok, arith, ◌⊎◌, ok_inj, and_then,
}
use lean_rust.Types.Endian.{Bytes32}
use lean_rust.Maps.Hash
use lean_rust.Maps.Hash.{contains_key, get-contains_key, contains_key-get}
use lean_rust.Ssz.Merkleize.{Sha256}
use lean_rust.Protocol.Slot.{Slot}
use lean_rust.Protocol.Validator.{is_proposer}
use lean_rust.Protocol.Vote.{SignedAttestation}
use lean_rust.Protocol.Errors.{StateTransitionError}
use lean_rust.Protocol.Block.{Block, block_root}
use lean_rust.Protocol.State.{State, state_root, num_validators}
use lean_rust.Protocol.Transition.Slots.{process_slots}
use lean_rust.Protocol.Transition.Header.{process_block_header}
use lean_rust.Protocol.Transition.Attestations.{process_attestations}
use lean_rust.Protocol.Transition.Driver.Advances.{
  Keeps, Advances-Keeps, process_slots-Keeps, process_block_header-Advances,
  process_attestations-Keeps,
}
use lean_rust.ForkChoice.Store.{Store, accept_votes, get_proposal_head}
use lean_rust.ForkChoice.Store.Tracking.{track_block_known}
use lean_rust.ForkChoice.Production.{
  ProducedBlock, from_step, from_proposer, body_from, advance_state_to_slot, build_candidate_block,
  converge_loop, converge_attestations, finalize_produced_block, produce_block,
  collect_includable_votes,
}
use lean_rust.ForkChoice.Sound.Origins.{IsSound}
use lean_rust.ForkChoice.Sound.Ticks.{accept_votes-Settled, head_state}
use lean_rust.ForkChoice.Sound.Growth.{NoReturn, Grows, track_block-IsSound}
use lean_rust.Protocol.Limits.{max_attestations}

from_step-ok :
    (o : State × Result StateTransitionError (Unit {0})) {s : State}
    → from_step o ≡ ok s
    → o ≡ (s, ok tt)
from_step-ok (t, ok u) {s} h = let same : t ≡ s = cc in λ i. (same i, ok tt)
from_step-ok (t, err e) h = cc

List-cases :
    (xs : List SignedAttestation)
    → (xs ≡ []) ⊎ ((a : SignedAttestation) × (rest : List SignedAttestation) × (xs ≡ a ∷ rest))
List-cases [] = inl refl
List-cases (a ∷ rest) = inr (a, rest, refl)

module _ (sha256 : Sha256) where
  advance_state_to_slot-Keeps :
      (s : State) (target : Slot) {s' : State}
      → advance_state_to_slot sha256 s target ≡ ok s'
      → Keeps s s'
  unfolding advance_state_to_slot
  advance_state_to_slot-Keeps s target {s'} h = elim (Bool-cases (s.slot == target)) [
    | inl there ↦
        let same : s ≡ s' = ground (arith, rw there at h) in
        record {
          header = ap (λ (x : State). x.latest_block_header.slot) (sym same);
          registry = ap (λ (x : State). x.validators) (sym same);
        }
    | inr away ↦ elim (Bool-cases (ltb s.slot target)) [
      | inl ahead ↦
          let steps = from_step-ok (process_slots sha256 s target) (rw (away, ahead) at h) in
          rw (ap (λ o. o.0) steps) at (process_slots-Keeps sha256 s target)
      | inr back ↦ cc (rw (away, back) at h)
    ]
  ]

  build_candidate_block-Advances :
      (head_root : Bytes32) (slot : Slot) (validator : ℕ) (s : State)
      (votes : List SignedAttestation) {block : Block} {post : State}
      → build_candidate_block sha256 head_root slot validator s votes ≡ ok (block, post)
      → (s.latest_block_header.slot < slot) × (post.latest_block_header.slot ≡ slot)
  unfolding build_candidate_block
  build_candidate_block-Advances head_root slot validator s votes {block} {post} h =
      let candidate : Block = record {
        slot = slot;
        proposer_index = validator;
        parent_root = head_root;
        state_root = 0;
        body = body_from votes;
      } in
      let (s1, up, h1) = >>=-eq-ok (advance_state_to_slot sha256 s slot) _ h in
      let (s2, header, h2) =
        >>=-eq-ok (from_step (process_block_header sha256 s1 candidate)) _ h1 in
      let (s3, voted, h3) =
        >>=-eq-ok (from_step (process_attestations s2 candidate.body.attestations)) _ h2 in
      let processed = from_step-ok (process_attestations s2 candidate.body.attestations) voted in
      let last : s3 ≡ post = cc in
      let a =
        Advances-Keeps (advance_state_to_slot-Keeps s slot up)
          (process_block_header-Advances sha256 s1 candidate
            (from_step-ok (process_block_header sha256 s1 candidate) header))
          (rw (ap (λ o. o.0) processed) at
            (process_attestations-Keeps s2 candidate.body.attestations)) in
      (a.later, ap (λ (x : State). x.latest_block_header.slot) (sym last) ∙ a.reached)

  converge_loop-Advances :
      (self : Store) (fuel : ℕ) (head_root : Bytes32) (slot : Slot) (validator : ℕ) (s : State)
      (votes : List SignedAttestation) {final : List SignedAttestation} {post : State}
      → converge_loop sha256 self fuel head_root slot validator s votes ≡ ok (final, post)
      → (s.latest_block_header.slot < slot) × (post.latest_block_header.slot ≡ slot)
  unfolding converge_loop
  converge_loop-Advances self zero head_root slot validator s votes h = cc
  converge_loop-Advances self (suc fuel) head_root slot validator s votes {final} {post} h =
      let (built, builds, rest) =
        >>=-eq-ok (build_candidate_block sha256 head_root slot validator s votes) _ h in
      elim (List-cases (collect_includable_votes self built.1 votes)) [
        | inl e ↦
            let same : (votes, built.1) ≡ (final, post) = ok_inj _ _ (rw e at rest) in
            let advances = build_candidate_block-Advances head_root slot validator s votes builds in
            (
              advances.0,
              ap (λ (p : List SignedAttestation × State). p.1.latest_block_header.slot) (sym same)
                  ∙ advances.1,
            )
        | inr (a, more, e) ↦
            converge_loop-Advances self fuel head_root slot validator s (votes ++ a ∷ more)
              (rw e at rest)
      ]

  converge_attestations-Advances :
      (self : Store) (head_root : Bytes32) (slot : Slot) (validator : ℕ) (s : State)
      {converged : List SignedAttestation × State}
      → converge_attestations sha256 self head_root slot validator s ≡ ok converged
      → (s.latest_block_header.slot < slot) × (converged.1.latest_block_header.slot ≡ slot)
  unfolding converge_attestations
  converge_attestations-Advances self head_root slot validator s h =
      converge_loop-Advances self (suc max_attestations) head_root slot validator s [] h

  module _ {anchor : Block} (proper : NoReturn sha256 anchor) where
    refresh-IsSound :
        (tracked : Store) (produced : ProducedBlock)
        → IsSound anchor tracked
        → IsSound anchor (and_then (accept_votes tracked) λ s _. (s, ok produced)).0
    refresh-IsSound tracked produced sound =
        let u = accept_votes-Settled sound in rw u.returns u.sound

    finalize_produced_block-IsSound :
        (self : Store) (head_root : Bytes32) (slot : Slot) (validator : ℕ)
        (votes : List SignedAttestation) (head_state post : State)
        → IsSound anchor self
        → Hash.get self.states head_root ≡ some head_state
        → (head_state.latest_block_header.slot < slot) × (post.latest_block_header.slot ≡ slot)
        → IsSound anchor (finalize_produced_block sha256 self head_root slot validator votes post).0
    unfolding finalize_produced_block
    finalize_produced_block-IsSound self head_root slot validator votes head_state post sound stored
          a =
        let block : Block = record {
          slot = slot;
          proposer_index = validator;
          parent_root = head_root;
          state_root = state_root sha256 post;
          body = body_from votes;
        } in
        elim (Bool-cases (contains_key self.blocks (block_root sha256 block))) [
          | inl known ↦
              rw (track_block_known sha256 self block post refl known)
                (refresh-IsSound self _ sound)
          | inr fresh ↦
              let there =
                sym (sound.indexed.stated head_root)
                ∙ contains_key-get self.states head_root stored in
              let (parent, attached) = get-contains_key self.blocks head_root there in
              let grows : Grows sha256 self block post = record {
                parity = refl;
                fresh = fresh;
                parent = parent;
                attached = attached;
                later =
                    omega (arith, a.0, sound.in_step head_root parent head_state attached stored);
                headed = a.1;
              } in
              let (grown, tracks, sound', _, _, _) =
                track_block-IsSound sha256 self block post sound proper grows in
              rw tracks (refresh-IsSound grown _ sound')
        ]

    pub produce_block-IsSound :
        (self : Store) (slot : Slot) (validator : ℕ)
        → IsSound anchor self
        → IsSound anchor (produce_block sha256 self slot validator).0
    unfolding produce_block get_proposal_head
    produce_block-IsSound self slot validator sound =
        let u = accept_votes-Settled sound in
        let s1 = u.self' in
        let (head_state, stored) = head_state u.sound in
        elim (Result-cases
          (from_proposer (is_proposer validator slot (num_validators head_state)))) [
            | inr (e, bad) ↦ rw (u.returns, stored, bad) u.sound
            | inl (true, good) ↦
                elim (Result-cases
                  (converge_attestations sha256 s1 s1.head slot validator head_state)) [
                    | inr (e, bad) ↦ rw (u.returns, stored, good, bad) u.sound
                    | inl (converged, settles) ↦
                        rw (u.returns, stored, good, settles)
                          (finalize_produced_block-IsSound s1 s1.head slot validator converged.0
                            head_state converged.1 u.sound stored
                            (converge_attestations-Advances s1 s1.head slot validator head_state
                              settles))
                  ]
            | inl (false, good) ↦ rw (u.returns, stored, good) u.sound
          ]
