-- ===== src/Protocol/Transition/Driver/Success.antt =====
-- The whole transition: what a block that is applied leaves, and that a block that is refused leaves
-- the state as it was.
use lean_rust.Prelude.{
  ℕ, ◌+◌, ◌-◌, ◌*◌, ◌≤◌, ◌<◌, ◌≡◌, ◌≢◌, refl, ◌∙◌, ap, ◌⊎◌, inl, inr, Bool, true, false, not, ◌&&◌,
  some, ◌∷◌, length, length-append, length-replicate, All, All-map, replicate, ltb, ◌==◌,
  if◌then◌else◌, ok, err, arith, u64_mod,
}
use lean_rust.Types.Bitlist.{get}
use lean_rust.Types.Bitlist.Laws.{get_beyond}
use lean_rust.Ssz.Merkleize.{Sha256}
use lean_rust.Protocol.Limits.{justifications_validators_limit}
use lean_rust.Protocol.Errors.{StateTransitionError, state_root_mismatch}
use lean_rust.Protocol.Block.{Block, header_root, SignedBlockWithAttestation}
use lean_rust.Protocol.State.{State, state_root}
use lean_rust.Protocol.Transition.Slots.Path.{cached_root, cached_header, process_slots-eq}
use lean_rust.Protocol.Transition.Header.{empty_slots}
use lean_rust.Protocol.Transition.Header.Commit.{
  IsInSync, Accepts, Commits, process_block_header-Commits,
}
use lean_rust.Protocol.Transition.Justifications.{from_state}
use lean_rust.Protocol.Transition.Attestations.{process_attestations}
use lean_rust.Protocol.Transition.Attestations.Loop.{IsRanged}
use lean_rust.Protocol.Transition.Attestations.Batch.{
  Applies, IsConsistent, IsReadable, process_attestations-Applies,
}
use lean_rust.Protocol.Transition.Driver.{apply_block, state_transition}

-- Whichever step a call fails at, the state is left as it was.
pub state_transition_refused :
    (sha256 : Sha256) (self : State) (signed_block : SignedBlockWithAttestation) (validate : Bool)
    (s' : State) (e : StateTransitionError)
    → state_transition sha256 self signed_block validate ≡ (s', err e)
    → s' ≡ self
unfolding state_transition
state_transition_refused sha256 self signed_block validate s' e h = ground arith

-- Before the first block the state is a genesis state, later it is consistent.
pub record IsLive (s : State) : Type 0 where
  pub sync : IsInSync s
  pub final :
      (get s.justified_slots s.latest_finalized.slot ≡ some true)
      ⊎ ((s.latest_block_header.slot ≡ 0)
          × (s.latest_finalized.slot ≡ 0)
          × (s.justified_slots.length ≡ 0))

module _ (sha256 : Sha256) (s : State) (block : Block) where
  -- The state that the slots before the block lead to.
  abbrev pub caught_up : State
  caught_up = record s { slot = block.slot; latest_block_header = cached_header sha256 s }

  record Same : Type 0 where
    bits : caught_up.justified_slots ≡ s.justified_slots
    history : caught_up.historical_block_hashes ≡ s.historical_block_hashes
    final : caught_up.latest_finalized ≡ s.latest_finalized
    latest : caught_up.latest_block_header.slot ≡ s.latest_block_header.slot
    tallies : from_state caught_up ≡ from_state s
    registry : caught_up.validators ≡ s.validators
    roots : caught_up.justifications_roots ≡ s.justifications_roots

  caught_up-Same : Same
  unfolding from_state
  caught_up-Same = record {
    bits = refl;
    history = refl;
    final = refl;
    latest = refl;
    tallies = refl;
    registry = refl;
    roots = refl;
  }

  -- A block that the transition applies: it is later than the state, the state root that its slots put
  -- into the latest header is not zero, its header passes the checks, the tallies of the state can be
  -- read and leave room for a root for each vote, and the votes are in range.
  pub record Applicable : Type 0 where
    pub later : s.slot < block.slot
    pub bound : block.slot < u64_mod
    pub cached : cached_root sha256 s ≢ 0
    pub header : Accepts sha256 caught_up block
    pub readable : IsReadable s
    pub room :
        (length s.justifications_roots + length block.body.attestations) * length s.validators
        ≤ justifications_validators_limit
    pub votes :
        All
          (λ att.
            (att.contents.source.slot
              < length s.historical_block_hashes + (block.slot - s.latest_block_header.slot))
            × (att.contents.target.slot
                < length s.historical_block_hashes + (block.slot - s.latest_block_header.slot))
            × (att.validator_id < length s.validators))
          block.body.attestations

  caught_up-IsInSync : IsLive s → IsInSync caught_up
  caught_up-IsInSync live = record {
    bits = rw caught_up-Same.bits live.sync.bits;
    covers = rw (caught_up-Same.bits, caught_up-Same.history) live.sync.covers;
  }

  final-Commits :
      (s2 : State)
      → Commits sha256 caught_up block s2
      → s2.latest_finalized.slot ≡ s.latest_finalized.slot
  final-Commits s2 c = ground (arith, ap (λ f. f.slot) c.finalized, caught_up-Same.final)

  -- The header of the first block sets the bit of the anchor.
  Commits-IsConsistent :
      (s2 : State) → IsLive s → Commits sha256 caught_up block s2 → IsInSync s2 → IsConsistent s2
  Commits-IsConsistent s2 live c sync =
      let slot = s.latest_finalized.slot in
      let read : get s2.justified_slots slot ≡ (
          if slot == s.justified_slots.length
          then some (s.latest_block_header.slot == 0)
          else if ltb s.justified_slots.length slot
              && ltb slot
                  (s.justified_slots.length + 1 + (block.slot - s.latest_block_header.slot - 1))
          then some false
          else get s.justified_slots slot) =
        rw (caught_up-Same.bits, caught_up-Same.latest) at (c.bits.reads slot) in
      record {
        sync = sync;
        final = rw (final-Commits s2 c) (elim live.final [
          | inl old ↦ ground (arith, read, old, get_beyond s.justified_slots slot)
          | inr (latest, final, empty) ↦ ground (arith, read, latest, final, empty)
        ]);
      }

  -- The ranges in terms of the state that the header leaves.
  votes-IsRanged :
      (s2 : State)
      → Commits sha256 caught_up block s2
      → IsInSync s2
      → Applicable
      → All (IsRanged s2) block.body.attestations
  votes-IsRanged s2 c sync a =
      let long : length s2.historical_block_hashes
          ≡ length s.historical_block_hashes + (block.slot - s.latest_block_header.slot) =
        omega (
          arith,
          ap length c.history,
          ap length caught_up-Same.history,
          length-append {0} caught_up.historical_block_hashes (
              header_root sha256 caught_up.latest_block_header
              ∷ replicate (empty_slots caught_up block) 0),
          length-replicate {A = ℕ} (empty_slots caught_up block) 0,
          a.header.newer,
          caught_up-Same.latest,
        ) in
      let registry : length s2.validators ≡ length s.validators =
        ap length (c.validators ∙ caught_up-Same.registry) in
      All-map
        (λ att r. record {
          source_bit = omega (arith, r.0, long, sync.covers);
          source_root = omega (arith, r.0, long);
          target_bit = omega (arith, r.1, long, sync.covers);
          target_root = omega (arith, r.1, long);
          validator = omega (arith, r.2, registry);
        })
        block.body.attestations a.votes

  tallies-Commits : (s2 : State) → Commits sha256 caught_up block s2 → from_state s2 ≡ from_state s
  unfolding from_state
  tallies-Commits s2 c = rw (c.tallies.0, c.tallies.1, c.validators) caught_up-Same.tallies

  -- What an applied block leaves: its header is committed on the state at its slot, and its votes are
  -- applied on top.
  pub record Leaves (s' : State) : Type 0 where
    pub between : State
    pub commits : Commits sha256 caught_up block between
    pub counts : process_attestations between block.body.attestations ≡ (s', ok tt)
    pub applies : Applies between block.body.attestations s'
    pub live : IsLive s'
    pub reached : s'.slot ≡ block.slot
    pub rises : s.latest_finalized.slot ≤ s'.latest_finalized.slot

  pub apply_block-Applies :
      IsLive s → Applicable → (s' : State) × (apply_block sha256 s block ≡ (s', ok tt)) × Leaves s'
  unfolding apply_block
  apply_block-Applies live a =
      let (s2, header, c, sync) =
        process_block_header-Commits sha256 caught_up block (caught_up-IsInSync live) a.header in
      let (j, readable) = a.readable in
      let registry : length s2.validators ≡ length s.validators =
        ap length (c.validators ∙ caught_up-Same.registry) in
      let roots : length s2.justifications_roots ≡ length s.justifications_roots =
        ap length (c.tallies.0 ∙ caught_up-Same.roots) in
      let (s', votes, applies) =
        process_attestations-Applies s2 block.body.attestations
          (Commits-IsConsistent s2 live c sync) (j, tallies-Commits s2 c ∙ readable)
          (rw (registry, roots) a.room) (votes-IsRanged s2 c sync a) in
      (
        s',
        rw (process_slots-eq sha256 s block.slot a.later a.bound a.cached, header) votes,
        record {
          between = s2;
          commits = c;
          counts = votes;
          applies = applies;
          live = record { sync = applies.consistent.sync; final = inl applies.consistent.final };
          reached = applies.slot ∙ c.slot;
          rises = omega (arith, applies.rises, final-Commits s2 c);
        },
      )

-- On a live state, a signed block that is later than the state, passes the checks of the header and
-- has votes in range is applied, provided that the state root put into the latest header is not
-- zero and that the readable tallies leave room for a root for each vote (which is stricter than
-- the limit of the code). The state moves to the slot of the block with the header committed; the
-- votes of the block are counted on that state, by the rules of the record `Applies`, under which a
-- justified slot stays justified and only targets of the votes become so; the result is live and
-- readable, and its finalized slot is not lower. If the state root is to be validated and is not
-- the declared one, the call fails and the state is left as it was.
pub state_transition-Applies :
    (sha256 : Sha256) (self : State) (signed_block : SignedBlockWithAttestation) (validate : Bool)
    → IsLive self
    → Applicable sha256 self signed_block.message.block
    → (s' : State) × (state_transition sha256 self signed_block validate ≡ (
        if validate && not (state_root sha256 s' == signed_block.message.block.state_root)
        then (
          self,
          err (
              state_root_mismatch signed_block.message.block.slot
                (state_root sha256 s')
                signed_block.message.block.state_root),
        )
        else (s', ok tt)))
      × Leaves sha256 self signed_block.message.block s'
unfolding state_transition
state_transition-Applies sha256 self signed_block validate live a =
    let (s', applies, leaves) = apply_block-Applies sha256 self signed_block.message.block live a in
    (s', rw applies (ground arith), leaves)
