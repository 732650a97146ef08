-- ===== src/Protocol/Transition/Attestations/Batch.antt =====
-- A whole batch of votes: `process_attestations` succeeds on votes in range and keeps the state
-- consistent, and refuses a batch with a vote out of range with the state left as it was.
use lean_rust.Prelude.{
  ℕ, ◌+◌, ◌*◌, ◌≤◌, ◌<◌, ◌≡◌, refl, ◌∙◌, ◌⊎◌, inl, inr, true, some, List, [], length, All, ok, err,
  Result-cases, arith,
}
use native.Mathlib.Nat.{le_trans, mul-le-mul_right}
use native.Mathlib.Decide.{dec_lt}
use lean_rust.Types.Bitlist.{Bitlist, get}
use lean_rust.Protocol.Limits.{justifications_validators_limit}
use lean_rust.Protocol.Errors.{StateTransitionError}
use lean_rust.Protocol.Slot.{Slot}
use lean_rust.Protocol.Vote.{Attestation}
use lean_rust.Protocol.State.{State}
use lean_rust.Protocol.Transition.Header.Commit.{IsInSync}
use lean_rust.Protocol.Transition.Justifications.{Justifications, from_state}
use lean_rust.Protocol.Transition.Justifications.RoundTrip.{write_back-eq, written}
use lean_rust.Protocol.Transition.Justifications.Table.{IsBounded, from_state-IsBounded}
use lean_rust.Protocol.Transition.Attestations.{Work, start_work, process_attestations}
use lean_rust.Protocol.Transition.Attestations.Votes.{IsSound, Advances}
use lean_rust.Protocol.Transition.Attestations.Loop.{
  IsRanged, Targets, Follows, votes_loop-Ends, votes_loop_refuses,
}

-- The bits and the history are in step, and the finalized slot is justified.
pub record IsConsistent (s : State) : Type 0 where
  pub sync : IsInSync s
  pub final : get s.justified_slots s.latest_finalized.slot ≡ some true

abbrev pub IsReadable : State → Type 0
IsReadable s = (j : Justifications) × (from_state s ≡ ok j)

-- The votes of a batch are counted on copies of the bits and the checkpoints and on the tallies that
-- the state reads as, and the copies and the tallies are written back.
pub record Counted (s : State) (atts : List Attestation) (s' : State) : Type 0 where
  pub tallies : Justifications
  pub reads : from_state s ≡ ok tallies
  pub ends : Work
  pub follows :
      Follows s
        (record {
          justifications = tallies;
          justified_slots = s.justified_slots;
          latest_justified = s.latest_justified;
          latest_finalized = s.latest_finalized;
        })
        atts
        ends
  pub bits : s'.justified_slots ≡ ends.justified_slots
  pub latest : s'.latest_justified ≡ ends.latest_justified
  pub finalized : s'.latest_finalized ≡ ends.latest_finalized
  pub written : 0 < length s.validators → from_state s' ≡ ok ends.justifications

-- The outcome of a batch that is applied.
pub record Applies (s : State) (atts : List Attestation) (s' : State) : Type 0 where
  pub counted : Counted s atts s'
  pub consistent : IsConsistent s'
  pub readable : IsReadable s'
  pub keeps :
      (j : Slot) → get s.justified_slots j ≡ some true → get s'.justified_slots j ≡ some true
  pub only :
      (j : Slot)
      → get s'.justified_slots j ≡ some true
      → (get s.justified_slots j ≡ some true) ⊎ Targets atts j
  pub rises : s.latest_finalized.slot ≤ s'.latest_finalized.slot
  pub history : s'.historical_block_hashes ≡ s.historical_block_hashes
  pub header : s'.latest_block_header ≡ s.latest_block_header
  pub slot : s'.slot ≡ s.slot
  pub validators : s'.validators ≡ s.validators
  pub config : s'.config ≡ s.config

no_validators-IsReadable : (s : State) → length s.validators ≡ 0 → IsReadable s
unfolding from_state
no_validators-IsReadable s h = (record { table = []; num_validators = 0 }, rw h)

-- The working copies committed.
abbrev worked : State → Work → State
worked s w = record s {
  justified_slots = w.justified_slots;
  latest_justified = w.latest_justified;
  latest_finalized = w.latest_finalized;
}

module _ (s : State) (atts : List Attestation) (c : IsConsistent s) where
  start-IsSound : (j : Justifications) → IsSound s.justified_slots.length (start_work s j)
  unfolding start_work
  start-IsSound j = record { bits = c.sync.bits; covers = refl; final = c.final }

  start-IsBounded :
      {j : Justifications}
      → from_state s ≡ ok j
      → IsBounded
          (length s.validators)
          (length s.justifications_roots)
          (start_work s j).justifications
  unfolding start_work
  start-IsBounded readable = from_state-IsBounded s readable

  start-Applies :
      (j : Justifications) (w : Work) (flat : Bitlist)
      → IsSound s.justified_slots.length w
      → Advances (start_work s j) w
      → ((k : ℕ)
          → get w.justified_slots k ≡ some true
          → (get (start_work s j).justified_slots k ≡ some true) ⊎ Targets atts k)
      → from_state s ≡ ok j
      → Follows s (start_work s j) atts w
      → (0 < length s.validators
          → from_state (written w.justifications (worked s w) flat) ≡ ok w.justifications)
      → IsReadable (written w.justifications (worked s w) flat)
      → Applies s atts (written w.justifications (worked s w) flat)
  unfolding start_work
  start-Applies j w flat sound advances only reads follows writes readable = record {
    counted = record {
      tallies = j;
      reads = reads;
      ends = w;
      follows = follows;
      bits = refl;
      latest = refl;
      finalized = refl;
      written = writes;
    };
    consistent = record {
      sync = record { bits = sound.bits; covers = sound.covers ∙ c.sync.covers };
      final = sound.final;
    };
    readable = readable;
    keeps = advances.keeps;
    only = only;
    rises = advances.rises;
    history = refl;
    header = refl;
    slot = refl;
    validators = refl;
    config = refl;
  }

  -- Votes in range on a consistent state with readable tallies that leave room for a root for each
  -- vote: the batch succeeds. The votes are counted in their order: one is skipped unless its source is
  -- justified, its target is not, both have the roots of the history, the source comes first and the
  -- target can be justified; one that counts is added to the tally of its target root; a target with two
  -- thirds of the validators is justified and its tally dropped, and the source is finalized exactly
  -- if no slot in between can be justified. Every justified slot stays justified, a newly justified
  -- slot is the target of a vote of the batch, the finalized slot does not fall, and the new state is
  -- again consistent and readable.
  pub process_attestations-Applies :
      IsReadable s
      → (length s.justifications_roots + length atts) * length s.validators
        ≤ justifications_validators_limit
      → All (IsRanged s) atts
      → (s' : State) × (process_attestations s atts ≡ (s', ok tt)) × Applies s atts s'
  unfolding process_attestations
  process_attestations-Applies (j, readable) room ranged =
      let n = length s.validators in
      let e =
        votes_loop-Ends s s.justified_slots.length atts (start_work s j) (start-IsSound j) ranged in
      let b = e.bounded (length s.justifications_roots) (start-IsBounded readable) in
      let (flat, writes, reads) =
        write_back-eq e.w'.justifications (worked s e.w') b.tallied
          (le_trans (mul-le-mul_right n b.few) room) in
      let s' = written e.w'.justifications (worked s e.w') flat in
      (
        s',
        rw (readable, e.returns, writes),
        start-Applies j e.w' flat e.sound e.advances e.only readable e.follows reads
            (elim (dec_lt 0 n) [
              | yes some_validator ↦ (e.w'.justifications, reads some_validator)
              | no none_left ↦ no_validators-IsReadable s' (omega (arith, none_left))
            ]),
      )

  -- A vote out of range makes the call fail, and the state is left as it was.
  pub process_attestations_refuses :
      ¬ All (IsRanged s) atts
      → (e : StateTransitionError) × (process_attestations s atts ≡ (s, err e))
  unfolding process_attestations
  process_attestations_refuses out = elim (Result-cases (from_state s)) [
    | inl (j, readable) ↦
        let (e, stops) =
          votes_loop_refuses s s.justified_slots.length atts (start_work s j) (start-IsSound j)
            out in
        (e, rw (readable, stops))
    | inr (e, unreadable) ↦ (e, rw unreadable)
  ]
