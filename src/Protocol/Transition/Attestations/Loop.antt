-- ===== src/Protocol/Transition/Attestations/Loop.antt =====
-- The loop of `process_attestations` over votes in range, and that it stops at one that is not.
use lean_rust.Prelude.{
  ℕ, ◌+◌, ◌<◌, ◌≡◌, refl, ◌∙◌, ◌⊎◌, inl, inr, true, some, List, [], ◌∷◌, length, All, Result, ok,
  err, Result-cases, arith, sym, ok_inj,
}
use mathlib.Core.Path.{subst}
use lean_rust.Types.Bitlist.{get}
use lean_rust.Protocol.Errors.{StateTransitionError}
use lean_rust.Protocol.Slot.{Slot}
use lean_rust.Protocol.Vote.{Attestation}
use lean_rust.Protocol.State.{State}
use lean_rust.Protocol.Transition.Justifications.Table.{IsBounded}
use lean_rust.Protocol.Transition.Attestations.{Work, bounded_slot_index, check_ranges, votes_loop}
use lean_rust.Protocol.Transition.Attestations.Counted.{Voted, process_vote-Voted}
use lean_rust.Protocol.Transition.Attestations.Votes.{
  IsSound, Advances, Advances-refl, Advances-trans, process_vote-lem, process_vote_err,
}

-- The slots of a vote lie in the history, and its validator in the registry.
pub record IsRanged (s : State) (att : Attestation) : Type 0 where
  pub source_bit : att.contents.source.slot < s.justified_slots.length
  pub source_root : att.contents.source.slot < length s.historical_block_hashes
  pub target_bit : att.contents.target.slot < s.justified_slots.length
  pub target_root : att.contents.target.slot < length s.historical_block_hashes
  pub validator : att.validator_id < length s.validators

check_ranges-eq : (s : State) (att : Attestation) → IsRanged s att → check_ranges s att ≡ ok tt
unfolding check_ranges bounded_slot_index
check_ranges-eq s att r = ground arith

IsRanged-check_ranges :
    (s : State) (att : Attestation) {u : Unit {0}} → check_ranges s att ≡ ok u → IsRanged s att
unfolding check_ranges bounded_slot_index
IsRanged-check_ranges s att h = ground arith

-- The slots that the votes target.
abbrev pub Targets : List Attestation → Slot → Type 0
Targets [] j = ⊥
Targets (att ∷ atts) j = (j ≡ att.contents.target.slot) ⊎ Targets atts j

-- The votes are counted one after the other.
abbrev pub Follows : State → Work → List Attestation → Work → Type 0
Follows s w [] w' = w' ≡ w
Follows s w (att ∷ atts) w' = (v : Work) × Voted s w att v × Follows s v atts w'

-- What the loop returns on votes in range.
pub record Ends (s : State) (len : ℕ) (atts : List Attestation) (w : Work)
    (r : Result StateTransitionError Work) : Type 0 where
  pub w' : Work
  pub returns : r ≡ ok w'
  pub follows : Follows s w atts w'
  pub sound : IsSound len w'
  pub advances : Advances w w'
  pub only :
      (j : ℕ)
      → get w'.justified_slots j ≡ some true
      → (get w.justified_slots j ≡ some true) ⊎ Targets atts j
  pub bounded :
      (size : ℕ)
      → IsBounded (length s.validators) size w.justifications
      → IsBounded (length s.validators) (size + length atts) w'.justifications

pub votes_loop-Ends :
    (s : State) (len : ℕ) (atts : List Attestation) (w : Work)
    → IsSound len w
    → All (IsRanged s) atts
    → Ends s len atts w (votes_loop s atts w)
unfolding votes_loop
votes_loop-Ends s len [] w sound ranged = record {
  w' = w;
  returns = refl;
  follows = refl;
  sound = sound;
  advances = Advances-refl w;
  only = λ j h. inl h;
  bounded = λ size b. record { tallied = b.tallied; few = omega (arith, b.few) };
}
votes_loop-Ends s len (att ∷ atts) w sound ranged =
    let (v, returns, sound', advances, only, table) =
      process_vote-lem s w att sound (check_ranges-eq s att ranged.0) in
    let (v', returns', voted) = process_vote-Voted s w att sound (check_ranges-eq s att ranged.0) in
    let rest = votes_loop-Ends s len atts v sound' ranged.1 in
    record {
      w' = rest.w';
      returns = rw returns rest.returns;
      follows =
          (v, subst (Voted s w att) (ok_inj _ _ (sym returns' ∙ returns)) voted, rest.follows);
      sound = rest.sound;
      advances = Advances-trans w v rest.w' advances rest.advances;
      only = λ j h. elim (rest.only j h) [
        | inl before ↦ elim (only j before) [ inl old ↦ inl old | inr here ↦ inr (inl here) ]
        | inr later ↦ inr (inr later)
      ];
      bounded = λ size b.
          let last = rest.bounded (size + 1) (table size b) in
          record { tallied = last.tallied; few = omega (arith, last.few) };
    }

pub votes_loop_refuses :
    (s : State) (len : ℕ) (atts : List Attestation) (w : Work)
    → IsSound len w
    → ¬ All (IsRanged s) atts
    → (e : StateTransitionError) × (votes_loop s atts w ≡ err e)
unfolding votes_loop
votes_loop_refuses s len [] w sound out = absurd (out tt)
votes_loop_refuses s len (att ∷ atts) w sound out = elim (Result-cases (check_ranges s att)) [
  | inl (u, e) ↦
      let here = IsRanged-check_ranges s att e in
      let (v, returns, sound', _, _, _) =
        process_vote-lem s w att sound (check_ranges-eq s att here) in
      let (e', rest) = votes_loop_refuses s len atts v sound' (λ all. out (here, all)) in
      (e', rw returns rest)
  | inr (e, h) ↦ (e, rw (process_vote_err s w att h))
]
