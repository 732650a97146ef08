-- ===== src/Protocol/Transition/Attestations/Votes.antt =====
-- One vote of `process_attestations`: it keeps the working copies sound, and never takes back a
-- justification or a finalization.
use lean_rust.Prelude.{
  ℕ, zero, suc, ◌+◌, ◌-◌, ◌*◌, ◌≤◌, ◌<◌, ◌≡◌, ◌∙◌, ◌⊎◌, inl, inr, Bool, true, false, some, length,
  length-set, length-replicate, Option-cases, get_or, replicate, ltb, ◌==◌, if◌then◌else◌,
  Bool-cases, ok, err, arith,
}
use lean_rust.Types.Bitlist.{Bitlist, get}
use lean_rust.Types.Bitlist.Laws.{
  IsValid, after, set_bit-eq, set_bit-IsValid, length-set_bit, get-set_bit, get_beyond,
}
use lean_rust.Maps.BTree
use lean_rust.Protocol.Limits.{historical_roots_limit}
use lean_rust.Protocol.Errors.{StateTransitionError}
use lean_rust.Protocol.Slot.{Slot, is_justifiable_after}
use lean_rust.Protocol.Slot.Justifiable.{is_justifiable_after_refl, le_of_justifiable}
use lean_rust.Protocol.Checkpoint.{Checkpoint}
use lean_rust.Protocol.Vote.{Attestation, AttestationData}
use lean_rust.Protocol.State.{State}
use lean_rust.Types.Endian.{Bytes32}
use lean_rust.Protocol.Transition.Justifications.{Justifications}
use lean_rust.Protocol.Transition.Justifications.Table.{
  IsBounded, insert-IsBounded, remove-IsBounded,
}
use lean_rust.Protocol.Transition.Attestations.{
  Work, reads, check_ranges, acceptable, count_votes, tally, none_justifiable, justify_target,
  count_vote, process_vote,
}

-- The bits are well formed, cover the slots of the history, and the finalized slot is justified.
pub record IsSound (len : ℕ) (w : Work) : Type 0 where
  pub bits : IsValid historical_roots_limit w.justified_slots
  pub covers : w.justified_slots.length ≡ len
  pub final : get w.justified_slots w.latest_finalized.slot ≡ some true

-- Justified slots stay justified, and the finalized slot does not fall.
pub record Advances (w w' : Work) : Type 0 where
  pub keeps : (j : ℕ) → get w.justified_slots j ≡ some true → get w'.justified_slots j ≡ some true
  pub rises : w.latest_finalized.slot ≤ w'.latest_finalized.slot

pub Advances-refl : (w : Work) → Advances w w
Advances-refl w = record { keeps = λ j h. h; rises = omega arith }

pub Advances-trans : (u v w : Work) → Advances u v → Advances v w → Advances u w
Advances-trans u v w a b = record {
  keeps = λ j h. b.keeps j (a.keeps j h);
  rises = omega (arith, a.rises, b.rises);
}

reads-eq :
    (bits : Bitlist) (i : ℕ) (value : Bool) → reads bits i value ≡ true → get bits i ≡ some value
reads-eq bits i value h = ground arith

-- The conditions of an acceptable vote that the invariants rest on.
pub record IsAcceptable (s : State) (w : Work) (vote : AttestationData) : Type 0 where
  pub source_justified : get w.justified_slots vote.source.slot ≡ some true
  pub target_open : get w.justified_slots vote.target.slot ≡ some false
  pub source_root : vote.source.root ≡ get_or s.historical_block_hashes vote.source.slot 0
  pub target_root : vote.target.root ≡ get_or s.historical_block_hashes vote.target.slot 0
  pub forward : vote.source.slot < vote.target.slot
  pub justifiable : is_justifiable_after vote.target.slot w.latest_finalized.slot ≡ true

pub acceptable-IsAcceptable :
    (s : State) (w : Work) (vote : AttestationData)
    → acceptable s w vote ≡ true
    → IsAcceptable s w vote
unfolding acceptable
acceptable-IsAcceptable s w vote h = ground (
  arith,
  reads-eq w.justified_slots vote.source.slot true,
  reads-eq w.justified_slots vote.target.slot false,
)

pub none_justifiable_sound :
    (from count : ℕ) (finalized mid : Slot)
    → none_justifiable from count finalized ≡ true
    → from ≤ mid
    → mid < from + count
    → is_justifiable_after mid finalized ≡ false
unfolding none_justifiable
none_justifiable_sound from zero finalized mid h lo hi = absurd (omega arith)
none_justifiable_sound from (suc count) finalized mid h lo hi = elim (Bool-cases (from == mid)) [
  | inl e ↦ ground arith
  | inr e ↦ ground (arith, none_justifiable_sound (from + 1) count finalized mid)
]

-- A source is finalized only from the finalized slot on.
finalize_rises :
    (s : State) (w : Work) (vote : AttestationData) {len : ℕ}
    → IsSound len w
    → IsAcceptable s w vote
    → none_justifiable
        (vote.source.slot + 1)
        (vote.target.slot - (vote.source.slot + 1))
        w.latest_finalized.slot
      ≡ true
    → w.latest_finalized.slot ≤ vote.source.slot
finalize_rises s w vote sound a clear = ground (
  arith,
  le_of_justifiable vote.target.slot w.latest_finalized.slot,
  is_justifiable_after_refl w.latest_finalized.slot,
  none_justifiable_sound (vote.source.slot + 1) (vote.target.slot - (vote.source.slot + 1))
      w.latest_finalized.slot w.latest_finalized.slot,
)

-- `target` is the only slot that may be newly justified.
abbrev pub OnlyJustifies : Slot → Work → Work → Type 0
OnlyJustifies target w w' =
    (j : ℕ)
    → get w'.justified_slots j ≡ some true
    → (get w.justified_slots j ≡ some true) ⊎ (j ≡ target)

-- The table stays tallied, and gains at most one root.
abbrev pub KeepsTable : State → Work → Work → Type 0
KeepsTable s w w' =
    (size : ℕ)
    → IsBounded (length s.validators) size w.justifications
    → IsBounded (length s.validators) (size + 1) w'.justifications

length-tally :
    (n size : ℕ) (j : Justifications) (root : Bytes32) (validator : ℕ)
    → IsBounded n size j
    → length (tally j root validator) ≡ n
unfolding tally
length-tally n size j root validator b = elim (Option-cases (BTree.lookup root j.table)) [
  | inl e ↦ rw e (
      length-set (replicate j.num_validators false) validator true
      ∙ length-replicate j.num_validators false
      ∙ b.tallied.sized)
  | inr (votes, e) ↦ rw e (
      length-set votes validator true
      ∙ BTree.Values-lookup (λ v. length v ≡ n) root j.table b.tallied.even e)
]

module _ (s : State) (w : Work) (att : Attestation) {len : ℕ} (sound : IsSound len w)
    (a : IsAcceptable s w (att.contents)) where
  abbrev target : Slot
  target = att.contents.target.slot

  pub room : target < historical_roots_limit
  room = ground (arith, get_beyond w.justified_slots target, sound.bits.bounded)

  abbrev pub justified : Bitlist
  justified = after historical_roots_limit w.justified_slots sound.bits target room true

  pub get-justified :
      (j : ℕ) → get justified j ≡ (if target == j then some true else get w.justified_slots j)
  get-justified j = ground (
    arith,
    get-set_bit historical_roots_limit w.justified_slots sound.bits target room true j,
    get_beyond w.justified_slots target,
    get_beyond w.justified_slots j,
  )

  length-justified : justified.length ≡ w.justified_slots.length
  length-justified = ground (
    arith,
    length-set_bit historical_roots_limit w.justified_slots sound.bits target room true,
    get_beyond w.justified_slots target,
  )

  abbrev is_clear : Bool
  is_clear =
      none_justifiable (att.contents.source.slot + 1) (target - (att.contents.source.slot + 1))
        w.latest_finalized.slot

  abbrev finalized : Checkpoint
  finalized = if is_clear then att.contents.source else w.latest_finalized

  finalized_lem :
      (get justified finalized.slot ≡ some true) × (w.latest_finalized.slot ≤ finalized.slot)
  finalized_lem = elim (Bool-cases is_clear) [
    | inl clear ↦ rw clear (
      ground (arith, get-justified att.contents.source.slot),
      finalize_rises s w att.contents sound a clear,
    )
    | inr blocked ↦ rw blocked (ground (arith, get-justified w.latest_finalized.slot), omega arith)
  ]

  -- A vote that is counted succeeds.
  count_vote-lem :
      (w' : Work) × (count_vote s w att ≡ ok w')
      × IsSound len w'
      × Advances w w'
      × OnlyJustifies target w w'
      × KeepsTable s w w'
  unfolding count_vote justify_target
  count_vote-lem =
      let votes = tally w.justifications att.contents.target.root att.validator_id in
      let table = BTree.insert att.contents.target.root votes w.justifications.table in
      elim (Bool-cases (ltb (3 * count_votes votes) (2 * length s.validators))) [
        | inl few ↦ (
          record w { justifications = record (w.justifications) { table = table } },
          rw few,
          record { bits = sound.bits; covers = sound.covers; final = sound.final },
          record { keeps = λ j h. h; rises = omega arith },
          λ j h. inl h,
          λ size b.
              insert-IsBounded (length s.validators) size w.justifications b
                att.contents.target.root votes
                (length-tally (length s.validators) size w.justifications att.contents.target.root
                  att.validator_id b),
        )
        | inr enough ↦ (
          record {
            justifications = record (w.justifications) {
              table = BTree.remove att.contents.target.root table;
            };
            justified_slots = justified;
            latest_justified = att.contents.target;
            latest_finalized = finalized;
          },
          rw enough (
              rw (set_bit-eq historical_roots_limit w.justified_slots sound.bits target room true)),
          record {
            bits =
                set_bit-IsValid historical_roots_limit w.justified_slots sound.bits target room
                  true;
            covers = length-justified ∙ sound.covers;
            final = finalized_lem.0;
          },
          record { keeps = λ j h. ground (arith, get-justified j); rises = finalized_lem.1 },
          λ j h. ground (arith, get-justified j),
          λ size b.
              remove-IsBounded (length s.validators) size w.justifications b
                att.contents.target.root votes
                (length-tally (length s.validators) size w.justifications att.contents.target.root
                  att.validator_id b),
        )
      ]

-- A vote in range succeeds and keeps the working copies sound; a vote out of range is the only error.
pub process_vote-lem :
    (s : State) (w : Work) (att : Attestation) {len : ℕ}
    → IsSound len w
    → check_ranges s att ≡ ok tt
    → (w' : Work) × (process_vote s w att ≡ ok w')
      × IsSound len w'
      × Advances w w'
      × OnlyJustifies att.contents.target.slot w w'
      × KeepsTable s w w'
unfolding process_vote
process_vote-lem s w att sound ranged = elim (Bool-cases (acceptable s w att.contents)) [
  | inl e ↦
      let (w', returns, kept, later, only, table) =
        count_vote-lem s w att sound (acceptable-IsAcceptable s w att.contents e) in
      (w', rw (ranged, e) returns, kept, later, only, table)
  | inr e ↦ (
    w,
    rw (ranged, e),
    sound,
    Advances-refl w,
    λ j h. inl h,
    λ size b. record { tallied = b.tallied; few = omega (arith, b.few) },
  )
]

pub process_vote_err :
    (s : State) (w : Work) (att : Attestation) {e : StateTransitionError}
    → check_ranges s att ≡ err e
    → process_vote s w att ≡ err e
unfolding process_vote
process_vote_err s w att h = rw h
