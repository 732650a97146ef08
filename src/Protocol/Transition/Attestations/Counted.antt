-- ===== src/Protocol/Transition/Attestations/Counted.antt =====
-- How one vote of `process_attestations` counts: which votes are skipped, when a target is justified and
-- when a source is finalized.
use lean_rust.Prelude.{
  ℕ, zero, suc, ◌+◌, ◌-◌, ◌*◌, ◌≤◌, ◌<◌, ◌≡◌, refl, ◌⊎◌, inl, inr, Bool, true, false, none, some,
  List, length, Option-cases, set, replicate, ltb, ◌==◌, if◌then◌else◌, Bool-cases, ok, arith,
}
use lean_rust.Types.Bitlist.{Bitlist, get}
use lean_rust.Maps.BTree
use lean_rust.Protocol.Slot.{Slot, is_justifiable_after}
use lean_rust.Protocol.Vote.{Attestation, AttestationData}
use lean_rust.Protocol.State.{State}
use lean_rust.Types.Endian.{Bytes32}
use lean_rust.Protocol.Transition.Justifications.{Justifications}
use lean_rust.Protocol.Transition.Attestations.{
  Work, reads, check_ranges, acceptable, count_votes, tally, none_justifiable, justify_target,
  count_vote, process_vote,
}
use lean_rust.Protocol.Transition.Attestations.Votes.{
  IsSound, IsAcceptable, acceptable-IsAcceptable, none_justifiable_sound, room, justified,
  get-justified,
}
use lean_rust.Types.Bitlist.Laws.{set_bit-eq}
use lean_rust.Protocol.Limits.{historical_roots_limit}

-- The votes for a root with the one of a validator added. A root without votes starts with none.
pub record Tallied (j : Justifications) (root : Bytes32) (validator : ℕ) (votes : List Bool)
    : Type 0 where
  pub old : List Bool
  pub opens : BTree.lookup root j.table ≡ none → old ≡ replicate j.num_validators false
  pub finds : (there : List Bool) → BTree.lookup root j.table ≡ some there → old ≡ there
  pub adds : votes ≡ set old validator true

-- No slot between the source and the target can be justified after the finalized slot.
abbrev pub IsClear : Work → AttestationData → Type 0
IsClear w vote =
    (mid : Slot)
    → vote.source.slot < mid
    → mid < vote.target.slot
    → is_justifiable_after mid w.latest_finalized.slot ≡ false

-- The target has at least two thirds of the validators: it is justified and its tally is dropped, and
-- the source is finalized if no slot in between can be justified.
pub record Justifies (s : State) (w : Work) (vote : AttestationData) (votes : List Bool) (w' : Work)
    : Type 0 where
  pub enough : 2 * length s.validators ≤ 3 * count_votes votes
  pub table : w'.justifications ≡ record (w.justifications) {
    table =
        BTree.remove vote.target.root (BTree.insert vote.target.root votes w.justifications.table);
  }
  pub bits :
      (j : ℕ)
      → get w'.justified_slots j
        ≡ (if vote.target.slot == j then some true else get w.justified_slots j)
  pub latest : w'.latest_justified ≡ vote.target
  pub final :
      (IsClear w vote × (w'.latest_finalized ≡ vote.source))
      ⊎ ((¬ IsClear w vote) × (w'.latest_finalized ≡ w.latest_finalized))

-- The target has fewer: the votes for it are kept.
pub record Waits (s : State) (w : Work) (vote : AttestationData) (votes : List Bool) (w' : Work)
    : Type 0 where
  pub few : 3 * count_votes votes < 2 * length s.validators
  pub kept : w' ≡ record w {
    justifications = record (w.justifications) {
      table = BTree.insert vote.target.root votes w.justifications.table;
    };
  }

-- A vote is skipped unless its source is justified, its target is not yet, both have the roots of the
-- history, the source comes first, and the target can be justified.
abbrev pub Voted : State → Work → Attestation → Work → Type 0
Voted s w att w' =
    ((¬ IsAcceptable s w att.contents) × (w' ≡ w))
    ⊎ (IsAcceptable s w att.contents
        × ((votes : List Bool) × Tallied w.justifications att.contents.target.root att.validator_id
              votes
            × (Waits s w att.contents votes w' ⊎ Justifies s w att.contents votes w')))

reads-get :
    (bits : Bitlist) (i : ℕ) (value : Bool) → get bits i ≡ some value → reads bits i value ≡ true
reads-get bits i true h = rw (h, reads) refl
reads-get bits i false h = rw (h, reads) refl

IsAcceptable-acceptable :
    (s : State) (w : Work) (vote : AttestationData)
    → IsAcceptable s w vote
    → acceptable s w vote ≡ true
unfolding acceptable
IsAcceptable-acceptable s w vote a = ground (
  arith,
  reads-get w.justified_slots vote.source.slot true a.source_justified,
  reads-get w.justified_slots vote.target.slot false a.target_open,
  a.source_root,
  a.target_root,
  a.forward,
  a.justifiable,
)

none_justifiable_complete :
    (from count : ℕ) (finalized : Slot)
    → ((mid : Slot) → from ≤ mid → mid < from + count → is_justifiable_after mid finalized ≡ false)
    → none_justifiable from count finalized ≡ true
unfolding none_justifiable
none_justifiable_complete from zero finalized clear = refl
none_justifiable_complete from (suc count) finalized clear =
    let here = clear from (omega arith) (omega arith) in
    let later =
      none_justifiable_complete (from + 1) count finalized
        (λ mid lo hi. clear mid (omega arith) (omega arith)) in
    rw (here, later) refl

tally-Tallied :
    (j : Justifications) (root : Bytes32) (validator : ℕ)
    → Tallied j root validator (tally j root validator)
unfolding tally
tally-Tallied j root validator = elim (Option-cases (BTree.lookup root j.table)) [
  | inl e ↦ record {
    old = replicate j.num_validators false;
    opens = λ h. refl;
    finds = λ there h. cc;
    adds = rw e refl;
  }
  | inr (votes, e) ↦ record {
    old = votes;
    opens = λ h. cc;
    finds = λ there h. cc;
    adds = rw e refl;
  }
]

module _ (s : State) (w : Work) (att : Attestation) {len : ℕ} (sound : IsSound len w)
    (a : IsAcceptable s w (att.contents)) where
  abbrev vote : AttestationData
  vote = att.contents

  abbrev between : ℕ
  between = vote.target.slot - (vote.source.slot + 1)

  abbrev is_clear : Bool
  is_clear = none_justifiable (vote.source.slot + 1) between w.latest_finalized.slot

  is_clear-IsClear : is_clear ≡ true → IsClear w vote
  is_clear-IsClear h mid lo hi =
      none_justifiable_sound (vote.source.slot + 1) between w.latest_finalized.slot mid h
        (omega arith) (omega arith)

  IsClear-is_clear : IsClear w vote → is_clear ≡ true
  IsClear-is_clear clear =
      none_justifiable_complete (vote.source.slot + 1) between w.latest_finalized.slot
        (λ mid lo hi. clear mid (omega arith) (omega arith))

  final-is_clear :
      (IsClear w vote × ((if is_clear then vote.source else w.latest_finalized) ≡ vote.source))
      ⊎ ((¬ IsClear w vote)
          × ((if is_clear then vote.source else w.latest_finalized) ≡ w.latest_finalized))
  final-is_clear = elim (Bool-cases is_clear) [
    | inl e ↦ inl (is_clear-IsClear e, rw e refl)
    | inr e ↦ inr (λ clear. let c = IsClear-is_clear clear in cc, rw e refl)
  ]

  count_vote-Voted : (w' : Work) × (count_vote s w att ≡ ok w') × Voted s w att w'
  unfolding count_vote justify_target
  count_vote-Voted =
      let votes = tally w.justifications vote.target.root att.validator_id in
      let tallied = tally-Tallied w.justifications vote.target.root att.validator_id in
      let table = BTree.insert vote.target.root votes w.justifications.table in
      elim (Bool-cases (ltb (3 * count_votes votes) (2 * length s.validators))) [
        | inl few ↦ (
          record w { justifications = record (w.justifications) { table = table } },
          rw few refl,
          inr (a, (votes, tallied, inl (record { few = ground (arith, few); kept = refl }))),
        )
        | inr enough ↦ (
          record {
            justifications = record (w.justifications) {
              table = BTree.remove vote.target.root table;
            };
            justified_slots = justified s w att sound a;
            latest_justified = vote.target;
            latest_finalized = if is_clear then vote.source else w.latest_finalized;
          },
          rw enough (
              rw
                (set_bit-eq historical_roots_limit w.justified_slots sound.bits vote.target.slot
                  (room s w att sound a) true)
                refl),
          inr (
            a,
            (
              votes,
              tallied,
              inr (record {
                enough = ground (arith, enough);
                table = refl;
                bits = get-justified s w att sound a;
                latest = refl;
                final = final-is_clear;
              }),
            ),
          ),
        )
      ]

-- A vote in range is counted by these rules.
pub process_vote-Voted :
    (s : State) (w : Work) (att : Attestation) {len : ℕ}
    → IsSound len w
    → check_ranges s att ≡ ok tt
    → (w' : Work) × (process_vote s w att ≡ ok w') × Voted s w att w'
unfolding process_vote
process_vote-Voted s w att sound ranged = elim (Bool-cases (acceptable s w att.contents)) [
  | inl e ↦
      let (w', returns, voted) =
        count_vote-Voted s w att sound (acceptable-IsAcceptable s w att.contents e) in
      (w', rw (ranged, e) returns, voted)
  | inr e ↦ (
    w,
    rw (ranged, e) refl,
    inl (λ a. let fine = IsAcceptable-acceptable s w att.contents a in cc, refl),
  )
]
