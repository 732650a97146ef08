-- ===== src/ForkChoice/Sound/Ingest.antt =====
-- A vote on a sound store: whatever its fate, the store stays sound and its block tree as it was.
use lean_rust.Prelude.{
  ℕ, ◌≡◌, refl, sym, Bool, true, false, Option-cases, leb, ltb, inl, inr, Result-cases, Bool-cases,
  arith,
}
use lean_rust.Maps.Hash
use mathlib.Core.Path.{subst}
use lean_rust.Maps.Hash.{HashMap, IsUnique, insert-IsUnique, remove-IsUnique}
use lean_rust.Protocol.Slot.{Slot}
use lean_rust.Protocol.Vote.{SignedAttestation}
use lean_rust.ForkChoice.Store.{Store}
use lean_rust.ForkChoice.Votes.{
  process_attestation, route_vote, insert_if_newer, evict_if_older, validate_validator_index,
  validate_attestation,
}
use lean_rust.ForkChoice.Sound.Origins.{IsSound, IsSound-retouch}
use lean_rust.Protocol.Block.{Block}

-- `x` is computed to `r`.
unique_at : (x r : HashMap SignedAttestation × Bool) → x ≡ r → IsUnique r.0 → IsUnique x.0
unique_at x r e u = subst (λ y. IsUnique y.0) (sym e) u

insert_if_newer-IsUnique :
    (m : HashMap SignedAttestation) (v : ℕ) (vote : SignedAttestation)
    → IsUnique m
    → IsUnique (insert_if_newer m v vote).0
unfolding insert_if_newer
insert_if_newer-IsUnique m v vote u =
    let went_in = insert-IsUnique m v vote u in
    elim (Option-cases (Hash.get m v)) [
      | inl e ↦
          unique_at (insert_if_newer m v vote) (Hash.insert m v vote, true) (ground (arith, e))
            went_in
      | inr (old, e) ↦
          elim (Bool-cases (leb vote.message.contents.slot old.message.contents.slot)) [
            | inl late ↦ unique_at (insert_if_newer m v vote) (m, false) (ground (arith, e, late)) u
            | inr newer ↦
                unique_at (insert_if_newer m v vote) (Hash.insert m v vote, true)
                  (ground (arith, e, newer)) went_in
          ]
    ]

evict_if_older-IsUnique :
    (m : HashMap SignedAttestation) (v : ℕ) (slot : Slot)
    → IsUnique m
    → IsUnique (evict_if_older m v slot).0
unfolding evict_if_older
evict_if_older-IsUnique m v slot u = elim (Option-cases (Hash.get m v)) [
  | inl e ↦ unique_at (evict_if_older m v slot) (m, false) (ground (arith, e)) u
  | inr (old, e) ↦ elim (Bool-cases (ltb old.message.contents.slot slot)) [
    | inl older ↦
        unique_at (evict_if_older m v slot) (Hash.remove m v, true) (ground (arith, e, older))
          (remove-IsUnique m v u)
    | inr newer ↦ unique_at (evict_if_older m v slot) (m, false) (ground (arith, e, newer)) u
  ]
]

-- What a step that may change the pools alone leaves.
pub record Pooled (anchor : Block) (self self' : Store) : Type 0 where
  pub sound : IsSound anchor self'
  pub blocks : self'.blocks ≡ self.blocks
  pub states : self'.states ≡ self.states
  pub head : self'.head ≡ self.head
  pub justified : self'.latest_justified ≡ self.latest_justified
  pub finalized : self'.latest_finalized ≡ self.latest_finalized

pub Pooled-refl : {anchor : Block} {self : Store} → IsSound anchor self → Pooled anchor self self
Pooled-refl s = record {
  sound = s;
  blocks = refl;
  states = refl;
  head = refl;
  justified = refl;
  finalized = refl;
}

route_vote-Pooled :
    {anchor : Block} {self : Store} (vote : SignedAttestation) (from_block : Bool)
    → IsSound anchor self
    → Pooled anchor self (route_vote self vote from_block).0
unfolding route_vote
route_vote-Pooled {anchor} {self} vote true s = record {
  sound =
      IsSound-retouch self.time self.head self.safe_target _ _ s s.head s.safe
        (insert_if_newer-IsUnique self.latest_known_votes vote.message.validator_id vote s.known)
        (evict_if_older-IsUnique self.latest_new_votes vote.message.validator_id
          vote.message.contents.slot s.new);
  blocks = refl;
  states = refl;
  head = refl;
  justified = refl;
  finalized = refl;
}
route_vote-Pooled {anchor} {self} vote false s = record {
  sound =
      IsSound-retouch self.time self.head self.safe_target _ _ s s.head s.safe s.known
        (insert_if_newer-IsUnique self.latest_new_votes vote.message.validator_id vote s.new);
  blocks = refl;
  states = refl;
  head = refl;
  justified = refl;
  finalized = refl;
}

pub process_attestation-Pooled :
    {anchor : Block} {self : Store} (vote : SignedAttestation) (from_block : Bool)
    → IsSound anchor self
    → Pooled anchor self (process_attestation self vote from_block).0
unfolding process_attestation
process_attestation-Pooled {anchor} {self} vote from_block s =
    elim (Result-cases (validate_validator_index self vote.message.validator_id)) [
      | inr (e, h) ↦ rw h (Pooled-refl s)
      | inl (u, h) ↦ elim (Result-cases (validate_attestation self vote.message.contents)) [
        | inr (e, g) ↦ rw (h, g) (Pooled-refl s)
        | inl (v, g) ↦ rw (h, g) (route_vote-Pooled vote from_block s)
      ]
    ]
