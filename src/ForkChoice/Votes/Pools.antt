-- ===== src/ForkChoice/Votes/Pools.antt =====
-- crates/forkchoice/src/store.rs: what a vote leaves in the vote pools.
use lean_rust.Prelude.{
  ℕ, ◌≤◌, ◌<◌, ◌≡◌, ◌≢◌, refl, sym, ◌∙◌, ◌⊎◌, Bool, true, false, ◌||◌, none, some, ltb, leb,
  ==_refl, if◌then◌else◌, Bool-cases, Option-cases, Result-cases, inl, inr, ok, err, arith,
}
use lean_rust.Maps.Hash
use lean_rust.Maps.Hash.{HashMap, IsUnique}
use lean_rust.Protocol.Slot.{Slot}
use lean_rust.Protocol.Vote.{SignedAttestation}
use lean_rust.ForkChoice.Errors.{ForkchoiceError, validator_index_out_of_range}
use lean_rust.ForkChoice.Store.{Store, head_validator_count}
use lean_rust.ForkChoice.Votes.{
  validate_attestation, validate_validator_index, insert_if_newer, evict_if_older, route_vote,
  process_attestation,
}
use lean_rust.ForkChoice.Votes.Accepted.{IsValidVote, validate_attestation_iff}

neither : (a b : Bool) → (a || b) ≡ false → (a ≡ false) × (b ≡ false)
neither false b h = (refl, h)
neither true b h = cc

unchanged {ℓ} : {P : Type ℓ} (moved : Bool) → (moved ≡ false → P) → if moved then Unit else P
unchanged true h = tt
unchanged false h = h refl

abbrev pub vote_slot : SignedAttestation → Slot
vote_slot vote = vote.message.contents.slot

-- The pool after an insertion: the entry of the validator is the vote or the old one, whichever is
-- newer, and the old one on a tie.
pub record Newest (m m' : HashMap SignedAttestation) (validator : ℕ) (vote : SignedAttestation)
    : Type 0 where
  pub entry : SignedAttestation
  pub holds : Hash.get m' validator ≡ some entry
  pub covers : vote_slot vote ≤ vote_slot entry
  pub origin : (entry ≡ vote) ⊎ (Hash.get m validator ≡ some entry)
  pub rises :
      (old : SignedAttestation) → Hash.get m validator ≡ some old → vote_slot old ≤ vote_slot entry
  pub fresh : Hash.get m validator ≡ none → entry ≡ vote
  pub keeps :
      (old : SignedAttestation)
      → Hash.get m validator ≡ some old
      → vote_slot vote ≤ vote_slot old
      → entry ≡ old
  pub replaces :
      (old : SignedAttestation)
      → Hash.get m validator ≡ some old
      → vote_slot old < vote_slot vote
      → entry ≡ vote
  pub others : (j : ℕ) → j ≢ validator → Hash.get m' j ≡ Hash.get m j

module _ (m : HashMap SignedAttestation) (validator : ℕ) (vote : SignedAttestation) where
  get-insert_self : Hash.get (Hash.insert m validator vote) validator ≡ some vote
  get-insert_self = Hash.get-insert m validator validator vote ∙ rw (==_refl validator) refl

  get-insert_ne : (j : ℕ) → j ≢ validator → Hash.get (Hash.insert m validator vote) j ≡ Hash.get m j
  get-insert_ne j h = ground (arith, Hash.get-insert m validator j vote, h)

  insert_if_newer-Newest :
      (m' : HashMap SignedAttestation) × (moved : Bool) × (insert_if_newer m validator vote
        ≡ (m', moved))
      × Newest m m' validator vote
      × (moved ≡ false → m' ≡ m)
  unfolding insert_if_newer
  insert_if_newer-Newest = elim (Option-cases (Hash.get m validator)) [
    | inl e ↦ (
      Hash.insert m validator vote,
      true,
      ground arith,
      record {
        entry = vote;
        holds = get-insert_self;
        covers = omega arith;
        origin = inl refl;
        rises = λ old h. cc;
        fresh = λ h. refl;
        keeps = λ old h newer. cc;
        replaces = λ old h older. refl;
        others = get-insert_ne;
      },
      λ h. cc,
    )
    | inr (old, e) ↦ elim (Bool-cases (leb (vote_slot vote) (vote_slot old))) [
      | inl newer ↦ (
        m,
        false,
        ground arith,
        record {
          entry = old;
          holds = e;
          covers = ground (arith, newer);
          origin = inr e;
          rises = λ o h. ground (arith, h, e);
          fresh = λ h. cc;
          keeps = λ o h later. cc;
          replaces = λ o h later. ground (arith, h, e, newer, later);
          others = λ j h. refl;
        },
        λ h. refl,
      )
      | inr older ↦ (
        Hash.insert m validator vote,
        true,
        ground arith,
        record {
          entry = vote;
          holds = get-insert_self;
          covers = omega arith;
          origin = inl refl;
          rises = λ o h. ground (arith, h, e, older);
          fresh = λ h. refl;
          keeps = λ o h later. ground (arith, h, e, older, later);
          replaces = λ o h later. refl;
          others = get-insert_ne;
        },
        λ h. cc,
      )
    ]
  ]

-- The pool after an eviction: no vote of the validator is left that is older, and nothing else goes.
pub record Evicted (m m' : HashMap SignedAttestation) (validator : ℕ) (newer_than : Slot)
    : Type 0 where
  pub none_older :
      (left : SignedAttestation) → Hash.get m' validator ≡ some left → newer_than ≤ vote_slot left
  pub keeps :
      (old : SignedAttestation)
      → Hash.get m validator ≡ some old
      → newer_than ≤ vote_slot old
      → Hash.get m' validator ≡ some old
  pub origin :
      (left : SignedAttestation)
      → Hash.get m' validator ≡ some left
      → Hash.get m validator ≡ some left
  pub others : (j : ℕ) → j ≢ validator → Hash.get m' j ≡ Hash.get m j

module _ (m : HashMap SignedAttestation) (validator : ℕ) (newer_than : Slot)
    (unique : IsUnique m) where
  get-remove_other : (j : ℕ) → j ≢ validator → Hash.get (Hash.remove m validator) j ≡ Hash.get m j
  get-remove_other j h = Hash.get-remove_ne m validator j (λ e. h (sym e))

  evict_if_older-Evicted :
      (m' : HashMap SignedAttestation) × (moved : Bool) × (evict_if_older m validator newer_than
        ≡ (m', moved))
      × Evicted m m' validator newer_than
      × (moved ≡ false → m' ≡ m)
  unfolding evict_if_older
  evict_if_older-Evicted = elim (Option-cases (Hash.get m validator)) [
    | inl e ↦ (
      m,
      false,
      ground arith,
      record {
        none_older = λ left h. cc;
        keeps = λ old h newer. h;
        origin = λ left h. h;
        others = λ j h. refl;
      },
      λ h. refl,
    )
    | inr (old, e) ↦ elim (Bool-cases (ltb (vote_slot old) newer_than)) [
      | inl older ↦ (
        Hash.remove m validator,
        true,
        ground arith,
        record {
          none_older = λ left h. let gone = Hash.get-remove_self m validator unique in cc;
          keeps = λ o h newer. ground (arith, h, e, older, newer);
          origin = λ left h. let gone = Hash.get-remove_self m validator unique in cc;
          others = get-remove_other;
        },
        λ h. cc,
      )
      | inr newer ↦ (
        m,
        false,
        ground arith,
        record {
          none_older = λ left h. ground (arith, h, e, newer);
          keeps = λ o h n. h;
          origin = λ left h. h;
          others = λ j h. refl;
        },
        λ h. refl,
      )
    ]
  ]

-- A vote that `process_attestation` accepts.
pub record IsAdmitted (self : Store) (vote : SignedAttestation) : Type 0 where
  pub count : ℕ
  pub counted : head_validator_count self ≡ ok count
  pub registered : vote.message.validator_id < count
  pub valid : IsValidVote self vote.message.contents

-- What routing a vote leaves of the pools. Everything else in the store is untouched.
pub record Routed (self self' : Store) (vote : SignedAttestation) (is_from_block : Bool)
    : Type 0 where
  pub known :
      if is_from_block
      then Newest self.latest_known_votes self'.latest_known_votes vote.message.validator_id vote
      else (self'.latest_known_votes ≡ self.latest_known_votes)
  pub new :
      if is_from_block
      then Evicted self.latest_new_votes self'.latest_new_votes vote.message.validator_id
          (vote_slot vote)
      else Newest self.latest_new_votes self'.latest_new_votes vote.message.validator_id vote
  pub rest : self' ≡ record self {
    latest_known_votes = self'.latest_known_votes;
    latest_new_votes = self'.latest_new_votes;
  }

module _ (self : Store) (vote : SignedAttestation) (unique : IsUnique self.latest_new_votes) where
  abbrev validator : ℕ
  validator = vote.message.validator_id

  route_vote-Routed :
      (is_from_block : Bool)
      → (self' : Store) × (moved : Bool) × (route_vote self vote is_from_block ≡ (self', moved))
        × Routed self self' vote is_from_block
        × (moved ≡ false → self' ≡ self)
  unfolding route_vote
  route_vote-Routed true =
      let (known, promoted, inserts, newest, known_same) =
        insert_if_newer-Newest self.latest_known_votes validator vote in
      let (kept, evicted, evicts, clear, kept_same) =
        evict_if_older-Evicted self.latest_new_votes validator (vote_slot vote) unique in
      (
        record self { latest_known_votes = known; latest_new_votes = kept },
        promoted || evicted,
        rw (inserts, evicts) refl,
        record { known = newest; new = clear; rest = refl },
        λ h.
            let (no_promotion, no_eviction) = neither promoted evicted h in
            rw (known_same no_promotion, kept_same no_eviction) refl,
      )
  route_vote-Routed false =
      let (new, inserted, inserts, newest, same) =
        insert_if_newer-Newest self.latest_new_votes validator vote in
      (
        record self { latest_new_votes = new },
        inserted,
        rw inserts refl,
        record { known = refl; new = newest; rest = refl },
        λ h. rw (same h) refl,
      )

  process_attestation_lem :
      (is_from_block : Bool)
      → (IsAdmitted self vote
          → (self' : Store) × (moved : Bool) × (process_attestation self vote is_from_block
              ≡ (self', ok moved))
            × Routed self self' vote is_from_block
            × (moved ≡ false → self' ≡ self))
        × (¬ IsAdmitted self vote
            → (e : ForkchoiceError) × (process_attestation self vote is_from_block ≡ (self, err e)))
  unfolding process_attestation validate_validator_index
  process_attestation_lem is_from_block = (
    λ a.
        let (self', moved, routes, routed, same) = route_vote-Routed is_from_block in
        (
          self',
          moved,
          rw (a.counted, (validate_attestation_iff self vote.message.contents).1 a.valid, routes)
              (ground (arith, a.registered)),
          routed,
          same,
        ),
    λ refused. elim (Result-cases (head_validator_count self)) [
      | inr (e, h) ↦ (e, rw h refl)
      | inl (n, h) ↦ elim (Bool-cases (leb n validator)) [
        | inl far ↦ (validator_index_out_of_range validator n, rw (h, far) refl)
        | inr near ↦ elim (Result-cases (validate_attestation self vote.message.contents)) [
          | inr (e, bad) ↦ (e, rw (h, near, bad) refl)
          | inl (u, good) ↦ absurd (
              refused (record {
                count = n;
                counted = h;
                registered = ground (arith, near);
                valid = (validate_attestation_iff self vote.message.contents).0 good;
              }))
        ]
      ]
    ],
  )

  -- An admitted vote goes to its pool. The entry of its validator becomes the vote if there was none or
  -- an older one; an entry of the same slot or a later one stays. A vote from a block also removes an
  -- older new vote of its validator, and only that. Nothing else in the store changes, and a call that
  -- returns `false` has changed nothing.
  pub process_attestation-Routed :
      (is_from_block : Bool)
      → IsAdmitted self vote
      → (self' : Store) × (moved : Bool) × (process_attestation self vote is_from_block
          ≡ (self', ok moved))
        × Routed self self' vote is_from_block
        × (if moved then Unit else self' ≡ self)
  process_attestation-Routed is_from_block a =
      let (self', moved, returns, routed, same) = (process_attestation_lem is_from_block).0 a in
      (self', moved, returns, routed, unchanged moved same)

  -- A vote that is not admitted is refused, and the store is left as it was.
  pub process_attestation_refuses :
      (is_from_block : Bool)
      → ¬ IsAdmitted self vote
      → (e : ForkchoiceError) × (process_attestation self vote is_from_block ≡ (self, err e))
  process_attestation_refuses is_from_block = (process_attestation_lem is_from_block).1
