-- ===== src/ForkChoice/Production/Converge.antt =====
-- The loop that gathers votes ends: each round adds a vote, and the votes are capped.
use lean_rust.Prelude.{
  ℕ, zero, suc, ◌+◌, ◌-◌, ◌≤◌, ◌<◌, ◌≡◌, refl, ◌⊎◌, inl, inr, Bool-cases, List, [], ◌∷◌, ◌++◌,
  length, length-append, take, ◌==◌, Result, ok, err, Result-cases, arith, ap,
}
use lean_rust.Types.Endian.{Bytes32}
use lean_rust.Ssz.Merkleize.{Sha256}
use lean_rust.Protocol.Limits.{max_attestations}
use lean_rust.Protocol.Slot.{Slot}
use lean_rust.Protocol.Vote.{SignedAttestation}
use lean_rust.Protocol.Block.{Block}
use lean_rust.Protocol.State.{State}
use lean_rust.ForkChoice.Errors.{ForkchoiceError}
use lean_rust.ForkChoice.Store.{Store}
use lean_rust.ForkChoice.Production.{
  filter_votes, collect_includable_votes, build_candidate_block, converge_loop,
  converge_attestations,
}

length-take_le {ℓ} : {A : Type ℓ} (n : ℕ) (xs : List A) → length (take n xs) ≤ n
length-take_le zero xs = omega arith
length-take_le (suc n) [] = omega arith
length-take_le (suc n) (x ∷ xs) = omega (arith, length-take_le n xs)

collect_cap :
    (self : Store) (post : State) (atts : List SignedAttestation)
    → length atts ≤ max_attestations
    → length atts + length (collect_includable_votes self post atts) ≤ max_attestations
unfolding collect_includable_votes
collect_cap self post atts h = elim (Bool-cases (max_attestations - length atts == 0)) [
  | inl e ↦ rw e (omega (arith, h))
  | inr e ↦ rw e (
      omega (
        arith,
        h,
        length-take_le (max_attestations - length atts)
            (filter_votes self post atts self.latest_known_votes),
      ))
]

List-cases {ℓ} : {A : Type ℓ} (xs : List A) → (xs ≡ []) ⊎ ((y : A) × (ys : List A) × (xs ≡ y ∷ ys))
List-cases [] = inl refl
List-cases (x ∷ xs) = inr (x, xs, refl)

module _ (sha256 : Sha256) (self : Store) (head_root : Bytes32) (slot : Slot) (validator : ℕ)
    (head_state : State) where
  abbrev build : List SignedAttestation → Result ForkchoiceError (Block × State)
  build atts = build_candidate_block sha256 head_root slot validator head_state atts

  -- The votes are those of a candidate that applies and after which no vote can be added.
  pub record Settled (r : Result ForkchoiceError (List SignedAttestation × State)) : Type 0 where
    pub attestations : List SignedAttestation
    pub candidate : Block
    pub post_state : State
    pub returns : r ≡ ok (attestations, post_state)
    pub applies : build attestations ≡ ok (candidate, post_state)
    pub complete : collect_includable_votes self post_state attestations ≡ []
    pub capped : length attestations ≤ max_attestations

  -- A candidate does not apply, and its error is returned.
  pub record Broken (r : Result ForkchoiceError (List SignedAttestation × State)) : Type 0 where
    pub attestations : List SignedAttestation
    pub error : ForkchoiceError
    pub fails : build attestations ≡ err error
    pub returns : r ≡ err error

  abbrev Ends : Result ForkchoiceError (List SignedAttestation × State) → Type 0
  Ends r = Settled r ⊎ Broken r

  converge_loop-Ends :
      (fuel : ℕ) (atts : List SignedAttestation)
      → length atts ≤ max_attestations
      → max_attestations < length atts + fuel
      → Ends (converge_loop sha256 self fuel head_root slot validator head_state atts)
  unfolding converge_loop
  converge_loop-Ends zero atts capped enough = absurd (omega (arith, capped, enough))
  converge_loop-Ends (suc fuel) atts capped enough = elim (Result-cases (build atts)) [
    | inr (e, fails) ↦
        inr (record { attestations = atts; error = e; fails = fails; returns = rw fails refl })
    | inl ((candidate, post), builds) ↦
        elim (List-cases (collect_includable_votes self post atts)) [
          | inl none_left ↦ inl (record {
            attestations = atts;
            candidate = candidate;
            post_state = post;
            returns = ground (arith, builds, none_left);
            applies = builds;
            complete = none_left;
            capped = capped;
          })
          | inr (a, additions, more) ↦
              let grown = collect_cap self post atts capped in
              let size = ap length more in
              let again : converge_loop sha256 self (suc fuel) head_root slot validator head_state
                    atts
                  ≡ converge_loop sha256 self fuel head_root slot validator head_state
                      (atts ++ a ∷ additions) =
                ground (arith, builds, more) in
              rw again (
                converge_loop-Ends fuel (atts ++ a ∷ additions)
                  (omega (arith, grown, size, length-append {0} atts (a ∷ additions)))
                  (omega (arith, enough, length-append {0} atts (a ∷ additions))))
        ]
  ]

  -- The loop ends within its fuel: either with votes, no more than the cap, whose candidate applies
  -- and after which no further vote can be added, or with the error of a candidate.
  pub converge_attestations-Ends :
      Settled (converge_attestations sha256 self head_root slot validator head_state)
      ⊎ Broken (converge_attestations sha256 self head_root slot validator head_state)
  unfolding converge_attestations
  converge_attestations-Ends =
      converge_loop-Ends (max_attestations + 1) [] (omega arith) (omega arith)
