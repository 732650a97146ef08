-- ===== src/ForkChoice/Store/Clock.antt =====
-- The clock of the store: the phases follow each other, and what a tick does to the votes.
use lean_rust.Prelude.{
  ℕ, zero, suc, ◌+◌, ◌%◌, ◌≤◌, ◌<◌, ◌≡◌, ◌≢◌, refl, Bool, true, false, ◌==◌, if◌then◌else◌, none,
  some, [], Result, ok, err, Result-cases, inl, inr, u64_mod, arith,
}
use lean_rust.Types.Endian.{Bytes32}
use lean_rust.Maps.Hash
use lean_rust.Maps.Hash.{HashMap, IsUnique, get_first}
use lean_rust.ForkChoice.Time.{
  Time, Phase, proposal, idle, update_safe_target, accept_new_votes, phase_of_interval, phase,
  slot_of, interval, checked_advance, next_phase,
}
use lean_rust.ForkChoice.Errors.{ForkchoiceError, time_overflow}
use lean_rust.ForkChoice.Head.{get_fork_choice_head}
use lean_rust.ForkChoice.Store.{
  Store, head_validator_count, update_head, accept_votes, refresh_safe_target, run_phase,
  tick_interval, vote_head_checkpoints, div_ceil3, saturating_mul,
}

phase_of_interval_next :
    (i : ℕ) → i < 4 → phase_of_interval ((i + 1) % 4) ≡ next_phase (phase_of_interval i)
phase_of_interval_next zero h = refl
phase_of_interval_next (suc zero) h = refl
phase_of_interval_next (suc (suc zero)) h = refl
phase_of_interval_next (suc (suc (suc zero))) h = refl
phase_of_interval_next (suc (suc (suc (suc n)))) h = absurd (omega (arith, h))

checked_advance_lem :
    (time : Time)
    → (time + 1 < u64_mod
        → (checked_advance time ≡ some (time + 1))
          × (phase (time + 1) ≡ next_phase (phase time))
          × (slot_of (time + 1) ≡ (if interval time == 3 then slot_of time + 1 else slot_of time)))
      × (u64_mod ≤ time + 1 → checked_advance time ≡ none)
unfolding checked_advance phase interval slot_of
checked_advance_lem time = (
  λ h. (
    ground (arith, h),
    (let e : (time + 1) % 4 ≡ (time % 4 + 1) % 4 = omega arith in
        rw e (phase_of_interval_next (time % 4) (omega arith))),
    ground arith,
  ),
  λ h. ground (arith, h),
)

-- At the last moment of the clock a tick is refused, and the store is left as it was.
pub tick_interval_refuses :
    (self : Store) (has_proposal : Bool)
    → u64_mod ≤ self.time + 1
    → tick_interval self has_proposal ≡ (self, err (time_overflow self.time))
unfolding tick_interval
tick_interval_refuses self has_proposal h = rw ((checked_advance_lem self.time).1 h) refl

-- Whether the hook of a phase accepts the pending votes.
abbrev pub accepts : Phase → Bool → Bool
accepts proposal has_proposal = has_proposal
accepts idle has_proposal = false
accepts update_safe_target has_proposal = false
accepts accept_new_votes has_proposal = true

-- What a tick leaves, whether its hook fails or not.
pub record Ticked (self self' : Store) (hook : Phase) (has_proposal : Bool) : Type 0 where
  pub known :
      (v : ℕ)
      → Hash.get self'.latest_known_votes v ≡ (
          if accepts hook has_proposal
          then get_first self.latest_new_votes self.latest_known_votes v
          else Hash.get self.latest_known_votes v)
  pub new :
      self'.latest_new_votes ≡ (if accepts hook has_proposal then [] else self.latest_new_votes)
  pub rest : self' ≡ record self {
    time = self.time + 1;
    head = self'.head;
    safe_target = self'.safe_target;
    latest_known_votes = self'.latest_known_votes;
    latest_new_votes = self'.latest_new_votes;
  }
  -- The head moves only with the votes, and the safe target only in its phase.
  pub head : accepts hook has_proposal ≡ false → self'.head ≡ self.head
  pub safe : hook ≢ Phase.update_safe_target → self'.safe_target ≡ self.safe_target

accept_votes-shape :
    (self : Store)
    → (head : Bytes32) × (r : Result ForkchoiceError (Unit {0})) × (accept_votes self ≡ (
      record self {
        head = head;
        latest_new_votes = [];
        latest_known_votes = Hash.extend self.latest_known_votes self.latest_new_votes;
      },
      r,
    ))
unfolding accept_votes update_head
accept_votes-shape self =
    let known = Hash.extend self.latest_known_votes self.latest_new_votes in
    elim (Result-cases (
      get_fork_choice_head self.blocks self.latest_justified.root (vote_head_checkpoints known)
        0)) [
          | inl (head, e) ↦ (head, ok tt, rw e refl)
          | inr (e, h) ↦ (self.head, err e, rw h refl)
        ]

refresh_safe_target-shape :
    (self : Store)
    → (target : Bytes32) × (r : Result ForkchoiceError (Unit {0})) × (refresh_safe_target self
        ≡ (record self { safe_target = target }, r))
unfolding refresh_safe_target
refresh_safe_target-shape self = elim (Result-cases (head_validator_count self)) [
  | inr (e, h) ↦ (self.safe_target, err e, rw h refl)
  | inl (n, h) ↦
      elim (Result-cases (
        get_fork_choice_head self.blocks self.latest_justified.root
          (vote_head_checkpoints self.latest_new_votes) (div_ceil3 (saturating_mul n 2)))) [
            | inl (target, e) ↦ (target, ok tt, rw (h, e) refl)
            | inr (e, bad) ↦ (self.safe_target, err e, rw (h, bad) refl)
          ]
]

module _ (self : Store) (unique : IsUnique self.latest_new_votes) where
  abbrev ticking : Store
  ticking = record self { time = self.time + 1 }

  abbrev Hooked : Phase → Bool → Type 0
  Hooked hook has_proposal =
      (self' : Store) × (r : Result ForkchoiceError (Unit {0})) × (run_phase hook has_proposal
          ticking
        ≡ (self', r))
      × Ticked self self' hook has_proposal

  idle-Ticked :
      (hook : Phase) (has_proposal : Bool)
      → accepts hook has_proposal ≡ false
      → Ticked self ticking hook has_proposal
  idle-Ticked hook has_proposal h = record {
    known = λ v. rw h refl;
    new = rw h refl;
    rest = refl;
    head = λ _. refl;
    safe = λ _. refl;
  }

  accepted-Ticked :
      (hook : Phase) (has_proposal : Bool)
      → accepts hook has_proposal ≡ true
      → (self' : Store) × (r : Result ForkchoiceError (Unit {0})) × (accept_votes ticking
          ≡ (self', r))
        × Ticked self self' hook has_proposal
  accepted-Ticked hook has_proposal h =
      let (head, r, e) = accept_votes-shape ticking in
      (
        _,
        r,
        e,
        record {
          known =
              λ v. rw h (Hash.get-extend self.latest_known_votes self.latest_new_votes v unique);
          new = rw h refl;
          rest = refl;
          head = λ not. cc;
          safe = λ _. refl;
        },
      )

  run_phase-Ticked : (hook : Phase) (has_proposal : Bool) → Hooked hook has_proposal
  unfolding run_phase
  run_phase-Ticked proposal true = accepted-Ticked Phase.proposal true refl
  run_phase-Ticked proposal false = (ticking, ok tt, refl, idle-Ticked Phase.proposal false refl)
  run_phase-Ticked idle p = (ticking, ok tt, refl, idle-Ticked Phase.idle p refl)
  run_phase-Ticked update_safe_target p =
      let (target, r, e) = refresh_safe_target-shape ticking in
      (
        _,
        r,
        e,
        record {
          known = λ v. refl;
          new = refl;
          rest = refl;
          head = λ _. refl;
          safe = λ other. absurd (other refl);
        },
      )
  run_phase-Ticked accept_new_votes p = accepted-Ticked Phase.accept_new_votes p refl

  -- Whatever the hook returns, a tick below the last moment moves the clock by one interval. A tick
  -- that accepts votes makes every pending vote known, in place of the validator's older entry; no
  -- other tick touches a pool.
  pub tick_interval-Ticked :
      (has_proposal : Bool)
      → self.time + 1 < u64_mod
      → (self' : Store) × (r : Result ForkchoiceError (Unit {0})) × (tick_interval self has_proposal
          ≡ (self', r))
        × Ticked self self' (phase (self.time + 1)) has_proposal
  unfolding tick_interval
  tick_interval-Ticked has_proposal h =
      let (self', r, runs, ticked) = run_phase-Ticked (phase (self.time + 1)) has_proposal in
      (self', r, rw ((checked_advance_lem self.time).0 h).0 runs, ticked)
