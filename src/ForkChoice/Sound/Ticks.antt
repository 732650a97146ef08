-- ===== src/ForkChoice/Sound/Ticks.antt =====
-- Votes and ticks on a sound store: they succeed, and it stays sound.
use lean_rust.Prelude.{
  ◌+◌, ◌<◌, ◌≡◌, refl, ◌∙◌, Bool, true, false, some, [], ok, inl, inr, Bool-cases, u64_mod, Outcome,
  arith, ltb, ltb→lt,
}
use lean_rust.Maps.Hash
use lean_rust.Maps.Hash.{IsUnique, contains_key, get-contains_key, extend-IsUnique, insert-IsUnique}
use lean_rust.Protocol.State.{State, num_validators}
use lean_rust.ForkChoice.Time.{
  Phase, proposal, idle, update_safe_target, accept_new_votes, phase, checked_advance,
}
use lean_rust.ForkChoice.Errors.{ForkchoiceError}
use lean_rust.ForkChoice.Store.{
  Store, head_validator_count, update_head, accept_votes, refresh_safe_target, run_phase,
  tick_interval, vote_head_checkpoints, div_ceil3, saturating_mul,
}
use lean_rust.ForkChoice.Sound.Origins.{IsSound, IsSound-retouch, get_fork_choice_head-tracked}
use lean_rust.Protocol.Block.{Block}

-- The call succeeds, and leaves a sound store with the same block tree and post-states.
pub record Settled (anchor : Block) (self : Store)
    (outcome : Outcome Store ForkchoiceError (Unit {0})) : Type 0 where
  pub self' : Store
  pub returns : outcome ≡ (self', ok tt)
  pub sound : IsSound anchor self'
  pub blocks : self'.blocks ≡ self.blocks
  pub states : self'.states ≡ self.states

module _ {anchor : Block} {self : Store} (s : IsSound anchor self) where
  pub update_head-Settled : Settled anchor self (update_head self)
  unfolding update_head
  update_head-Settled =
      let (head, returns, tracked) =
        get_fork_choice_head-tracked (vote_head_checkpoints self.latest_known_votes) 0 s in
      record {
        self' = record self { head = head };
        returns = rw returns refl;
        sound =
            IsSound-retouch self.time head self.safe_target self.latest_known_votes
              self.latest_new_votes s tracked s.safe s.known s.new;
        blocks = refl;
        states = refl;
      }

  pub head_state : (state : State) × (Hash.get self.states self.head ≡ some state)
  head_state = get-contains_key self.states self.head (s.indexed.stated self.head ∙ s.head)

  refresh_safe_target-Settled : Settled anchor self (refresh_safe_target self)
  unfolding refresh_safe_target head_validator_count
  refresh_safe_target-Settled =
      let (state, found) = head_state in
      let score = div_ceil3 (saturating_mul (num_validators state) 2) in
      let (target, returns, tracked) =
        get_fork_choice_head-tracked (vote_head_checkpoints self.latest_new_votes) score s in
      record {
        self' = record self { safe_target = target };
        returns = rw (found, returns) refl;
        sound =
            IsSound-retouch self.time self.head target self.latest_known_votes self.latest_new_votes
              s s.head tracked s.known s.new;
        blocks = refl;
        states = refl;
      }

pub accept_votes-Settled :
    {anchor : Block} {self : Store} → IsSound anchor self → Settled anchor self (accept_votes self)
unfolding accept_votes
accept_votes-Settled {anchor} {self} s =
    let known = Hash.extend self.latest_known_votes self.latest_new_votes in
    let swept =
      IsSound-retouch self.time self.head self.safe_target known [] s s.head s.safe
        (extend-IsUnique self.latest_known_votes self.latest_new_votes s.known) tt in
    let u = update_head-Settled swept in
    record {
      self' = u.self';
      returns = u.returns;
      sound = u.sound;
      blocks = u.blocks;
      states = u.states;
    }

run_phase-Settled :
    {anchor : Block} {self : Store} (hook : Phase) (has_proposal : Bool)
    → IsSound anchor self
    → Settled anchor self (run_phase hook has_proposal self)
unfolding run_phase
run_phase-Settled proposal true s = accept_votes-Settled s
run_phase-Settled proposal false s = record {
  self' = _;
  returns = refl;
  sound = s;
  blocks = refl;
  states = refl;
}
run_phase-Settled idle p s = record {
  self' = _;
  returns = refl;
  sound = s;
  blocks = refl;
  states = refl;
}
run_phase-Settled update_safe_target p s = refresh_safe_target-Settled s
run_phase-Settled accept_new_votes p s = accept_votes-Settled s

-- On a sound store a tick below the last moment succeeds, and the store stays sound.
pub tick_interval-StaysSound :
    {anchor : Block} (self : Store) (has_proposal : Bool)
    → IsSound anchor self
    → self.time + 1 < u64_mod
    → (self' : Store) × (tick_interval self has_proposal ≡ (self', ok tt)) × IsSound anchor self'
unfolding tick_interval checked_advance
tick_interval-StaysSound {anchor} self has_proposal s h =
    let next =
      IsSound-retouch (self.time + 1) self.head self.safe_target self.latest_known_votes
        self.latest_new_votes s s.head s.safe s.known s.new in
    let u = run_phase-Settled (phase (self.time + 1)) has_proposal next in
    (u.self', ground (arith, h, u.returns), u.sound)

pub tick_interval-IsSound :
    {anchor : Block} (self : Store) (has_proposal : Bool)
    → IsSound anchor self
    → IsSound anchor (tick_interval self has_proposal).0
unfolding tick_interval checked_advance
tick_interval-IsSound self has_proposal s = elim (Bool-cases (ltb (self.time + 1) u64_mod)) [
  | inr last ↦ rw last s
  | inl more ↦
      let (self', returns, sound) =
        tick_interval-StaysSound self has_proposal s (ltb→lt _ _ more) in
      rw returns sound
]
