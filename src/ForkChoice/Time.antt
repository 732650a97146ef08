-- ===== src/ForkChoice/Time.antt =====
-- crates/forkchoice/src/time.rs: the clock, in intervals since genesis, and the phases of a slot.
use lean_rust.Prelude.{ℕ, zero, suc, ◌+◌, ◌/◌, ◌%◌, ltb, if◌then◌else◌, Option, none, some, u64_mod}
use lean_rust.Protocol.Limits.{intervals_per_slot}

abbrev pub Time : Type 0
Time = ℕ

pub data Phase : Type 0 where
  proposal idle update_safe_target accept_new_votes : Phase

unfoldable pub slot_of : Time → ℕ
slot_of time = time / intervals_per_slot

unfoldable pub interval : Time → ℕ
interval time = time % intervals_per_slot

abbrev pub phase_of_interval : ℕ → Phase
phase_of_interval zero = Phase.proposal
phase_of_interval (suc zero) = Phase.idle
phase_of_interval (suc (suc zero)) = Phase.update_safe_target
phase_of_interval (suc (suc (suc n))) = Phase.accept_new_votes

unfoldable pub phase : Time → Phase
phase time = phase_of_interval (interval time)

unfoldable pub checked_advance : Time → Option Time
checked_advance time = if ltb (time + 1) u64_mod then some (time + 1) else none

abbrev pub next_phase : Phase → Phase
next_phase proposal = Phase.idle
next_phase idle = Phase.update_safe_target
next_phase update_safe_target = Phase.accept_new_votes
next_phase accept_new_votes = Phase.proposal
