-- ===== src/Runtime/Lifecycle.antt =====
-- crates/runtime/src/core (node.rs, lifecycle.rs, error.rs): the services of a node are started in the order of
-- their slots and stopped in reverse. What a service answers is a parameter, and the calls that are
-- made to services are written down. The deadline of a stop is part of the answer.
pub mod Listed
pub mod Ordered
mod Examples
use package.lean_rust.Prelude.{
  ℕ, Bool, true, false, Option, none, some, List, [], ◌∷◌, ◌++◌, Result, ok, err,
}
use mathlib.Core.List.{reverse}

pub data Name : Type 0 where
  chain p2p sync duties http metrics : Name

pub data Event : Type 0 where
  starts stops : Name → Event

-- Whether each slot is wired, and the services that were started.
pub record Node : Type 0 where
  pub wired : Name → Bool
  pub state : Option (List Name)

pub record ServiceFailure (F : Type 0) : Type 0 where
  pub service : Name
  pub source : F

pub data NodeError (F : Type 0) : Type 0 where
  start_failed stop_failed : ServiceFailure F → NodeError F
  services_unhealthy : List (ServiceFailure F) → NodeError F
  already_started : NodeError F

-- What the services answer.
pub record Answers (F : Type 0) : Type 0 where
  pub start : Name → Result F (Unit {0})
  pub stop : Name → Result F (Unit {0})
  pub status : Name → Result F (Unit {0})

abbrev pub slot_order : List Name
slot_order = chain ∷ p2p ∷ sync ∷ duties ∷ http ∷ metrics ∷ []

-- `filter_map` over the slots.
unfoldable pub keep_wired : (Name → Bool) → List Name → List Name
keep_wired wired [] = []
keep_wired wired (name ∷ names) =
    let rest = keep_wired wired names in elim (wired name) [ true ↦ name ∷ rest | false ↦ rest ]

unfoldable pub ordered_slots : Node → List Name
ordered_slots self = keep_wired self.wired slot_order

abbrev pub failure : {F : Type 0} → Name → F → ServiceFailure F
failure name source = record { service = name; source = source }

module _ {F : Type 0} (answers : Answers F) where
  abbrev pub Run : Type 0 → Type 0
  Run A = List Event × Result (NodeError F) A

  -- `services.iter().rev()`, with the first failure so far.
  unfoldable pub stop_each :
      List Name → Option (ServiceFailure F) → List Event × Option (ServiceFailure F)
  stop_each [] first_error = ([], first_error)
  stop_each (name ∷ names) first_error =
      let next : Option (ServiceFailure F) = elim (answers.stop name) [
        | ok _ ↦ first_error
        | err source ↦ elim first_error [ none ↦ some (failure name source) | some e ↦ some e ]
      ] in
      let (events, failed) = stop_each names next in (stops name ∷ events, failed)

  unfoldable pub stop_services_reverse : List Name → List Event × Option (ServiceFailure F)
  stop_services_reverse services = stop_each (reverse services) none

  -- The loop of `start`, on the services started so far.
  unfoldable pub start_loop : List Name → List Name → Run (List Name)
  start_loop started [] = ([], ok started)
  start_loop started (name ∷ names) = elim (answers.start name) [
    | ok _ ↦
        let (events, result) = start_loop (started ++ name ∷ []) names in
        (starts name ∷ events, result)
    | err source ↦
        (starts name ∷ (stop_services_reverse started).0, err (start_failed (failure name source)))
  ]

  -- What the loop leaves in the node.
  abbrev pub finish_start :
      Node → Run (List Name) → Node × List Event × Result (NodeError F) (Unit {0})
  finish_start self (events, ok started) = (record self { state = some started }, events, ok tt)
  finish_start self (events, err e) = (record self { state = none }, events, err e)

  unfoldable pub start : Node → Node × List Event × Result (NodeError F) (Unit {0})
  start self = elim self.state [
    | some started ↦ (self, [], err already_started)
    | none ↦ finish_start self (start_loop [] (ordered_slots self))
  ]

  unfoldable pub stop : Node → Node × List Event × Result (NodeError F) (Unit {0})
  stop self = elim self.state [
    | none ↦ (self, [], ok tt)
    | some started ↦
        let (events, failed) = stop_services_reverse started in
        (
          record self { state = none },
          events,
          elim failed [ none ↦ ok tt | some e ↦ err (stop_failed e) ],
        )
  ]

  unfoldable pub unhealthy : List Name → List (ServiceFailure F)
  unhealthy [] = []
  unhealthy (name ∷ names) =
      let rest = unhealthy names in
      elim (answers.status name) [ ok _ ↦ rest | err source ↦ failure name source ∷ rest ]

  unfoldable pub status : Node → Result (NodeError F) (Unit {0})
  status self = elim (unhealthy (ordered_slots self)) [
    | [] ↦ ok tt
    | e ∷ errors ↦ err (services_unhealthy (e ∷ errors))
  ]
