-- ===== src/Runtime/Lifecycle/Ordered.antt =====
-- crates/runtime/src/core/lifecycle.rs: the order of the calls that starting and stopping make.
use lean_rust.Prelude.{
  ◌≡◌, refl, sym, ap, ◌⊎◌, inl, inr, Bool, Option, none, some, List, [], ◌∷◌, ◌++◌, map, Result, ok,
  err, All, Result-cases, Option-cases,
}
use mathlib.Core.Path.{subst}
use mathlib.Core.List.{reverse, append_assoc, append-nil}
use lean_rust.Runtime.Lifecycle.Listed.{Lists, ordered_slots-Lists}
use lean_rust.Runtime.Lifecycle.{
  Name, Event, starts, stops, Node, ServiceFailure, NodeError, start_failed, already_started,
  Answers, ordered_slots, failure, stop_each, stop_services_reverse, start_loop, start, stop,
}

module _ {F : Type 0} (answers : Answers F) where
  stop_each-events :
      (names : List Name) (first_error : Option (ServiceFailure F))
      → (stop_each answers names first_error).0 ≡ map stops names
  unfolding stop_each
  stop_each-events [] first_error = refl
  stop_each-events (name ∷ names) first_error =
      ap (λ es. stops name ∷ es) (stop_each-events names _)

  -- The service at which starting fails, and those before and after it.
  pub record Broken (names : List Name) : Type 0 where
    pub before : List Name
    pub name : Name
    pub after : List Name
    pub source : F
    pub splits : names ≡ before ++ name ∷ after
    pub refuses : answers.start name ≡ err source

  -- All wired services are started, in order.
  pub record Started (self : Node) (outcome : Node × List Event × Result (NodeError F) (Unit {0}))
      : Type 0 where
    pub services : List Name
    pub lists : Lists self services
    pub yields : outcome ≡ (record self { state = some services }, map starts services, ok tt)

  -- Those before the one that fails are started, it is asked, and they are stopped from the last to the first.
  pub record Unwound (self : Node) (outcome : Node × List Event × Result (NodeError F) (Unit {0}))
      : Type 0 where
    pub services : List Name
    pub lists : Lists self services
    pub broken : Broken services
    pub fine : All (λ name. answers.start name ≡ ok tt) broken.before
    pub yields : outcome ≡ (
      self,
      map starts broken.before ++ starts broken.name ∷ map stops (reverse broken.before),
      err (start_failed (failure broken.name broken.source)),
    )

  -- With `done` started before `names`.
  abbrev Loops : List Name → List Name → Type 0
  Loops done names =
      (start_loop answers done names ≡ (map starts names, ok (done ++ names)))
      ⊎ ((b : Broken names) × All (λ name. answers.start name ≡ ok tt) b.before
          × (start_loop answers done names ≡ (
            map starts b.before ++ starts b.name ∷ map stops (reverse (done ++ b.before)),
            err (start_failed (failure b.name b.source)),
          )))

  start_loop-Loops : (done names : List Name) → Loops done names
  unfolding start_loop stop_services_reverse
  start_loop-Loops done [] = inl (ap (λ l. ([], ok l)) (sym (append-nil done)))
  start_loop-Loops done (name ∷ names) = elim (Result-cases (answers.start name)) [
    | inr (e, refused) ↦ inr (
      record {
        before = [];
        name = name;
        after = names;
        source = e;
        splits = refl;
        refuses = refused;
      },
      tt,
      rw (refused, start_loop, stop_each-events (reverse done) none, append-nil done) refl,
    )
    | inl (tt, fine) ↦ elim (start_loop-Loops (done ++ name ∷ []) names) [
      | inl all ↦ inl (rw (fine, start_loop, all, append_assoc done (name ∷ []) names) refl)
      | inr (b, all_fine, broken) ↦ inr (
        record {
          before = name ∷ b.before;
          name = b.name;
          after = b.after;
          source = b.source;
          splits = ap (λ l. name ∷ l) b.splits;
          refuses = b.refuses;
        },
        (fine, all_fine),
        rw (fine, start_loop, broken, append_assoc done (name ∷ []) b.before) refl,
      )
    ]
  ]

  start_idle :
      (wired : Name → Bool)
      → let self : Node = record { wired = wired; state = none } in
        Started self (start answers self) ⊎ Unwound self (start answers self)
  unfolding start
  start_idle wired =
      let self : Node = record { wired = wired; state = none } in
      let services = ordered_slots self in
      let lists = ordered_slots-Lists self in
      elim (start_loop-Loops [] services) [
        | inl all ↦
            inl (record { services = services; lists = lists; yields = rw (all, start) refl })
        | inr (b, fine, broken) ↦ inr (record {
          services = services;
          lists = lists;
          broken = b;
          fine = fine;
          yields = rw (broken, start) refl;
        })
      ]

  abbrev Idle : Node → Type 0
  Idle self =
      (Started self (start answers self) ⊎ Unwound self (start answers self))
      × (stop answers self ≡ (self, [], ok tt))

  abbrev Running : List Name → Node → Type 0
  Running started self =
      (start answers self ≡ (self, [], err already_started))
      × ((stop answers self).0 ≡ record self { state = none })
      × ((stop answers self).1 ≡ map stops (reverse started))

  idle : (wired : Name → Bool) → Idle (record { wired = wired; state = none })
  unfolding stop
  idle wired = (start_idle wired, refl)

  running :
      (wired : Name → Bool) (started : List Name)
      → Running started (record { wired = wired; state = some started })
  unfolding start stop stop_services_reverse
  running wired started = (refl, refl, stop_each-events (reverse started) none)

  with_state :
      (self : Node) (state : Option (List Name))
      → self.state ≡ state
      → record { wired = self.wired; state = state } ≡ self
  with_state self state same =
      ap (λ (s : Option (List Name)). record { wired = self.wired; state = s }) (sym same)

  -- On a node that is not started, starting either starts the wired services and no others, each once and
  -- in the order chain, p2p, sync, duties, http, metrics, and the node keeps them; or the first service
  -- in that order whose start fails is asked, those before it are started and then stopped in
  -- reverse, those after it are not asked, and the node is not started; and stopping does nothing. On a
  -- started node, starting is an error and asks no service, and stopping stops each of its services
  -- once, in reverse, whatever they answer, and leaves it not started.
  pub start_stop-Ordered :
      (self : Node)
      → ((self.state ≡ none)
          × (Started self (start answers self) ⊎ Unwound self (start answers self))
          × (stop answers self ≡ (self, [], ok tt)))
        ⊎ ((started : List Name) × (self.state ≡ some started)
            × (start answers self ≡ (self, [], err already_started))
            × ((stop answers self).0 ≡ record self { state = none })
            × ((stop answers self).1 ≡ map stops (reverse started)))
  start_stop-Ordered self = elim (Option-cases self.state) [
    | inl none_there ↦
        let (begins, rests) = subst Idle (with_state self none none_there) (idle self.wired) in
        inl (none_there, begins, rests)
    | inr (started, there) ↦
        let (refuses, forgets, stopped) =
          subst (Running started) (with_state self (some started) there)
            (running self.wired started) in
        inr (started, there, refuses, forgets, stopped)
  ]
