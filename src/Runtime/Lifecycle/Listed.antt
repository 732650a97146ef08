-- ===== src/Runtime/Lifecycle/Listed.antt =====
-- crates/runtime/src/core/node.rs: which services a node starts, and in which order.
use lean_rust.Prelude.{
  ℕ, ◌<◌, ◌≡◌, refl, inl, inr, Bool, true, Bool-cases, List, [], ◌∷◌, All, arith,
}
use mathlib.Core.List.{Mem, Memᴰ}
use lean_rust.Runtime.Lifecycle.{
  Name, chain, p2p, sync, duties, http, metrics, Node, slot_order, keep_wired, ordered_slots,
}

-- The chain comes first and the metrics come last.
abbrev pub rank : Name → ℕ
rank chain = 0
rank p2p = 1
rank sync = 2
rank duties = 3
rank http = 4
rank metrics = 5

-- Each service comes before all later ones.
abbrev pub Rising : List Name → Type 0
Rising [] = Unit
Rising (name ∷ names) = All (λ later. rank name < rank later) names × Rising names

-- The wired services and no others, by rank.
pub record Lists (self : Node) (services : List Name) : Type 0 where
  pub rising : Rising services
  pub wired : All (λ name. self.wired name ≡ true) services
  pub complete : (name : Name) → self.wired name ≡ true → Mem name services

module _ (wired : Name → Bool) where
  keep_wired-All {κ} :
      (P : Name → Type κ) (names : List Name) → All P names → All P (keep_wired wired names)
  unfolding keep_wired
  keep_wired-All P [] all = tt
  keep_wired-All P (name ∷ names) all = elim (Bool-cases (wired name)) [
    | inl e ↦ rw (e, keep_wired) (all.0, keep_wired-All P names all.1)
    | inr e ↦ rw (e, keep_wired) (keep_wired-All P names all.1)
  ]

  keep_wired-Rising : (names : List Name) → Rising names → Rising (keep_wired wired names)
  unfolding keep_wired
  keep_wired-Rising [] rising = tt
  keep_wired-Rising (name ∷ names) rising = elim (Bool-cases (wired name)) [
    | inl e ↦ rw (e, keep_wired) (keep_wired-All _ names rising.0, keep_wired-Rising names rising.1)
    | inr e ↦ rw (e, keep_wired) (keep_wired-Rising names rising.1)
  ]

  keep_wired-wired : (names : List Name) → All (λ name. wired name ≡ true) (keep_wired wired names)
  unfolding keep_wired
  keep_wired-wired [] = tt
  keep_wired-wired (name ∷ names) = elim (Bool-cases (wired name)) [
    | inl e ↦ rw (e, keep_wired) (e, keep_wired-wired names)
    | inr e ↦ rw (e, keep_wired) (keep_wired-wired names)
  ]

  mem-keep_wired :
      (name : Name) (names : List Name)
      → wired name ≡ true
      → Memᴰ name names
      → Memᴰ name (keep_wired wired names)
  unfolding keep_wired
  mem-keep_wired name [] there nowhere = elim nowhere [ ]
  mem-keep_wired name (other ∷ names) there (Memᴰ.head same) =
      let e : wired other ≡ true = cc in rw (e, keep_wired) (Memᴰ.head same)
  mem-keep_wired name (other ∷ names) there (Memᴰ.tail later) = elim (Bool-cases (wired other)) [
    | inl e ↦ rw (e, keep_wired) (Memᴰ.tail (mem-keep_wired name names there later))
    | inr e ↦ rw (e, keep_wired) (mem-keep_wired name names there later)
  ]

mem-slot_order : (name : Name) → Memᴰ name slot_order
mem-slot_order chain = Memᴰ.head refl
mem-slot_order p2p = Memᴰ.tail (Memᴰ.head refl)
mem-slot_order sync = Memᴰ.tail (Memᴰ.tail (Memᴰ.head refl))
mem-slot_order duties = Memᴰ.tail (Memᴰ.tail (Memᴰ.tail (Memᴰ.head refl)))
mem-slot_order http = Memᴰ.tail (Memᴰ.tail (Memᴰ.tail (Memᴰ.tail (Memᴰ.head refl))))
mem-slot_order metrics = Memᴰ.tail (Memᴰ.tail (Memᴰ.tail (Memᴰ.tail (Memᴰ.tail (Memᴰ.head refl)))))

slot_order-Rising : Rising slot_order
slot_order-Rising = (
  (omega arith, (omega arith, (omega arith, (omega arith, (omega arith, tt))))),
  (
    (omega arith, (omega arith, (omega arith, (omega arith, tt)))),
    (
      (omega arith, (omega arith, (omega arith, tt))),
      ((omega arith, (omega arith, tt)), ((omega arith, tt), (tt, tt))),
    ),
  ),
)

pub ordered_slots-Lists : (self : Node) → Lists self (ordered_slots self)
unfolding ordered_slots
ordered_slots-Lists self = record {
  rising = keep_wired-Rising self.wired slot_order slot_order-Rising;
  wired = keep_wired-wired self.wired slot_order;
  complete =
      λ name there. ∣ mem-keep_wired self.wired name slot_order there (mem-slot_order name) ∣₁;
}
