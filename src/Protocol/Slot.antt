-- ===== src/Protocol/Slot.antt =====
-- crates/protocol/src/slot.rs: slots, and which slots can be justified after a finalized one.
pub mod Isqrt
pub mod Justifiable
use package.lean_rust.Prelude.{
  ℕ, zero, suc, ◌+◌, ◌-◌, ◌*◌, ◌/◌, ◌%◌, ◌^◌, Bool, true, false, ◌||◌, Option, none, some, ltb, leb,
  ◌==◌, if◌then◌else◌, u64_mod, bit_length,
}

-- A `Slot` is its number.
abbrev pub Slot : Type 0
Slot = ℕ

-- `u64::checked_add(1)`
unfoldable pub advance : Slot → Option Slot
advance s = if ltb (s + 1) u64_mod then some (s + 1) else none

-- The `loop` of `isqrt_u64`. A loop that runs out of fuel gives nothing.
unfoldable pub newton : ℕ → ℕ → ℕ → Option ℕ
newton zero n x = none
newton (suc fuel) n x =
    let next = (x + n / x) / 2 in elim (leb x next) [ true ↦ some x | false ↦ newton fuel n next ]

-- `1_u64 << bits.div_ceil(2)`
unfoldable pub first_estimate : ℕ → ℕ
first_estimate n = 2 ^ ((bit_length 64 n + 1) / 2)

unfoldable pub isqrt_u64 : ℕ → Option ℕ
isqrt_u64 n = if ltb n 2 then some n else (let x = first_estimate n in newton (x + 1) n x)

unfoldable pub is_justifiable_after : Slot → Slot → Bool
is_justifiable_after self finalized =
    if ltb self finalized
    then false
    else (let delta = self - finalized in
        if leb delta 5 then true else elim (isqrt_u64 delta) [
          | none ↦ false
          | some s ↦ delta == s * s % u64_mod || delta == s * (s + 1) % u64_mod
        ])
