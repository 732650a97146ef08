-- ===== src/Types/Bytes.antt =====
-- `u8` arithmetic as crates/types/src/bitfields.rs uses it: single bits of a byte.
use Prim.Native.Nat.{bit_and, bit_or}
use lean_rust.Prelude.{
  ℕ, zero, suc, ◌-◌, ◌^◌, ◌≤◌, ◌<◌, ◌≡◌, refl, Bool, true, false, ◌&&◌, ◌||◌, not, arith, ltb, leb,
  ltb→lt, ==→≡, ◌==◌, if◌then◌else◌,
}

-- `1_u8 << k`, for `k < 8`.
abbrev pub mask : ℕ → ℕ
mask k = 2 ^ k

-- `byte & (1_u8 << k) != 0`
unfoldable pub test_bit : ℕ → ℕ → Bool
test_bit byte k = not (bit_and byte (mask k) == 0)

-- `*byte |= mask` or `*byte &= !mask`
unfoldable pub write_bit : ℕ → ℕ → Bool → ℕ
write_bit byte k value = if value then bit_or byte (mask k) else bit_and byte (255 - mask k)

-- `u8::ilog2` of a non-zero byte.
unfoldable pub ilog2 : ℕ → ℕ
ilog2 b =
    if leb 128 b
    then 7
    else if leb 64 b
    then 6
    else if leb 32 b
    then 5
    else if leb 16 b
    then 4
    else if leb 8 b
    then 3
    else if leb 4 b
    then 2
    else if leb 2 b
    then 1
    else 0

-- The check holds at each number below the bound.
all_below : ℕ → (ℕ → Bool) → Bool
all_below zero check = true
all_below (suc bound) check = check bound && all_below bound check

all_below_sound :
    (bound : ℕ) (check : ℕ → Bool) (b : ℕ)
    → all_below bound check ≡ true
    → b < bound
    → check b ≡ true
unfolding all_below
all_below_sound zero check b holds low = absurd (omega (arith, low))
all_below_sound (suc bound) check b holds low =
    ground (arith, holds, low, all_below_sound bound check b)

same : Bool → Bool → Bool
same true b = b
same false b = not b

same→≡ : (a b : Bool) → same a b ≡ true → a ≡ b
unfolding same
same→≡ true true h = refl
same→≡ true false h = cc
same→≡ false true h = cc
same→≡ false false h = refl

write_ok : ℕ → ℕ → ℕ → Bool → Bool
unfolding test_bit write_bit same
write_ok b k j v = same (test_bit (write_bit b k v) j) (if k == j then v else test_bit b j)

abbrev write_table : Bool → Bool
write_table v = all_below 8 (λ k. all_below 8 (λ j. all_below 256 (λ b. write_ok b k j v)))

write_table-true : write_table true ≡ true
unfolding write_ok all_below
write_table-true = refl

write_table-false : write_table false ≡ true
unfolding write_ok all_below
write_table-false = refl

pub test_bit-write_bit :
    (b k j : ℕ) (v : Bool)
    → b < 256
    → k < 8
    → j < 8
    → test_bit (write_bit b k v) j ≡ (if k == j then v else test_bit b j)
unfolding write_ok
test_bit-write_bit b k j v hb hk hj = same→≡ _ _ (
    all_below_sound 256 (λ x. write_ok x k j v) b
      (all_below_sound 8 (λ y. all_below 256 (λ x. write_ok x k y v)) j
        (all_below_sound 8 (λ z. all_below 8 (λ y. all_below 256 (λ x. write_ok x z y v))) k
          (table v) hk)
        hj)
      hb)
  where
    table :
        (w : Bool)
        → all_below 8 (λ z. all_below 8 (λ y. all_below 256 (λ x. write_ok x z y w))) ≡ true
    table true = write_table-true
    table false = write_table-false

write_lt_table :
    all_below 8
      (λ k. all_below 256 (λ b. ltb (write_bit b k true) 256 && ltb (write_bit b k false) 256))
    ≡ true
unfolding all_below write_bit
write_lt_table = refl

pub write_bit-lt : (b k : ℕ) (v : Bool) → b < 256 → k < 8 → write_bit b k v < 256
write_bit-lt b k v hb hk = pick v
  where
    both : (ltb (write_bit b k true) 256 && ltb (write_bit b k false) 256) ≡ true
    both =
        all_below_sound 256 (λ x. ltb (write_bit x k true) 256 && ltb (write_bit x k false) 256) b
          (all_below_sound 8
            (λ z.
              all_below 256 (λ x. ltb (write_bit x z true) 256 && ltb (write_bit x z false) 256))
            k write_lt_table hk)
          hb

    pick : (w : Bool) → write_bit b k w < 256
    pick true = ground (arith, both)
    pick false = ground (arith, both)

zero_table : all_below 8 (λ k. not (test_bit 0 k)) ≡ true
unfolding all_below test_bit
zero_table = refl

-- A zero byte has no bit set.
pub test_bit-zero : (k : ℕ) → k < 8 → test_bit 0 k ≡ false
test_bit-zero k hk = ground (arith, all_below_sound 8 (λ x. not (test_bit 0 x)) k zero_table hk)

-- Bits from `k` on are clear, as a computation.
clear_from : ℕ → ℕ → Bool
unfolding all_below test_bit
clear_from b k = all_below 8 (λ j. ltb j k || not (test_bit b j))

clear_from_intro :
    (n b k : ℕ)
    → n ≤ 8
    → ((j : ℕ) → k ≤ j → j < 8 → test_bit b j ≡ false)
    → all_below n (λ j. ltb j k || not (test_bit b j)) ≡ true
unfolding all_below
clear_from_intro zero b k hn h = refl
clear_from_intro (suc n) b k hn h = ground (arith, h n, clear_from_intro n b k)

-- What the delimiter bit of a bit list rests on: over a byte whose bits from `k` on are clear.
delimit_ok : ℕ → ℕ → Bool
unfolding clear_from write_bit ilog2
delimit_ok k b =
    not (clear_from b k)
    || (ltb 0 (write_bit b k true)
        && (ilog2 (write_bit b k true) == k)
        && (write_bit (write_bit b k true) k false == b)
        && ltb b (2 ^ k))

delimit_table : all_below 8 (λ k. all_below 256 (λ b. delimit_ok k b)) ≡ true
unfolding all_below delimit_ok
delimit_table = refl

four_of :
    (c p q r s : Bool)
    → (not c || (p && q && r && s)) ≡ true
    → c ≡ true
    → (p ≡ true) × (q ≡ true) × (r ≡ true) × (s ≡ true)
four_of c p q r s h e = ground arith

pub delimit :
    (b k : ℕ)
    → b < 256
    → k < 8
    → ((j : ℕ) → k ≤ j → j < 8 → test_bit b j ≡ false)
    → (0 < write_bit b k true)
      × (ilog2 (write_bit b k true) ≡ k)
      × (write_bit (write_bit b k true) k false ≡ b)
      × (b < 2 ^ k)
unfolding delimit_ok
delimit b k hb hk h =
    let fact =
      all_below_sound 256 (λ x. delimit_ok k x) b
        (all_below_sound 8 (λ z. all_below 256 (λ x. delimit_ok z x)) k delimit_table hk) hb in
    let clear = clear_from_intro 8 b k (omega arith) h in
    let (positive, top, restored, small) = four_of (clear_from b k) _ _ _ _ fact clear in
    (ltb→lt _ _ positive, ==→≡ _ _ top, ==→≡ _ _ restored, ltb→lt _ _ small)
