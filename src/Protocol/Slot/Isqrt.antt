-- ===== src/Protocol/Slot/Isqrt.antt =====
-- Newton's iteration gives the integer square root.
use lean_rust.Prelude.{
  ℕ, zero, suc, ◌+◌, ◌-◌, ◌*◌, ◌/◌, ◌≤◌, ◌<◌, ◌≡◌, refl, some, inl, inr, leb, ltb, Bool-cases,
  leb→le, leb→lt, ltb→le, ltb→lt, arith, u64_mod, bit_length, lt-pow-bit_length, pow_add, pow_mono,
  pow_pos,
}
use native.Mathlib.Nat.{
  mul-le-mul, mul-le-mul_left, mul-le-mul_right, div-mul-le_self, le_trans, lt_of_lt_of_le,
  mul_comm,
}
use native.Mathlib.Decide.{dec_le}
use lean_rust.Protocol.Slot.{newton, first_estimate, isqrt_u64}

-- `s` is the integer square root of `n`.
abbrev pub IsRoot : ℕ → ℕ → Type 0
IsRoot s n = (s * s ≤ n) × (n < (s + 1) * (s + 1))

below_mean : (a e b : ℕ) → b ≤ a + 2 * e → a * b ≤ (a + e) * (a + e)
below_mean a e b h = le_trans (mul-le-mul_left a h) (omega arith)

-- A product is at most the square of the mean of its factors.
am_gm : (a b m : ℕ) → a + b ≤ 2 * m → a * b ≤ m * m
am_gm a b m h = elim (dec_le a m) [
  | yes p ↦ let e : a + (m - a) ≡ m = omega arith in rw e at (below_mean a (m - a) b (omega arith))
  | no p ↦
      let e : b + (m - b) ≡ m = omega arith in
      rw (mul_comm a b) (rw e at (below_mean b (m - b) a (omega arith)))
]

square_mono : (a b : ℕ) → a ≤ b → a * a ≤ b * b
square_mono a b h = mul-le-mul h h

pub square_lt : (a b : ℕ) → a * a < b * b → a < b
square_lt a b h = grind (arith, square_mono)

quotient_bound : (n x : ℕ) → 0 < x → n < (n / x + 1) * x
quotient_bound n x h = grind arith

-- One step keeps the estimate at or above the root.
step_above : (n x : ℕ) → 0 < x → n < ((x + n / x) / 2 + 1) * ((x + n / x) / 2 + 1)
step_above n x h =
    let q = n / x in
    let m = (x + q) / 2 + 1 in
    lt_of_lt_of_le (quotient_bound n x h) (am_gm (q + 1) x m (omega arith))

stop_below : (n x : ℕ) → x ≤ (x + n / x) / 2 → x * x ≤ n
stop_below n x h =
    let enough : x ≤ n / x = omega arith in
    le_trans (mul-le-mul_right x enough) (div-mul-le_self n x)

pos_of_root : (m n : ℕ) → 0 < n → n < (m + 1) * (m + 1) → 0 < m
pos_of_root zero n hn h = omega arith
pos_of_root (suc m) n hn h = omega arith

small-IsRoot : (n : ℕ) → n < 2 → IsRoot n n
small-IsRoot zero h = (omega arith, omega arith)
small-IsRoot (suc zero) h = (omega arith, omega arith)
small-IsRoot (suc (suc n)) h = absurd (omega arith)

pub newton-IsRoot :
    (fuel n x : ℕ)
    → 0 < n
    → 0 < x
    → x < fuel
    → n < (x + 1) * (x + 1)
    → (s : ℕ) × (newton fuel n x ≡ some s) × IsRoot s n
unfolding newton
newton-IsRoot zero n x hn hx hf h = elim hf [ ]
newton-IsRoot (suc fuel) n x hn hx hf h = elim (Bool-cases (leb x ((x + n / x) / 2))) [
  | inl e ↦ (x, rw (e, newton) refl, (stop_below n x (leb→le _ _ e), h))
  | inr e ↦
      let (s, returns, root) =
        newton-IsRoot fuel n ((x + n / x) / 2) hn (pos_of_root _ n hn (step_above n x hx))
          (omega (arith, leb→lt _ _ e)) (step_above n x hx) in
      (s, rw (e, newton) returns, root)
]

first_estimate-above : (n : ℕ) → n < u64_mod → n < first_estimate n * first_estimate n
unfolding first_estimate
first_estimate-above n h =
    let half = (bit_length 64 n + 1) / 2 in
    rw (← pow_add half half) (
      lt_of_lt_of_le (lt-pow-bit_length 64 n h)
        (pow_mono (bit_length 64 n) (half + half) (omega arith)))

first_estimate_pos : (n : ℕ) → 0 < first_estimate n
unfolding first_estimate
first_estimate_pos n = pow_pos ((bit_length 64 n + 1) / 2)

-- For every `u64`, the loop ends by its test within the fuel, and the result is the integer square root.
pub isqrt_u64-IsRoot : (n : ℕ) → n < u64_mod → (s : ℕ) × (isqrt_u64 n ≡ some s) × IsRoot s n
unfolding isqrt_u64
isqrt_u64-IsRoot n h = elim (Bool-cases (ltb n 2)) [
  | inl small ↦ (n, rw small refl, small-IsRoot n (ltb→lt _ _ small))
  | inr large ↦
      let (s, returns, root) =
        newton-IsRoot (first_estimate n + 1) n (first_estimate n) (omega (arith, ltb→le _ _ large))
          (first_estimate_pos n) (omega arith) (omega (arith, first_estimate-above n h)) in
      (s, rw large returns, root)
]
