-- ===== src/Prelude/Words.antt =====
-- Bit lengths and powers of two, for shifts of machine words.
use Prim.Native.Nat.{ℕ, zero, suc, ◌+◌, ◌*◌, ◌/◌, ◌^◌, ◌≤◌, ◌<◌}
use mathlib.Core.Path.{◌≡◌, refl, sym, ◌∙◌}
use mathlib.Core.Bool.{true, false}
use native.Mathlib.Omega.{arith}
use native.Mathlib.Nat.{pow-suc, zero-add, suc-add, mul_assoc, pow-le-pow_right}
use lean_rust.Prelude.Tests.{◌==◌}

-- `BITS - n.leading_zeros()` of a word of `fuel` bits.
unfoldable pub bit_length : ℕ → ℕ → ℕ
bit_length zero n = 0
bit_length (suc fuel) n = elim (n == 0) [ true ↦ 0 | false ↦ suc (bit_length fuel (n / 2)) ]

pub bit_length-pos : (fuel n : ℕ) → 0 < n → bit_length (suc fuel) n ≡ suc (bit_length fuel (n / 2))
unfolding bit_length
bit_length-pos fuel n h = ground arith

bit_length-zero : (fuel : ℕ) → bit_length fuel 0 ≡ 0
unfolding bit_length
bit_length-zero zero = refl
bit_length-zero (suc fuel) = refl

pub pow_double : (n : ℕ) → 2 ^ suc n ≡ 2 * 2 ^ n
pow_double n = pow-suc 2 n ∙ omega arith

pub pow_add : (a b : ℕ) → 2 ^ (a + b) ≡ 2 ^ a * 2 ^ b
pow_add zero b = rw zero-add (omega arith)
pow_add (suc a) b =
    rw (suc-add, pow_double (a + b), pow_add a b, pow_double a) (sym (mul_assoc 2 (2 ^ a) (2 ^ b)))

pub pow_pos : (n : ℕ) → 0 < 2 ^ n
pow_pos zero = omega arith
pow_pos (suc n) = omega (arith, pow_double n, pow_pos n)

pub pow_mono : (a b : ℕ) → a ≤ b → 2 ^ a ≤ 2 ^ b
pow_mono a b h = pow-le-pow_right (omega arith) h

-- A word fits in as many bits as its length says.
pub lt-pow-bit_length : (fuel n : ℕ) → n < 2 ^ fuel → n < 2 ^ bit_length fuel n
unfolding bit_length
lt-pow-bit_length zero n h = h
lt-pow-bit_length (suc fuel) zero h = omega arith
lt-pow-bit_length (suc fuel) (suc n) h = rw (bit_length-pos fuel (suc n) (omega arith)) (
    omega (
      arith,
      pow_double fuel,
      pow_double (bit_length fuel (suc n / 2)),
      lt-pow-bit_length fuel (suc n / 2) (omega (arith, pow_double fuel)),
    ))

pub bit_length-le : (fuel n : ℕ) → bit_length fuel n ≤ fuel
unfolding bit_length
bit_length-le zero n = omega arith
bit_length-le (suc fuel) n = ground (arith, bit_length-le fuel (n / 2))

-- And in no fewer.
pub pow-bit_length-le : (fuel n : ℕ) → 0 < n → 2 ^ bit_length fuel n ≤ 2 * n
unfolding bit_length
pow-bit_length-le zero n h = omega arith
pow-bit_length-le (suc fuel) zero h = absurd (omega arith)
pow-bit_length-le (suc fuel) (suc zero) h = rw (bit_length-zero fuel) (omega arith)
pow-bit_length-le (suc fuel) (suc (suc n)) h =
    rw (bit_length-pos fuel (suc (suc n)) (omega arith)) (
      omega (
        arith,
        pow_double (bit_length fuel (suc (suc n) / 2)),
        pow-bit_length-le fuel (suc (suc n) / 2),
      ))
