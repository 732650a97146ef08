-- ===== src/Protocol/Slot/Justifiable.antt =====
-- `is_justifiable_after` decides the 3SF-mini rule.
use lean_rust.Prelude.{
  ℕ, ◌+◌, ◌-◌, ◌*◌, ◌%◌, ◌^◌, ◌≤◌, ◌<◌, ◌≡◌, ◌∙◌, ap, ◌⊎◌, inl, inr, ◌↔◌, Bool, true, ◌||◌, leb,
  ltb, ◌==◌, if◌then◌else◌, Bool-cases, leb→le, ltb→le, ltb→lt, ==→≡, arith, u64_mod,
}
use native.Mathlib.Nat.{mul-le-mul, mod-eq_of_lt}
use lean_rust.Protocol.Slot.{Slot, is_justifiable_after}
use lean_rust.Protocol.Slot.Isqrt.{IsRoot, square_lt, isqrt_u64-IsRoot}

-- A distance from the finalized slot that makes a slot a candidate: at most 5, a square, or a
-- product of two consecutive numbers.
pub IsCandidate : ℕ → Type 0
IsCandidate delta = (delta ≤ 5) ⊎ ((k : ℕ) × (delta ≡ k * k)) ⊎ ((k : ℕ) × (delta ≡ k * (k + 1)))

root_unique : (s k n : ℕ) → IsRoot s n → k * k ≤ n → n < (k + 1) * (k + 1) → k ≡ s
root_unique s k n r lo hi =
    omega
      (arith, square_lt k (s + 1) (omega (arith, r.1)), square_lt s (k + 1) (omega (arith, r.0)))

-- The products that the code forms do not wrap around.
square_fits : (s n : ℕ) → s * s ≤ n → n < u64_mod → (s * s < u64_mod) × (s * (s + 1) < u64_mod)
square_fits s n h hn =
    let below : s < 2 ^ 32 = square_lt s (2 ^ 32) (omega arith) in
    let product : s * (s + 1) ≤ (2 ^ 32 - 1) * 2 ^ 32 =
      mul-le-mul {n₂ = 2 ^ 32 - 1} {m₂ = 2 ^ 32} (omega arith) (omega arith) in
    (omega arith, omega arith)

module _ (delta root : ℕ) (small : delta < u64_mod) (is_root : IsRoot root delta) where
  abbrev tests : Bool
  tests =
      if leb delta 5
      then true
      else (delta == root * root % u64_mod || delta == root * (root + 1) % u64_mod)

  tests_plain :
      (root * root % u64_mod ≡ root * root) × (root * (root + 1) % u64_mod ≡ root * (root + 1))
  tests_plain =
      let (square, pronic) = square_fits root delta is_root.0 small in
      (mod-eq_of_lt square, mod-eq_of_lt pronic)

  square_root : (k : ℕ) → delta ≡ k * k → k ≡ root
  square_root k e = root_unique root k delta is_root (omega arith) (omega arith)

  pronic_root : (k : ℕ) → delta ≡ k * (k + 1) → k ≡ root
  pronic_root k e = root_unique root k delta is_root (omega arith) (omega arith)

  plain_tests : Bool
  plain_tests = if leb delta 5 then true else (delta == root * root || delta == root * (root + 1))

  tests-eq-plain : tests ≡ plain_tests
  unfolding plain_tests
  tests-eq-plain = rw (tests_plain.0, tests_plain.1)

  plain_iff : (plain_tests ≡ true) ↔ IsCandidate delta
  unfolding plain_tests IsCandidate
  plain_iff = (
    λ h. elim (Bool-cases (leb delta 5)) [
      | inl e ↦ inl (leb→le _ _ e)
      | inr e ↦ elim (Bool-cases (delta == root * root)) [
        | inl e' ↦ inr (inl (root, ==→≡ _ _ e'))
        | inr e' ↦ inr (inr (root, ==→≡ _ _ (rw (e, e') at h)))
      ]
    ],
    λ c. elim c [
      | inl few ↦ ground arith
      | inr (inl (k, e)) ↦
          let same : delta ≡ root * root = e ∙ ap (λ (t : ℕ). t * t) (square_root k e) in
          ground arith
      | inr (inr (k, e)) ↦
          let same : delta ≡ root * (root + 1) =
            e ∙ ap (λ (t : ℕ). t * (t + 1)) (pronic_root k e) in
          ground arith
    ],
  )

-- A slot can be justified after the finalized slot exactly when it is not before it and its distance
-- is at most 5, a square, or a product of two consecutive numbers.
pub is_justifiable_after_iff :
    (self finalized : Slot)
    → self < u64_mod
    → (is_justifiable_after self finalized ≡ true)
      ↔ ((finalized ≤ self) × IsCandidate (self - finalized))
unfolding is_justifiable_after
is_justifiable_after_iff self finalized bound =
    let delta = self - finalized in
    let small : delta < u64_mod = omega arith in
    elim (Bool-cases (ltb self finalized)) [
      | inl e ↦ rw e (λ h. cc, λ c. absurd (omega (arith, ltb→lt _ _ e)))
      | inr e ↦
          let (s, returns, is_root) = isqrt_u64-IsRoot delta small in
          let plain = plain_iff delta s small is_root in
          rw (e, returns, tests-eq-plain delta s small is_root)
            (λ h. (ltb→le _ _ e, plain.0 h), λ c. plain.1 c.1)
    ]

-- The finalized slot itself can be justified, whatever its width.
pub is_justifiable_after_refl : (s : Slot) → is_justifiable_after s s ≡ true
unfolding is_justifiable_after
is_justifiable_after_refl s =
    let none_between : s - s ≡ 0 = omega arith in rw none_between (ground arith)

pub le_of_justifiable :
    (s finalized : Slot) → is_justifiable_after s finalized ≡ true → finalized ≤ s
unfolding is_justifiable_after
le_of_justifiable s finalized h = ground arith
