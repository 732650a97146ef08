-- ===== src/Types/Bitlist/Codec.antt =====
-- `as_bytes` and `from_bytes`: the SSZ encoding with its delimiter bit.
use lean_rust.Prelude.{
  ℕ, suc, ◌+◌, ◌*◌, ◌/◌, ◌%◌, ◌≤◌, ◌<◌, ◌≡◌, refl, sym, ◌∙◌, ap, true, false, inl, inr, List, [],
  ◌∷◌, ◌++◌, length, get_or, set, take, leb, ◌==◌, if◌then◌else◌, ok, arith, All-get_or, Bool-cases,
  length-append, length-set, get_or-set_self, get_or-append_default, take_all, le→ltb, leb→le,
  leb→lt,
}
use lean_rust.Types.Bytes.{test_bit, write_bit, delimit}
use lean_rust.Types.Bitlist.{Bitlist, div_ceil8, bit_at, as_bytes, from_bytes, from_last}
use lean_rust.Types.Bitlist.Laws.{IsByte, IsValid}

set-set : (xs : List ℕ) (i u v : ℕ) → set (set xs i u) i v ≡ set xs i v
set-set [] i u v = refl
set-set (x ∷ xs) ℕ.zero u v = refl
set-set (x ∷ xs) (suc i) u v = ap (λ r. x ∷ r) (set-set xs i u v)

set_same : (xs : List ℕ) (i v : ℕ) → get_or xs i 0 ≡ v → set xs i v ≡ xs
set_same [] i v h = refl
set_same (x ∷ xs) ℕ.zero v h = ap (λ r. r ∷ xs) (sym h)
set_same (x ∷ xs) (suc i) v h = ap (λ r. x ∷ r) (set_same xs i v h)

take-append : (xs ys : List ℕ) → take (length xs) (xs ++ ys) ≡ xs
take-append [] ys = refl
take-append (x ∷ xs) ys = ap (λ r. x ∷ r) (take-append xs ys)

from_bytes-nonempty :
    (limit : ℕ) (data' : List ℕ) (last : ℕ)
    → length data' ≡ last + 1
    → from_bytes limit data' ≡ from_last limit data' last (get_or data' last 0)
unfolding from_bytes
from_bytes-nonempty limit [] last h = absurd (omega arith)
from_bytes-nonempty limit (d ∷ ds) last h = let e : length ds ≡ last = omega arith in rw e

-- `from_bytes` on cells whose last one has the delimiter bit `k` on top of its clear bits.
from_delimited :
    (limit : ℕ) (cells : List ℕ) (last k : ℕ)
    → length cells ≡ last + 1
    → k < 8
    → get_or cells last 0 < 256
    → ((j : ℕ) → k ≤ j → j < 8 → test_bit (get_or cells last 0) j ≡ false)
    → last * 8 + k ≤ limit
    → from_bytes limit (set cells last (write_bit (get_or cells last 0) k true))
      ≡ ok (record { bytes = take (div_ceil8 (last * 8 + k)) cells; length = last * 8 + k })
unfolding from_last
from_delimited limit cells last k size hk hb clear fits =
    let cell = get_or cells last 0 in
    let top = write_bit cell k true in
    let (positive, high, restored, _) = delimit cell k hb hk clear in
    from_bytes-nonempty limit (set cells last top) last (length-set cells last top ∙ size)
    ∙ rw (get_or-set_self cells last top 0 (omega arith), high)
        (rw (ne_zero top positive, le→ltb limit (last * 8 + k) fits)
          (rw (restored, set-set cells last top cell, set_same cells last cell refl)))
  where
    ne_zero : (x : ℕ) → 0 < x → (x == 0) ≡ false
    ne_zero x h = ground arith

module _ (limit : ℕ) (b : Bitlist) (valid : IsValid limit b) where
  -- The bytes that `as_bytes` sets the delimiter bit in.
  abbrev cells : List ℕ
  cells = if leb (length b.bytes) (b.length / 8) then b.bytes ++ 0 ∷ [] else b.bytes

  cells_lem :
      (length cells ≡ b.length / 8 + 1)
      × (get_or cells (b.length / 8) 0 ≡ get_or b.bytes (b.length / 8) 0)
      × (take (div_ceil8 b.length) cells ≡ b.bytes)
  cells_lem = elim (Bool-cases (leb (length b.bytes) (b.length / 8))) [
    | inl e ↦ rw e (
      omega (arith, valid.sized, length-append {0} b.bytes (0 ∷ []), leb→le _ _ e),
      get_or-append_default b.bytes 1 (b.length / 8) 0,
      rw (sym valid.sized) (take-append b.bytes (0 ∷ [])),
    )
    | inr e ↦ rw e (
      omega (arith, valid.sized, leb→lt _ _ e),
      refl,
      take_all _ b.bytes (omega (arith, valid.sized)),
    )
  ]

  last_clear :
      (j : ℕ) → b.length % 8 ≤ j → j < 8 → test_bit (get_or b.bytes (b.length / 8) 0) j ≡ false
  unfolding bit_at
  last_clear j h hj =
      let i = b.length / 8 * 8 + j in
      let cell : i / 8 ≡ b.length / 8 = omega arith in
      let place : i % 8 ≡ j = omega arith in rw (cell, place) at (valid.clear i (omega arith))

  -- Decoding the encoding of a well-formed list gives the list.
  pub from_bytes-as_bytes : from_bytes limit (as_bytes b) ≡ ok b
  unfolding as_bytes
  from_bytes-as_bytes =
      let (size, same, whole) = cells_lem in
      let split : b.length / 8 * 8 + b.length % 8 ≡ b.length = omega arith in
      from_delimited limit cells (b.length / 8) (b.length % 8) size (omega arith)
        (rw same (All-get_or IsByte b.bytes (b.length / 8) 0 (omega arith) valid.bytes))
        (rw same last_clear) (omega (arith, valid.bounded))
      ∙ rw split (rw whole)
