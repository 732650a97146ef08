-- ===== src/Types/Bitlist/Laws.antt =====
-- The representation invariant of bit lists, and what each operation does to the bits.
use lean_rust.Prelude.{
  ℕ, ◌+◌, ◌-◌, ◌/◌, ◌%◌, ◌≤◌, ◌<◌, ◌≡◌, refl, sym, ◌∙◌, ◌≢◌, inl, inr, Bool, false, none, some,
  List, [], length, get_or, take, replicate, leb, ltb, ◌==◌, if◌then◌else◌, ok, arith, All,
  All-append, All-take, All-replicate, All-set, All-get_or, Bool-cases, ==→≡, ==→≢, length-append,
  length-take, length-replicate, length-set, get_or-set_self, get_or-set_ne, get_or-append_default,
  take_all, leb→le, le→ltb, lt→leb, le→leb, max,
}
use lean_rust.Types.Bytes.{write_bit, test_bit-write_bit, write_bit-lt, test_bit-zero}
use lean_rust.Types.Bitlist.{
  Bitlist, div_ceil8, resize, new, with_length, bit_at, get, grow, write, set_bit,
}

abbrev pub IsByte : ℕ → Type 0
IsByte x = x < 256

-- The byte vector has just the bytes that the length needs, and no bit past the length is set.
pub record IsValid (limit : ℕ) (b : Bitlist) : Type 0 where
  pub sized : length b.bytes ≡ div_ceil8 b.length
  pub bytes : All IsByte b.bytes
  pub bounded : b.length ≤ limit
  pub clear : (j : ℕ) → b.length ≤ j → bit_at b.bytes j ≡ false

bit_at_zeros : (n j : ℕ) → bit_at (replicate n 0) j ≡ false
unfolding bit_at
bit_at_zeros n j =
    rw (get_or-append_default {A = ℕ} [] n (j / 8) 0) (test_bit-zero (j % 8) (omega arith))

pub new-IsValid : (limit : ℕ) → IsValid limit new
unfolding new
new-IsValid limit = record {
  sized = refl;
  bytes = tt;
  bounded = omega arith;
  clear = λ j h. bit_at_zeros 0 j;
}

abbrev pub zeros : ℕ → Bitlist
zeros n = record { bytes = replicate (div_ceil8 n) 0; length = n }

pub with_length-eq : (limit n : ℕ) → n ≤ limit → with_length limit n ≡ ok (zeros n)
unfolding with_length
with_length-eq limit n h = rw (le→ltb limit n h)

pub zeros-IsValid : (limit n : ℕ) → n ≤ limit → IsValid limit (zeros n)
zeros-IsValid limit n h = record {
  sized = length-replicate (div_ceil8 n) 0;
  bytes = All-replicate IsByte (div_ceil8 n) 0 (omega arith);
  bounded = h;
  clear = λ j _. bit_at_zeros (div_ceil8 n) j;
}

same_cell : (i j : ℕ) → i / 8 ≡ j / 8 → (i % 8 == j % 8) ≡ (i == j)
same_cell i j h = ground arith

other_cell : (i j : ℕ) → i / 8 ≢ j / 8 → (i == j) ≡ false
other_cell i j h = ground arith

bit_at-write :
    (bytes : List ℕ) (i j : ℕ) (v : Bool)
    → All IsByte bytes
    → i / 8 < length bytes
    → bit_at (write bytes i v) j ≡ (if i == j then v else bit_at bytes j)
unfolding write bit_at
bit_at-write bytes i j v valid inside =
    let old = get_or bytes (i / 8) 0 in
    let new_byte = write_bit old (i % 8) v in
    elim (Bool-cases (i / 8 == j / 8)) [
      | inl e ↦
          rw (sym (==→≡ _ _ e), get_or-set_self bytes (i / 8) new_byte 0 inside)
            (rw (sym (same_cell i j (==→≡ _ _ e))) (
              test_bit-write_bit old (i % 8) (j % 8) v
                (All-get_or IsByte bytes (i / 8) 0 (omega arith) valid) (omega arith)
                (omega arith)))
      | inr e ↦
          rw (
            get_or-set_ne bytes (i / 8) (j / 8) new_byte 0 (==→≢ _ _ e),
            other_cell i j (==→≢ _ _ e),
          )
    ]

bit_at-resize :
    (bytes : List ℕ) (n j : ℕ) → length bytes ≤ n → bit_at (resize bytes n) j ≡ bit_at bytes j
unfolding bit_at
bit_at-resize bytes n j h =
    rw (take_all n bytes h, get_or-append_default bytes (n - length bytes) (j / 8) 0)

length-resize : (bytes : List ℕ) (n : ℕ) → length (resize bytes n) ≡ n
length-resize bytes n = omega (
  arith,
  length-append {0} (take n bytes),
  length-take {0} n bytes,
  length-replicate {A = ℕ} (n - length bytes) 0,
)

module _ (limit : ℕ) (b : Bitlist) (valid : IsValid limit b) (i : ℕ) (room : i < limit) where
  grow-IsValid : IsValid limit (grow b i)
  unfolding grow
  grow-IsValid = elim (Bool-cases (leb b.length i)) [
    | inl e ↦ rw e (record {
      sized = length-resize b.bytes (div_ceil8 (i + 1));
      bytes =
          All-append IsByte _ _ (All-take IsByte (div_ceil8 (i + 1)) b.bytes valid.bytes)
            (All-replicate IsByte (div_ceil8 (i + 1) - length b.bytes) 0 (omega arith));
      bounded = omega arith;
      clear = λ j h.
          bit_at-resize b.bytes (div_ceil8 (i + 1)) j (omega (arith, valid.sized, leb→le _ _ e))
          ∙ valid.clear j (omega (arith, leb→le _ _ e));
    })
    | inr e ↦ rw e valid
  ]

  bit_at-grow : (j : ℕ) → bit_at (grow b i).bytes j ≡ bit_at b.bytes j
  unfolding grow
  bit_at-grow j = elim (Bool-cases (leb b.length i)) [
    | inl e ↦
        rw e
          (bit_at-resize b.bytes (div_ceil8 (i + 1)) j (omega (arith, valid.sized, leb→le _ _ e)))
    | inr e ↦ rw e
  ]

  length-grow : (grow b i).length ≡ max b.length (i + 1)
  unfolding grow
  length-grow = ground arith

  -- What `set_bit` leaves in bounds.
  abbrev pub after : Bool → Bitlist
  after v = record { bytes = write (grow b i).bytes i v; length = (grow b i).length }

  pub set_bit-eq : (v : Bool) → set_bit limit b i v ≡ ok (after v)
  unfolding set_bit
  set_bit-eq v = rw (lt→leb limit i room)

  pub length-set_bit : (v : Bool) → (after v).length ≡ max b.length (i + 1)
  length-set_bit v = length-grow

  bit_at-after :
      (v : Bool) (j : ℕ) → bit_at (after v).bytes j ≡ (if i == j then v else bit_at b.bytes j)
  bit_at-after v j = rw (sym (bit_at-grow j)) (
      bit_at-write (grow b i).bytes i j v grow-IsValid.bytes
        (omega (arith, grow-IsValid.sized, length-grow)))

  pub set_bit-IsValid : (v : Bool) → IsValid limit (after v)
  unfolding write
  set_bit-IsValid v = record {
    sized = length-set (grow b i).bytes (i / 8) _ ∙ grow-IsValid.sized;
    bytes =
        All-set IsByte (grow b i).bytes (i / 8) _
          (write_bit-lt _ (i % 8) v
            (All-get_or IsByte (grow b i).bytes (i / 8) 0 (omega arith) grow-IsValid.bytes)
            (omega arith))
          grow-IsValid.bytes;
    bounded = grow-IsValid.bounded;
    clear = λ j h. ground (arith, bit_at-after v j, length-grow, valid.clear j);
  }

  -- Bit `i` reads back, the others are as they were, and bits between the old length and `i` are
  -- clear.
  pub get-set_bit :
      (v : Bool) (j : ℕ)
      → get (after v) j ≡ (
          if i == j
          then some v
          else if ltb j b.length
          then get b j
          else if ltb j i
          then some false
          else none)
  unfolding get
  get-set_bit v j = ground (arith, bit_at-after v j, length-grow, valid.clear j)

pub get_beyond : (b : Bitlist) (j : ℕ) → b.length ≤ j → get b j ≡ none
unfolding get
get_beyond b j h = rw (le→leb b.length j h)

pub get-zeros : (n k : ℕ) → k < n → get (zeros n) k ≡ some false
unfolding get
get-zeros n k h = rw (lt→leb n k h, bit_at_zeros (div_ceil8 n) k)

-- What `get` reads after `set(i, v)`: bit `i` reads back, the others are as they were, and bits between
-- the old length and `i` are clear.
abbrev pub SetsBit : Bitlist → ℕ → Bool → Bitlist → Type 0
SetsBit b i v b' =
    (j : ℕ)
    → get b' j ≡ (
        if i == j
        then some v
        else if ltb j b.length
        then get b j
        else if ltb j i
        then some false
        else none)

-- On a well-formed list and below the limit, `set` succeeds. The new list is well formed and ends at the
-- old end or behind bit `i`, whichever is later; bit `i` reads back, the others are as they were, and
-- bits between the old length and `i` are clear.
pub set_bit-SetsBit :
    (limit : ℕ) (b : Bitlist) (i : ℕ) (v : Bool)
    → IsValid limit b
    → i < limit
    → (b' : Bitlist) × (set_bit limit b i v ≡ ok b')
      × IsValid limit b'
      × (b'.length ≡ max b.length (i + 1))
      × SetsBit b i v b'
set_bit-SetsBit limit b i v valid room = (
  after limit b valid i room v,
  set_bit-eq limit b valid i room v,
  set_bit-IsValid limit b valid i room v,
  length-set_bit limit b valid i room v,
  get-set_bit limit b valid i room v,
)
