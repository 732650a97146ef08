-- ===== src/Types/Bitlist.antt =====
-- crates/types/src/bitfields.rs: `Bitlist<LIMIT>`, packed from the lowest bit of each byte up. The
-- const generic `LIMIT` is an argument of the constructors that read it.
pub mod Laws
pub mod Codec
use package.lean_rust.Prelude.{
  ℕ, suc, ◌+◌, ◌-◌, ◌*◌, ◌/◌, ◌%◌, Bool, true, false, Option, none, some, List, [], ◌∷◌, ◌++◌,
  length, get_or, set, take, replicate, ltb, leb, ◌==◌, if◌then◌else◌, Result, ok, err, Option,
}
use package.lean_rust.Types.Bytes.{mask, test_bit, write_bit, ilog2}

-- The variants of `TypesError` that bit lists return.
pub data TypesError : Type 0 where
  bitlist_limit_exceeded : ℕ → ℕ → TypesError
  invalid_bitlist_encoding : TypesError

pub record Bitlist : Type 0 where
  pub bytes : List ℕ
  pub length : ℕ

-- `n.div_ceil(8)`
abbrev pub div_ceil8 : ℕ → ℕ
div_ceil8 n = (n + 7) / 8

-- `Vec::resize(n, 0)`
abbrev pub resize : List ℕ → ℕ → List ℕ
resize xs n = take n xs ++ replicate (n - length xs) 0

unfoldable pub new : Bitlist
new = record { bytes = []; length = 0 }

unfoldable pub with_length : ℕ → ℕ → Result TypesError Bitlist
with_length limit n =
    if ltb limit n
    then err (bitlist_limit_exceeded limit n)
    else ok (record { bytes = replicate (div_ceil8 n) 0; length = n })

-- The bit at a position of the byte vector. Reads past its end, which would panic, give a zero
-- byte; `IsValid` keeps every read inside.
unfoldable pub bit_at : List ℕ → ℕ → Bool
bit_at bytes i = test_bit (get_or bytes (i / 8) 0) (i % 8)

unfoldable pub get : Bitlist → ℕ → Option Bool
get b i = if leb b.length i then none else some (bit_at b.bytes i)

-- The list grown to hold bit `i`, and otherwise as it is.
unfoldable pub grow : Bitlist → ℕ → Bitlist
grow b i =
    if leb b.length i
    then record { bytes = resize b.bytes (div_ceil8 (i + 1)); length = i + 1 }
    else b

unfoldable pub write : List ℕ → ℕ → Bool → List ℕ
write bytes i value = set bytes (i / 8) (write_bit (get_or bytes (i / 8) 0) (i % 8) value)

-- `set` leaves `self` as it was where it returns an error.
unfoldable pub set_bit : ℕ → Bitlist → ℕ → Bool → Result TypesError Bitlist
set_bit limit b i value =
    if leb limit i
    then err (bitlist_limit_exceeded limit i)
    else (let g = grow b i in ok (record { bytes = write g.bytes i value; length = g.length }))

unfoldable pub as_bytes : Bitlist → List ℕ
as_bytes b =
    let delimiter_byte = b.length / 8 in
    let out = if leb (length b.bytes) delimiter_byte then b.bytes ++ 0 ∷ [] else b.bytes in
    set out delimiter_byte (write_bit (get_or out delimiter_byte 0) (b.length % 8) true)

-- `from_bytes` once `split_last` has given a last byte.
unfoldable pub from_last : ℕ → List ℕ → ℕ → ℕ → Result TypesError Bitlist
from_last limit bytes last_index last =
    let n = last_index * 8 + ilog2 last in
    if last == 0
    then err invalid_bitlist_encoding
    else (if ltb limit n
        then err (bitlist_limit_exceeded limit n)
        else ok (record {
          bytes = take (div_ceil8 n) (set bytes last_index (write_bit last (ilog2 last) false));
          length = n;
        }))

unfoldable pub from_bytes : ℕ → List ℕ → Result TypesError Bitlist
from_bytes limit [] = err invalid_bitlist_encoding
from_bytes limit (d ∷ ds) =
    let last_index = length ds in from_last limit (d ∷ ds) last_index (get_or (d ∷ ds) last_index 0)
