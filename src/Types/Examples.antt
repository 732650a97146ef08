-- ===== src/Types/Examples.antt =====
-- A list of two bits.
use lean_rust.Prelude.{◌≡◌, max, true, ok, arith}
use lean_rust.Types.Bitlist.{Bitlist, new, set_bit, as_bytes, from_bytes}
use lean_rust.Types.Bitlist.Laws.{
  IsValid, SetsBit, after, new-IsValid, set_bit-IsValid, set_bit-SetsBit,
}
use lean_rust.Types.Bitlist.Codec.{from_bytes-as_bytes}

abbrev two_bits : Bitlist
two_bits = after 16 new (new-IsValid 16) 1 (omega arith) true

two_bits-IsValid : IsValid 16 two_bits
two_bits-IsValid = set_bit-IsValid 16 new (new-IsValid 16) 1 (omega arith) true

set_bit-SetsBit_example :
    (b' : Bitlist) × (set_bit 16 two_bits 9 true ≡ ok b')
    × IsValid 16 b'
    × (b'.length ≡ max two_bits.length 10)
    × SetsBit two_bits 9 true b'
set_bit-SetsBit_example = set_bit-SetsBit 16 two_bits 9 true two_bits-IsValid (omega arith)

from_bytes-as_bytes_example : from_bytes 16 (as_bytes two_bits) ≡ ok two_bits
from_bytes-as_bytes_example = from_bytes-as_bytes 16 two_bits two_bits-IsValid
