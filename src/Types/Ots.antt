-- ===== src/Types/Ots.antt =====
-- crates/types: ots_record_codec.rs, ots_watermark.rs and ots_key_state.rs, the records of one-time
-- signature keys. The 32-byte head is a number, as a `Bytes32`.
pub mod RoundTrip
use package.lean_rust.Prelude.{
  ℕ, ◌+◌, Bool, ◌&&◌, not, Option, none, some, List, ◌++◌, length, take, drop, ◌==◌, if◌then◌else◌,
  Result, ok, err, ok_or, ◌>>=◌,
}
use package.lean_rust.Types.Endian.{Bytes32, to_le_bytes, from_le_bytes, to_be_bytes, from_be_bytes}

abbrev pub ots_record_ssz_len : ℕ
ots_record_ssz_len = 32 + 8 + 8 + 8

unfoldable pub encode : Bytes32 → ℕ → ℕ → ℕ → List ℕ
encode head a b c = to_be_bytes 32 head ++ (to_le_bytes 8 a ++ (to_le_bytes 8 b ++ to_le_bytes 8 c))

-- `decode_u64_le(&bytes[offset..offset + 8])`
abbrev pub field_at : List ℕ → ℕ → ℕ
field_at bytes offset = from_le_bytes (take 8 (drop offset bytes))

unfoldable pub decode : List ℕ → Option (Bytes32 × ℕ × ℕ × ℕ)
decode bytes =
    if not (length bytes == ots_record_ssz_len)
    then none
    else some
        (from_be_bytes (take 32 bytes), field_at bytes 32, field_at bytes 40, field_at bytes 48)

pub record OtsWatermark : Type 0 where
  pub key_commitment : Bytes32
  pub activation_epoch : ℕ
  pub num_active_epochs : ℕ
  pub next_index : ℕ

pub record OtsKeyState : Type 0 where
  pub seed : Bytes32
  pub activation_epoch : ℕ
  pub num_active_epochs : ℕ
  pub next_index : ℕ

-- `OtsWatermarkDecodeError` and `OtsKeyStateDecodeError`, which have the same variant.
pub data OtsDecodeError : Type 0 where
  bad_length : (expected actual : ℕ) → OtsDecodeError

unfoldable pub identifies : OtsWatermark → Bytes32 → ℕ → ℕ → Bool
identifies self key_commitment activation_epoch num_active_epochs =
    self.key_commitment == key_commitment
    && self.activation_epoch == activation_epoch
    && self.num_active_epochs == num_active_epochs

unfoldable pub watermark_to_ssz_bytes : OtsWatermark → List ℕ
watermark_to_ssz_bytes self =
    encode self.key_commitment self.activation_epoch self.num_active_epochs self.next_index

unfoldable pub watermark_from_ssz_bytes : List ℕ → Result OtsDecodeError OtsWatermark
watermark_from_ssz_bytes bytes =
    ok_or (decode bytes) (bad_length ots_record_ssz_len (length bytes)) >>= λ (h, a, b, c).
    ok (record { key_commitment = h; activation_epoch = a; num_active_epochs = b; next_index = c })

unfoldable pub key_state_to_ssz_bytes : OtsKeyState → List ℕ
key_state_to_ssz_bytes self =
    encode self.seed self.activation_epoch self.num_active_epochs self.next_index

unfoldable pub key_state_from_ssz_bytes : List ℕ → Result OtsDecodeError OtsKeyState
key_state_from_ssz_bytes bytes =
    ok_or (decode bytes) (bad_length ots_record_ssz_len (length bytes)) >>= λ (h, a, b, c).
    ok (record { seed = h; activation_epoch = a; num_active_epochs = b; next_index = c })
