-- ===== src/Types/Ots/RoundTrip.antt =====
-- crates/types/src/ots_record_codec.rs: the encodings of the one-time-key records, read back.
use lean_rust.Prelude.{ℕ, ◌^◌, ◌<◌, ◌≡◌, refl, some, ok, u64_mod}
use lean_rust.Types.Endian.{
  Bytes32, to_le_bytes, from_le_bytes, to_be_bytes, from_be_bytes, from_le_bytes-to_le_bytes,
  from_be_bytes-to_be_bytes,
}
use lean_rust.Types.Ots.{
  encode, decode, OtsWatermark, OtsKeyState, watermark_to_ssz_bytes, watermark_from_ssz_bytes,
  key_state_to_ssz_bytes, key_state_from_ssz_bytes,
}

-- Cutting the 56 bytes apart gives the four parts.
decode-encode_parts :
    (head : Bytes32) (a b c : ℕ)
    → decode (encode head a b c)
      ≡ some (
        from_be_bytes (to_be_bytes 32 head),
        from_le_bytes (to_le_bytes 8 a),
        from_le_bytes (to_le_bytes 8 b),
        from_le_bytes (to_le_bytes 8 c),
      )
unfolding decode encode to_be_bytes to_le_bytes
decode-encode_parts head a b c = refl

decode-encode :
    (head : Bytes32) (a b c : ℕ)
    → head < 256 ^ 32
    → a < u64_mod
    → b < u64_mod
    → c < u64_mod
    → decode (encode head a b c) ≡ some (head, a, b, c)
decode-encode head a b c h ha hb hc =
    rw
      (
        decode-encode_parts head a b c,
        from_be_bytes-to_be_bytes 32 head h,
        from_le_bytes-to_le_bytes 8 a ha,
        from_le_bytes-to_le_bytes 8 b hb,
        from_le_bytes-to_le_bytes 8 c hc,
      )
      refl

-- The fields have the widths of the record.
pub record Fits (head : Bytes32) (a b c : ℕ) : Type 0 where
  pub head_fits : head < 256 ^ 32
  pub a_fits : a < u64_mod
  pub b_fits : b < u64_mod
  pub c_fits : c < u64_mod

-- A watermark whose fields have their widths comes back from its encoding.
pub watermark_from_ssz_bytes-to :
    (w : OtsWatermark)
    → Fits w.key_commitment w.activation_epoch w.num_active_epochs w.next_index
    → watermark_from_ssz_bytes (watermark_to_ssz_bytes w) ≡ ok w
unfolding watermark_from_ssz_bytes watermark_to_ssz_bytes
watermark_from_ssz_bytes-to w f =
    rw (decode-encode _ _ _ _ f.head_fits f.a_fits f.b_fits f.c_fits) refl

pub key_state_from_ssz_bytes-to :
    (k : OtsKeyState)
    → Fits k.seed k.activation_epoch k.num_active_epochs k.next_index
    → key_state_from_ssz_bytes (key_state_to_ssz_bytes k) ≡ ok k
unfolding key_state_from_ssz_bytes key_state_to_ssz_bytes
key_state_from_ssz_bytes-to k f =
    rw (decode-encode _ _ _ _ f.head_fits f.a_fits f.b_fits f.c_fits) refl
