-- ===== src/Runtime/Crypto.antt =====
-- crates/crypto/src/error.rs. `out_of_fuel` is no error of the code: it marks a loop of the model that
-- used up its fuel. What a variant quotes of the signature library is left out.
use lean_rust.Prelude.{ℕ}

pub data CryptoError : Type 0 where
  epoch_reused : (epoch last_signed : ℕ) → CryptoError
  epoch_not_prepared epoch_not_active : (epoch start end : ℕ) → CryptoError
  invalid_signature : CryptoError
  signing : CryptoError
  out_of_fuel : CryptoError
  payload_length : (got expected : ℕ) → CryptoError
  payload_too_long : (got capacity : ℕ) → CryptoError
  scheme_misconfigured : (payload_len capacity : ℕ) → CryptoError
  non_zero_padding : CryptoError
  malformed_layout : (got expected : ℕ) → CryptoError
  activation_out_of_range : (activation_epoch num_active_epochs lifetime : ℕ) → CryptoError
  public_key_length : (got expected : ℕ) → CryptoError
  signature_decode public_key_decode : CryptoError
