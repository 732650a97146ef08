-- ===== src/Runtime/Signer.antt =====
-- crates/runtime/src/duties/signer.rs and ots_signer.rs: the local validators' keys, how they are
-- resumed from the secret files and the store, and the guard that persists a watermark before it lets a
-- signature out. The file system is a function from a validator to its file's bytes.
pub mod Ahead
pub mod Guard
mod Examples
use package.lean_rust.Prelude.{
  ℕ, max, Bool, true, false, Option, none, some, List, [], ◌∷◌, Result, ok, err, ok_or, ◌>>=◌,
  Outcome, if◌then◌else◌, and_then, check,
}
use package.lean_rust.Types.Endian.{Bytes32}
use package.lean_rust.Types.Ots.{
  OtsWatermark, OtsKeyState, OtsDecodeError, identifies, key_state_from_ssz_bytes,
}
use package.lean_rust.Maps.BTree.{BTreeMap, lookup, insert}
use package.lean_rust.Ssz.Merkleize.{Sha256}
use package.lean_rust.Protocol.Slot.{Slot}
use package.lean_rust.Protocol.Vote.{Attestation, Signature}
use package.lean_rust.Storage.{Backend}
use package.lean_rust.Runtime.Crypto.{CryptoError}
use package.lean_rust.Runtime.Verify.{EpochOverflow, attestation_signing_inputs}
use package.lean_rust.Runtime.Keys.{
  Scheme, SigningKey, seed_commitment, to_watermark, prepare, sign, from_record,
}

pub data SignerLoadError (E : Type 0) : Type 0 where
  secret_file_read : (index : ℕ) → SignerLoadError E
  key_state_decode : (index : ℕ) → OtsDecodeError → SignerLoadError E
  key_restore : (index : ℕ) → CryptoError → SignerLoadError E
  key_state_load : (index : ℕ) → E → SignerLoadError E
  key_state_mismatch : (index : ℕ) → SignerLoadError E

pub data SignError (E : Type 0) : Type 0 where
  unknown_validator : (validator_id : ℕ) → SignError E
  sign_overflow : EpochOverflow → SignError E
  sign_crypto : CryptoError → SignError E
  sign_persist : (validator_id : ℕ) → E → SignError E

-- The variants that `?` and `map_err` put an error in.
abbrev pub map_err {ℓ κ μ} :
    {E : Type ℓ} {E' : Type κ} {A : Type μ} → (E → E') → Result E A → Result E' A
map_err f (ok a) = ok a
map_err f (err e) = err (f e)

-- The traits `AttestationSigner` and `PersistableSigner`.
pub record PersistableSigner (P E : Type 0) : Type 0 where
  pub sign_attestation : P → Attestation → Outcome P (SignError E) Signature
  pub watermark_for : P → ℕ → Option OtsWatermark

abbrev pub Secrets : Type 0
Secrets = ℕ → Option (List ℕ)

module _ {E : Type 0} where
  unfoldable pub read_secret_record : Secrets → ℕ → Result (SignerLoadError E) OtsKeyState
  read_secret_record secrets index = ok_or (secrets index) (secret_file_read index) >>= λ bytes.
      map_err (key_state_decode index) (key_state_from_ssz_bytes bytes)

  unfoldable pub resolve_record :
      Sha256 → ℕ → OtsKeyState → Option OtsWatermark → Result (SignerLoadError E) OtsKeyState
  resolve_record sha256 index file none = ok file
  resolve_record sha256 index file (some stored) =
      if identifies stored (seed_commitment sha256 file.seed) file.activation_epoch
        file.num_active_epochs
      then ok (record file { next_index = max file.next_index stored.next_index })
      else err (key_state_mismatch index)

abbrev pub LocalSigner : Type 0 → Type 0
LocalSigner K = BTreeMap (SigningKey K)

abbrev pub Resolve : Type 0 → Type 0
Resolve E = ℕ → OtsKeyState → Result (SignerLoadError E) OtsKeyState

-- The signer after a call on the key of `validator_id`, which the code calls in place.
unfoldable pub put_key :
    {K E : Type 0}
    → ℕ
    → LocalSigner K
    → Outcome (SigningKey K) CryptoError Signature
    → Outcome (LocalSigner K) (SignError E) Signature
put_key validator_id keys (key, result) = (insert validator_id key keys, map_err sign_crypto result)

-- The closure of `load_resuming`.
unfoldable pub resume_record : {S E : Type 0} → Sha256 → Backend S E → S → Resolve E
resume_record sha256 backend store index file_record =
    map_err (key_state_load index) (backend.load_ots_key_state store index) >>= λ stored.
    resolve_record sha256 index file_record stored

module _ {K R : Type 0} (scheme : Scheme K R) where
  -- The loop of `load_with`, on the keys loaded so far.
  unfoldable pub load_keys :
      {E : Type 0}
      → Secrets
      → Resolve E
      → LocalSigner K
      → List ℕ
      → Result (SignerLoadError E) (LocalSigner K)
  load_keys secrets resolve keys [] = ok keys
  load_keys secrets resolve keys (index ∷ indices) = do
    file_record ← read_secret_record secrets index
    restored ← resolve index file_record
    key ← map_err (key_restore index) (from_record scheme restored)
    load_keys secrets resolve (insert index key keys) indices

  unfoldable pub load : {E : Type 0} → Secrets → List ℕ → Result (SignerLoadError E) (LocalSigner K)
  load secrets local_indices = load_keys secrets (λ _ file_record. ok file_record) [] local_indices

  module _ (sha256 : Sha256) where
    unfoldable pub load_resuming :
        {S E : Type 0}
        → Backend S E
        → Secrets
        → List ℕ
        → S
        → Result (SignerLoadError E) (LocalSigner K)
    load_resuming backend secrets local_indices store =
        load_keys secrets (resume_record sha256 backend store) [] local_indices

    unfoldable pub sign_attestation :
        {E : Type 0} → LocalSigner K → Attestation → Outcome (LocalSigner K) (SignError E) Signature
    sign_attestation keys att =
        let validator_id = att.validator_id in
        check keys (ok_or (lookup validator_id keys) (unknown_validator validator_id)) λ key.
          check keys (map_err sign_overflow (attestation_signing_inputs sha256 att)) λ inputs.
            put_key validator_id keys
              (and_then (prepare scheme key inputs.0) λ key' _. sign scheme key' inputs.0 inputs.1)

    unfoldable pub watermark_for : LocalSigner K → ℕ → Option OtsWatermark
    watermark_for keys validator = elim (lookup validator keys) [
      | none ↦ none
      | some key ↦ some (to_watermark scheme sha256 key)
    ]

    abbrev pub local_signer : {E : Type 0} → PersistableSigner (LocalSigner K) E
    local_signer = record { sign_attestation = sign_attestation; watermark_for = watermark_for }

-- `OtsSigner`: its inner signer and its store.
module _ {P S E : Type 0} (inner : PersistableSigner P E) (backend : Backend S E) where
  unfoldable pub ots_sign_attestation :
      P × S → Attestation → Outcome (P × S) (SignError E) Signature
  ots_sign_attestation (signer, store) att =
      let validator = att.validator_id in
      let (signer', signed) = inner.sign_attestation signer att in
      check (signer', store) signed
        λ signature.
          check (signer', store)
            (ok_or (inner.watermark_for signer' validator) (unknown_validator validator))
            λ watermark.
              let (store', saved) = backend.save_ots_key_state store validator watermark in
              check (signer', store') (map_err (sign_persist validator) saved)
                λ _. ((signer', store'), ok signature)
