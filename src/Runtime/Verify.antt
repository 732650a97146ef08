-- ===== src/Runtime/Verify.antt =====
-- crates/runtime/src/chain/engine/verify.rs and crates/runtime/src/signing_domain.rs: the gate that
-- pairs each vote of a block with its signature. The verifier is a parameter.
pub mod Positional
use package.lean_rust.Prelude.{
  ℕ, ◌+◌, ◌^◌, Option, none, some, List, [], ◌∷◌, ◌++◌, length, get_elem?, ltb, ◌==◌, not, Result,
  ok, err, ◌>>=◌, ◌>>◌, fail_if, ok_or, if◌then◌else◌,
}
use package.lean_rust.Types.Endian.{Bytes32}
use package.lean_rust.Ssz.Merkleize.{Sha256}
use package.lean_rust.Protocol.Limits.{max_attestations}
use package.lean_rust.Protocol.Slot.{Slot}
use package.lean_rust.Protocol.Validator.{Validator}
use package.lean_rust.Protocol.Vote.{Attestation, Signature, attestation_root}
use package.lean_rust.Runtime.Crypto.{CryptoError}

pub data EpochOverflow : Type 0 where
  epoch_overflow : (slot : Slot) → EpochOverflow

pub data VerifyError : Type 0 where
  length_mismatch : (expected got : ℕ) → VerifyError
  validator_out_of_range : (validator_id len : ℕ) → VerifyError
  overflow : EpochOverflow → VerifyError
  crypto : CryptoError → VerifyError
  over_cap : (len cap : ℕ) → VerifyError

-- `trait Verifier`: the public key, the epoch, the message and the signature.
abbrev pub Verifier : Type 0
Verifier = List ℕ → ℕ → Bytes32 → Signature → Result CryptoError (Unit {0})

-- `for len in [..]`
unfoldable pub check_caps : List ℕ → Result VerifyError (Unit {0})
check_caps [] = ok tt
check_caps (len ∷ lens) =
    fail_if (ltb max_attestations len) (over_cap len max_attestations) >> check_caps lens

unfoldable pub pre_check_over_cap :
    List Signature → List Attestation → Result VerifyError (Unit {0})
pre_check_over_cap signatures body_attestations =
    check_caps (length signatures ∷ length body_attestations ∷ [])

-- `u32::try_from(slot)`
unfoldable pub attestation_signing_inputs :
    Sha256 → Attestation → Result EpochOverflow (ℕ × Bytes32)
attestation_signing_inputs sha256 att = do
  let slot = att.contents.slot
  epoch ← if ltb slot (2 ^ 32) then ok slot else err (epoch_overflow slot)
  ok (epoch, attestation_root sha256 att)

-- `?` on an `EpochOverflow`, and `map_err(VerifyError::Crypto)`.
abbrev pub from_overflow {ℓ} : {A : Type ℓ} → Result EpochOverflow A → Result VerifyError A
from_overflow (ok a) = ok a
from_overflow (err e) = err (overflow e)

abbrev pub from_crypto {ℓ} : {A : Type ℓ} → Result CryptoError A → Result VerifyError A
from_crypto (ok a) = ok a
from_crypto (err e) = err (crypto e)

module _ (sha256 : Sha256) (validators : List Validator) (verifier : Verifier) where
  unfoldable pub verify_one : Attestation → Signature → Result VerifyError (Unit {0})
  verify_one att sig = do
    validator ←
        ok_or (get_elem? validators att.validator_id)
          (validator_out_of_range att.validator_id (length validators))
    inputs ← from_overflow (attestation_signing_inputs sha256 att)
    from_crypto (verifier validator.pubkey inputs.0 inputs.1 sig)

  -- `.zip(signatures).try_for_each(..)`
  unfoldable pub verify_each : List Attestation → List Signature → Result VerifyError (Unit {0})
  verify_each [] sigs = ok tt
  verify_each (att ∷ atts) [] = ok tt
  verify_each (att ∷ atts) (sig ∷ sigs) = verify_one att sig >> verify_each atts sigs

  unfoldable pub verify_positional :
      List Attestation → Attestation → List Signature → Result VerifyError (Unit {0})
  verify_positional body_attestations proposer_attestation signatures = do
    let expected = length body_attestations + 1
    fail_if (not (length signatures == expected)) (length_mismatch expected (length signatures))
    verify_each (body_attestations ++ proposer_attestation ∷ []) signatures
