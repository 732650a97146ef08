-- ===== src/Runtime/Signer/Ahead.antt =====
-- crates/runtime/src/duties/signer.rs: what a call does to the keys in memory, and how these stand to the
-- watermarks of the store.
use lean_rust.Prelude.{
  ℕ, max, ◌≤◌, ◌≡◌, refl, sym, ap, ◌⊎◌, inl, inr, Option, none, some, ◌==◌, Bool-cases,
  Option-cases, Result, ok, err, Result-cases, ok_inj, Outcome, and_then, arith, ==_refl, ==→≡,
}
use mathlib.Core.Option.{some-injective}
use lean_rust.Types.Endian.{Bytes32}
use lean_rust.Types.Ots.{OtsWatermark, OtsKeyState, identifies}
use lean_rust.Maps.BTree.{lookup, insert, lookup-insert}
use lean_rust.Ssz.Merkleize.{Sha256}
use lean_rust.Protocol.Vote.{Attestation, Signature}
use lean_rust.Storage.Contract.{put}
use lean_rust.Runtime.Crypto.{CryptoError}
use lean_rust.Runtime.Verify.{attestation_signing_inputs}
use lean_rust.Runtime.Keys.{
  Scheme, SigningKey, next_index_of, to_watermark, prepare, sign, seed_commitment,
}
use lean_rust.Runtime.Keys.Once.{Once, prepare_sign-Once}
use lean_rust.Runtime.Signer.{
  SignError, unknown_validator, sign_overflow, map_err, resolve_record, LocalSigner, put_key,
  sign_attestation, watermark_for,
}

-- The next index that a stored watermark allows.
abbrev pub next_of : Option OtsWatermark → ℕ
next_of none = 0
next_of (some w) = w.next_index

-- The watermarks of a store.
abbrev pub Marks : Type 0
Marks = ℕ → Option OtsWatermark

pub persist_mono :
    (marks : Marks) (v : ℕ) (w : OtsWatermark) (u : ℕ)
    → next_of (marks v) ≤ w.next_index
    → next_of (marks u) ≤ next_of (put marks v w u)
persist_mono marks v w u rises = elim (Bool-cases (v == u)) [
  | inl same ↦ rw (same, sym (==→≡ v u same)) rises
  | inr apart ↦ rw apart (omega arith)
]

pub persist-next :
    (marks : Marks) (v : ℕ) (w : OtsWatermark) (u : ℕ)
    → v ≡ u
    → next_of (put marks v w u) ≡ w.next_index
persist-next marks v w u same = rw (same, ==_refl u) refl

pub signing_inputs-epoch :
    (sha256 : Sha256) (att : Attestation) (inputs : ℕ × Bytes32)
    → attestation_signing_inputs sha256 att ≡ ok inputs
    → inputs.0 ≡ att.contents.slot
unfolding attestation_signing_inputs
signing_inputs-epoch sha256 att inputs h = ground (arith, h)

pub map_err-eq-ok :
    {E E' A : Type 0} (f : E → E') (r : Result E A) (a : A) → map_err f r ≡ ok a → r ≡ ok a
map_err-eq-ok f (ok b) a h = ap ok (ok_inj b a h)
map_err-eq-ok f (err e) a h = cc

pub resolve_record-next_index :
    {E : Type 0} (sha256 : Sha256) (index : ℕ) (file : OtsKeyState) (stored : Option OtsWatermark)
    (restored : OtsKeyState)
    → resolve_record {E = E} sha256 index file stored ≡ ok restored
    → next_of stored ≤ restored.next_index
unfolding resolve_record
resolve_record-next_index sha256 index file none restored h = omega arith
resolve_record-next_index sha256 index file (some w) restored h =
    elim (Bool-cases (
      identifies w (seed_commitment sha256 file.seed) file.activation_epoch
        file.num_active_epochs)) [
          | inl same ↦
              let merged = ok_inj _ _ (rw same at h) in
              let next : max file.next_index w.next_index ≡ restored.next_index =
                ap (λ r. r.next_index) merged in
              omega (arith, next)
          | inr other ↦ cc (rw other at h)
        ]

module _ {K : Type 0} where
  -- Every key in memory stands at the stored watermark or above.
  abbrev pub Ahead : Marks → LocalSigner K → Type 0
  Ahead marks keys =
      (v : ℕ) (key : SigningKey K)
      → lookup v keys ≡ some key
      → next_of (marks v) ≤ next_index_of key.last_signed

  pub insert-Ahead :
      (marks : Marks) (keys : LocalSigner K) (v : ℕ) (key : SigningKey K)
      → next_of (marks v) ≤ next_index_of key.last_signed
      → Ahead marks keys
      → Ahead marks (insert v key keys)
  insert-Ahead marks keys v key new ahead u other h = elim (Bool-cases (v == u)) [
    | inl same ↦
        let found : key ≡ other = some-injective _ _ (rw (lookup-insert v u key keys, same) at h) in
        rw (sym found, sym (==→≡ v u same)) new
    | inr apart ↦ ahead u other (rw (lookup-insert v u key keys, apart) at h)
  ]

  pub persist-Ahead :
      (marks : Marks) (keys : LocalSigner K) (v : ℕ) (key : SigningKey K) (w : OtsWatermark)
      → w.next_index ≡ next_index_of key.last_signed
      → Ahead marks keys
      → Ahead (put marks v w) (insert v key keys)
  persist-Ahead marks keys v key w current ahead u other h = elim (Bool-cases (v == u)) [
    | inl same ↦
        let found : key ≡ other = some-injective _ _ (rw (lookup-insert v u key keys, same) at h) in
        rw (same, current, found) (omega arith)
    | inr apart ↦ rw apart (ahead u other (rw (lookup-insert v u key keys, apart) at h))
  ]

module _ {K R : Type 0} (scheme : Scheme K R) (sha256 : Sha256) where
  -- What a call of the local signer does to the keys: an error and no change, or one key that is put
  -- back after a use that keeps it one-time.
  abbrev pub Uses :
      {E : Type 0}
      → LocalSigner K
      → Attestation
      → Outcome (LocalSigner K) (SignError E) Signature
      → Type 0
  Uses {E} keys att outcome =
      ((e : SignError E) × (outcome ≡ (keys, err e)))
      ⊎ ((key : SigningKey K) × (used : Outcome (SigningKey K) CryptoError Signature) × (lookup
              att.validator_id keys
            ≡ some key)
          × (outcome ≡ put_key att.validator_id keys used)
          × Once scheme key att.contents.slot used)

  pub sign_attestation-Uses :
      {E : Type 0} (keys : LocalSigner K) (att : Attestation)
      → Uses {E = E} keys att (sign_attestation scheme sha256 keys att)
  unfolding sign_attestation
  sign_attestation-Uses keys att = elim (Option-cases (lookup att.validator_id keys)) [
    | inl unknown ↦ inl (unknown_validator att.validator_id, rw unknown refl)
    | inr (key, known) ↦ elim (Result-cases (attestation_signing_inputs sha256 att)) [
      | inr (e, overflow) ↦ inl (sign_overflow e, rw (known, overflow) refl)
      | inl (inputs, derived) ↦ inr (
        key,
        and_then (prepare scheme key inputs.0) (λ key' _. sign scheme key' inputs.0 inputs.1),
        known,
        rw (known, derived) refl,
        rw (sym (signing_inputs-epoch sha256 att inputs derived))
            (prepare_sign-Once scheme key inputs.0 inputs.1),
      )
    ]
  ]

  pub watermark_for-insert :
      (v : ℕ) (key : SigningKey K) (keys : LocalSigner K)
      → watermark_for scheme sha256 (insert v key keys) v ≡ some (to_watermark scheme sha256 key)
  unfolding watermark_for
  watermark_for-insert v key keys = rw (lookup-insert v v key keys, ==_refl v, watermark_for) refl
