-- ===== src/Runtime/Keys.antt =====
-- crates/crypto/src/key_state.rs, record.rs and sign.rs: a one-time signing key with its prepared window
-- and its last signed epoch. The signature library, with the wire form of its signatures, is a
-- parameter.
pub mod Window
pub mod Once
use package.lean_rust.Prelude.{
  ℕ, zero, suc, ◌+◌, ◌-◌, ◌^◌, Bool, true, false, ◌&&◌, ◌||◌, not, Option, none, some, List, [],
  ◌∷◌, ◌++◌, ltb, leb, ◌==◌, if◌then◌else◌, Result, ok, err, ◌>>=◌, ◌>>◌, fail_if, Outcome,
  and_then, check,
}
use package.lean_rust.Types.Endian.{Bytes32, to_be_bytes}
use package.lean_rust.Types.Ots.{OtsWatermark, OtsKeyState}
use package.lean_rust.Ssz.Merkleize.{Sha256}
use package.lean_rust.Protocol.Vote.{Signature}
use package.lean_rust.Runtime.Crypto.{
  CryptoError, epoch_reused, epoch_not_prepared, epoch_not_active, signing, out_of_fuel,
}

-- `start..end`
pub record Range : Type 0 where
  pub start : ℕ
  pub end : ℕ

unfoldable pub contains : Range → ℕ → Bool
contains r x = leb r.start x && ltb x r.end

abbrev pub same_range : Range → Range → Bool
same_range a b = a.start == b.start && a.end == b.end

-- The library: secret keys `K`, raw signatures `R`. `to_wire` is `signature_to_wire` and `generate` is
-- `generate_from_seed`, both of scheme.rs.
pub record Scheme (K R : Type 0) : Type 0 where
  pub activation : K → Range
  pub prepared : K → Range
  pub advance : K → K
  pub sign : K → ℕ → Bytes32 → Option R
  pub to_wire : R → Result CryptoError Signature
  pub generate : Bytes32 → ℕ → ℕ → Result CryptoError K

pub record SigningKey (K : Type 0) : Type 0 where
  pub secret : K
  pub last_signed : Option ℕ
  pub seed : Bytes32

-- `seed_commitment`: the digest of a tag and the seed.
abbrev pub commitment_tag : List ℕ
commitment_tag =
    b'l' ∷ b'e' ∷ b'a' ∷ b'n' ∷ b'-' ∷ b'o' ∷ b't' ∷ b's' ∷ b'-' ∷ b'k' ∷ b'e' ∷ b'y' ∷ b'-' ∷ b'c'
    ∷ b'o' ∷ b'm' ∷ b'm' ∷ b'i' ∷ b't' ∷ b'm' ∷ b'e' ∷ b'n' ∷ b't' ∷ b'-' ∷ b'v' ∷ b'1' ∷ []

unfoldable pub seed_commitment : Sha256 → Bytes32 → Bytes32
seed_commitment sha256 seed = sha256 (commitment_tag ++ to_be_bytes 32 seed)

-- `last_signed().map_or(0, |epoch| u64::from(epoch) + 1)`
unfoldable pub next_index_of : Option ℕ → ℕ
next_index_of none = 0
next_index_of (some epoch) = epoch + 1

-- The guard of `sign_raw`: only an epoch above the last signed one passes.
unfoldable pub check_reuse : Option ℕ → ℕ → Result CryptoError (Unit {0})
check_reuse none epoch = ok tt
check_reuse (some last) epoch = fail_if (leb epoch last) (epoch_reused epoch last)

module _ {K R : Type 0} (scheme : Scheme K R) where
  abbrev pub KeyStep : Type 0 → Type 0
  KeyStep A = Outcome (SigningKey K) CryptoError A

  unfoldable pub activation_interval : SigningKey K → Range
  activation_interval key = scheme.activation key.secret

  unfoldable pub prepared_interval : SigningKey K → Range
  prepared_interval key = scheme.prepared key.secret

  unfoldable pub advance : SigningKey K → SigningKey K
  advance key = record key { secret = scheme.advance key.secret }

  abbrev pub not_prepared : ℕ → Range → CryptoError
  not_prepared epoch r = epoch_not_prepared epoch r.start r.end

  -- `while !self.prepared_interval().contains(&target)`
  unfoldable pub prepare_loop : ℕ → SigningKey K → ℕ → KeyStep (Unit {0})
  prepare_loop zero key epoch =
      if contains (prepared_interval key) epoch then (key, ok tt) else (key, err out_of_fuel)
  prepare_loop (suc fuel) key epoch =
      let before = prepared_interval key in
      let key' = advance key in
      let rest = prepare_loop fuel key' epoch in
      if contains before epoch
      then (key, ok tt)
      else (if same_range (prepared_interval key') before
          then (key', err (not_prepared epoch before))
          else rest)

  unfoldable pub prepare : SigningKey K → ℕ → KeyStep (Unit {0})
  prepare key epoch =
      let active = activation_interval key in
      let prepared = prepared_interval key in
      check key
        (fail_if (not (contains active epoch)) (epoch_not_active epoch active.start active.end))
        λ _.
          check key (fail_if (ltb epoch prepared.start) (not_prepared epoch prepared))
            λ _. prepare_loop (suc active.end - prepared.start) key epoch

  unfoldable pub sign_raw : SigningKey K → ℕ → Bytes32 → KeyStep R
  sign_raw key epoch message = check key (check_reuse key.last_signed epoch) λ _.
      let prepared = prepared_interval key in
      check key (fail_if (not (contains prepared epoch)) (not_prepared epoch prepared)) λ _.
        elim (scheme.sign key.secret epoch message) [
          | none ↦ (key, err signing)
          | some signature ↦ (record key { last_signed = some epoch }, ok signature)
        ]

  -- The wire form can fail after the key has signed.
  unfoldable pub sign : SigningKey K → ℕ → Bytes32 → KeyStep Signature
  sign key epoch message =
      and_then (sign_raw key epoch message) λ key' raw. (key', scheme.to_wire raw)

  unfoldable pub to_watermark : Sha256 → SigningKey K → OtsWatermark
  to_watermark sha256 key =
      let active = activation_interval key in
      record {
        key_commitment = seed_commitment sha256 key.seed;
        activation_epoch = active.start;
        num_active_epochs = active.end - active.start;
        next_index = next_index_of key.last_signed;
      }

  unfoldable pub to_record : SigningKey K → OtsKeyState
  to_record key =
      let active = activation_interval key in
      record {
        seed = key.seed;
        activation_epoch = active.start;
        num_active_epochs = active.end - active.start;
        next_index = next_index_of key.last_signed;
      }

  -- `u32::try_from(x).unwrap_or(u32::MAX)`
  abbrev pub clamp_u32 : ℕ → ℕ
  clamp_u32 x = if ltb x (2 ^ 32) then x else 2 ^ 32 - 1

  -- The watermark a record restores: nothing for a key that never signed, otherwise an epoch within the
  -- record's window.
  unfoldable pub restore_last_signed : OtsKeyState → Result CryptoError (Option ℕ)
  restore_last_signed r =
      let activation_end = r.activation_epoch + r.num_active_epochs in
      if r.next_index == 0
      then ok none
      else fail_if (leb r.next_index r.activation_epoch || ltb activation_end r.next_index)
          (epoch_not_active (clamp_u32 r.next_index) r.activation_epoch activation_end)
        >> fail_if (leb (2 ^ 32) (r.next_index - 1))
            (epoch_not_active (2 ^ 32 - 1) r.activation_epoch activation_end)
        >> ok (some (r.next_index - 1))

  unfoldable pub from_record : OtsKeyState → Result CryptoError (SigningKey K)
  from_record r = do
    secret ← scheme.generate r.seed r.activation_epoch r.num_active_epochs
    last_signed ← restore_last_signed r
    ok (record { secret = secret; last_signed = last_signed; seed = r.seed })
