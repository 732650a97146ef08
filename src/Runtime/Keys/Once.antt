-- ===== src/Runtime/Keys/Once.antt =====
-- crates/crypto/src/key_state.rs, sign.rs and record.rs: the next index of a key under its calls, and as a
-- record restores it.
use lean_rust.Prelude.{
  ℕ, zero, suc, ◌+◌, ◌-◌, ◌≤◌, ◌≡◌, refl, sym, ◌∙◌, ap, ◌⊎◌, inl, inr, Option, none, some, ltb,
  Bool-cases, Option-cases, ok, err, Result-cases, >>=-eq-ok, ok_inj, Outcome, and_then, arith,
}
use lean_rust.Types.Endian.{Bytes32}
use lean_rust.Types.Ots.{OtsKeyState}
use lean_rust.Runtime.Crypto.{CryptoError, signing}
use lean_rust.Runtime.Keys.{
  contains, activation_interval, Scheme, SigningKey, prepared_interval, advance, next_index_of,
  not_prepared, prepare_loop, prepare, check_reuse, sign_raw, sign, restore_last_signed,
  from_record,
}

check_reuse-fresh :
    (last : Option ℕ) (epoch : ℕ) → check_reuse last epoch ≡ ok tt → next_index_of last ≤ epoch
unfolding check_reuse next_index_of
check_reuse-fresh none epoch h = omega arith
check_reuse-fresh (some last) epoch h = ground (arith, h)

module _ {K R : Type 0} (scheme : Scheme K R) where
  -- How a call leaves the key: an error that leaves it as it was, or a signature for a fresh epoch,
  -- which is now the last one.
  abbrev pub Signs : {A : Type 0} → SigningKey K → ℕ → Outcome (SigningKey K) CryptoError A → Type 0
  Signs key epoch outcome =
      ((e : CryptoError) × (outcome ≡ (key, err e)))
      ⊎ ((next_index_of key.last_signed ≤ epoch)
          × (outcome.0 ≡ record key { last_signed = some epoch }))

  sign_raw-Signs :
      (key : SigningKey K) (epoch : ℕ) (message : Bytes32)
      → Signs key epoch (sign_raw scheme key epoch message)
  unfolding sign_raw
  sign_raw-Signs key epoch message = elim (Result-cases (check_reuse key.last_signed epoch)) [
    | inr (e, refused) ↦ inl (e, rw refused refl)
    | inl (_, fresh) ↦ elim (Bool-cases (contains (prepared_interval scheme key) epoch)) [
      | inr out ↦
          inl (not_prepared scheme epoch (prepared_interval scheme key), rw (fresh, out) refl)
      | inl covered ↦ elim (Option-cases (scheme.sign key.secret epoch message)) [
        | inl failed ↦ inl (signing, rw (fresh, covered, failed) refl)
        | inr (signature, signed) ↦
            inr (check_reuse-fresh _ epoch fresh, rw (fresh, covered, signed) refl)
      ]
    ]
  ]

  sign-Signs :
      (key : SigningKey K) (epoch : ℕ) (message : Bytes32)
      → Signs key epoch (sign scheme key epoch message)
  unfolding sign
  sign-Signs key epoch message =
      let signed = sign_raw scheme key epoch message in
      elim (sign_raw-Signs key epoch message) [
        | inl (e, failed) ↦ inl (e, rw failed refl)
        | inr (fresh, after) ↦ elim (Result-cases signed.1) [
          | inl (raw, done) ↦ inr (fresh, rw done after)
          | inr (e, failed) ↦ inr (fresh, rw failed after)
        ]
      ]

  prepare_loop-keeps :
      (fuel : ℕ) (key : SigningKey K) (epoch : ℕ)
      → ((prepare_loop scheme fuel key epoch).0.last_signed ≡ key.last_signed)
        × ((prepare_loop scheme fuel key epoch).0.seed ≡ key.seed)
  unfolding prepare_loop advance
  prepare_loop-keeps zero key epoch = ground arith
  prepare_loop-keeps (suc fuel) key epoch =
      ground (arith, prepare_loop-keeps fuel (advance scheme key) epoch)

  pub prepare-keeps :
      (key : SigningKey K) (epoch : ℕ)
      → ((prepare scheme key epoch).0.last_signed ≡ key.last_signed)
        × ((prepare scheme key epoch).0.seed ≡ key.seed)
  unfolding prepare
  prepare-keeps key epoch =
      let active = activation_interval scheme key in
      let prepared = prepared_interval scheme key in
      let kept = prepare_loop-keeps (suc active.end - prepared.start) key epoch in
      elim (Bool-cases (contains active epoch)) [
        | inr inactive ↦ rw inactive (refl, refl)
        | inl inside ↦ elim (Bool-cases (ltb epoch prepared.start)) [
          | inl passed ↦ rw (inside, passed) (refl, refl)
          | inr ahead ↦ rw (inside, ahead) kept
        ]
      ]

  restore-next_index_of :
      (r : OtsKeyState) (last : Option ℕ)
      → restore_last_signed scheme r ≡ ok last
      → next_index_of last ≡ r.next_index
  unfolding restore_last_signed next_index_of
  restore-next_index_of r last h = ground (arith, h)

  pub from_record-next_index_of :
      (r : OtsKeyState) (key : SigningKey K)
      → from_record scheme r ≡ ok key
      → (next_index_of key.last_signed ≡ r.next_index) × (key.seed ≡ r.seed)
  unfolding from_record
  from_record-next_index_of r key h =
      let (secret, _, h1) =
        >>=-eq-ok (scheme.generate r.seed r.activation_epoch r.num_active_epochs) _ h in
      let (last, restored, h2) = >>=-eq-ok (restore_last_signed scheme r) _ h1 in
      let same : ◌≡◌ {A = SigningKey K}
          (record { secret = secret; last_signed = last; seed = r.seed }) key =
        ok_inj _ _ h2 in
      (
        sym (ap (λ k. next_index_of k.last_signed) same) ∙ restore-next_index_of r last restored,
        sym (ap (λ k. k.seed) same),
      )

  -- A call leaves the next index of the key as it is or raises it. It signs only at that index or above,
  -- and then the next index lies right above the epoch.
  pub record Once {A : Type 0} (key : SigningKey K) (epoch : ℕ)
      (outcome : Outcome (SigningKey K) CryptoError A) : Type 0 where
    pub rises : next_index_of key.last_signed ≤ next_index_of outcome.0.last_signed
    pub fresh :
        (a : A)
        → outcome.1 ≡ ok a
        → (next_index_of key.last_signed ≤ epoch)
          × (next_index_of outcome.0.last_signed ≡ epoch + 1)

  Signs-Once :
      {A : Type 0} (key : SigningKey K) (epoch : ℕ) (outcome : Outcome (SigningKey K) CryptoError A)
      → Signs key epoch outcome
      → Once key epoch outcome
  unfolding next_index_of
  Signs-Once key epoch outcome (inl (e, failed)) = record {
    rises = rw (ap (λ o. o.0) failed) (omega arith);
    fresh = λ a done. cc (failed, done);
  }
  Signs-Once key epoch outcome (inr (fresh, after)) =
      let next : next_index_of outcome.0.last_signed ≡ epoch + 1 =
        ap (λ k. next_index_of k.last_signed) after in
      record { rises = omega (arith, fresh, next); fresh = λ a done. (fresh, next) }

  Once-after :
      {A : Type 0} (key : SigningKey K) (epoch : ℕ)
      (first : Outcome (SigningKey K) CryptoError (Unit {0}))
      (next : SigningKey K → Unit {0} → Outcome (SigningKey K) CryptoError A)
      → first.0.last_signed ≡ key.last_signed
      → ((k : SigningKey K) → Once k epoch (next k tt))
      → Once key epoch (and_then first next)
  Once-after key epoch (key', ok _) next same once =
      let kept = ap next_index_of same in
      let o = once key' in
      record {
        rises = omega (arith, kept, o.rises);
        fresh = λ a done. let (low, high) = o.fresh a done in (omega (arith, kept, low), high);
      }
  Once-after key epoch (key', err e) next same once = record {
    rises = rw same (omega arith);
    fresh = λ a done. cc;
  }

  -- `prepare` then `sign`, as the local signer calls them.
  pub prepare_sign-Once :
      (key : SigningKey K) (epoch : ℕ) (message : Bytes32)
      → Once key epoch
          (and_then (prepare scheme key epoch) λ key' _. sign scheme key' epoch message)
  prepare_sign-Once key epoch message =
      Once-after key epoch (prepare scheme key epoch) _ (prepare-keeps key epoch).0
        λ k. Signs-Once k epoch _ (sign-Signs k epoch message)
