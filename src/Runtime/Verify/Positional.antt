-- ===== src/Runtime/Verify/Positional.antt =====
-- Which signature lists pass the gate.
use lean_rust.Prelude.{
  ℕ, zero, suc, ◌+◌, ◌^◌, ◌<◌, ◌≡◌, ◌↔◌, refl, sym, some, Option-cases, List, [], ◌∷◌, ◌++◌, length,
  get_elem?, ltb, ltb→lt, lt→ltb, ◌==◌, ==→≡, Bool-cases, inl, inr, ok, Result-cases, >>=-eq-ok,
  arith,
}
use lean_rust.Ssz.Merkleize.{Sha256}
use lean_rust.Protocol.Validator.{Validator}
use lean_rust.Protocol.Vote.{Attestation, Signature, attestation_root}
use lean_rust.Runtime.Verify.{
  Verifier, attestation_signing_inputs, verify_one, verify_each, verify_positional,
}

module _ (sha256 : Sha256) (validators : List Validator) (verifier : Verifier) where
  -- The signature is the registered validator's, over the root of the vote at the epoch of its slot.
  pub record IsSigned (att : Attestation) (sig : Signature) : Type 0 where
    pub validator : Validator
    pub registered : get_elem? validators att.validator_id ≡ some validator
    pub epoch : att.contents.slot < 2 ^ 32
    pub verifies :
        verifier validator.pubkey att.contents.slot (attestation_root sha256 att) sig ≡ ok tt

  verify_one_iff :
      (att : Attestation) (sig : Signature)
      → (verify_one sha256 validators verifier att sig ≡ ok tt) ↔ IsSigned att sig
  unfolding verify_one attestation_signing_inputs
  verify_one_iff att sig = (
    λ h. elim (Option-cases (get_elem? validators att.validator_id)) [
      | inl e ↦ cc (rw e at h)
      | inr (v, e) ↦ elim (Bool-cases (ltb att.contents.slot (2 ^ 32))) [
        | inr far ↦ cc (rw (e, far) at h)
        | inl near ↦
            elim (Result-cases
              (verifier v.pubkey att.contents.slot (attestation_root sha256 att) sig)) [
                | inr (bad, g) ↦ cc (rw (e, near, g) at h)
                | inl (u, g) ↦ record {
                  validator = v;
                  registered = e;
                  epoch = ltb→lt _ _ near;
                  verifies = g;
                }
              ]
      ]
    ],
    λ s. rw (s.registered, lt→ltb _ _ s.epoch, s.verifies) refl,
  )

  -- Wherever both lists have an entry, the signature is the vote's.
  abbrev pub AllSigned : List Attestation → List Signature → Type 0
  AllSigned atts sigs =
      (i : ℕ) (att : Attestation) (sig : Signature)
      → get_elem? atts i ≡ some att
      → get_elem? sigs i ≡ some sig
      → IsSigned att sig

  verify_each-AllSigned :
      (atts : List Attestation) (sigs : List Signature)
      → verify_each sha256 validators verifier atts sigs ≡ ok tt
      → AllSigned atts sigs
  unfolding verify_each
  verify_each-AllSigned [] sigs h i att sig ha hs = cc
  verify_each-AllSigned (a ∷ atts) [] h i att sig ha hs = cc
  verify_each-AllSigned (a ∷ atts) (g ∷ sigs) h zero att sig ha hs =
      let (u, one, _) = >>=-eq-ok (verify_one sha256 validators verifier a g) _ h in
      let same_att : a ≡ att = cc in
      let same_sig : g ≡ sig = cc in rw (sym same_att, sym same_sig) ((verify_one_iff a g).0 one)
  verify_each-AllSigned (a ∷ atts) (g ∷ sigs) h (suc i) att sig ha hs =
      let (u, one, rest) = >>=-eq-ok (verify_one sha256 validators verifier a g) _ h in
      verify_each-AllSigned atts sigs rest i att sig ha hs

  AllSigned-verify_each :
      (atts : List Attestation) (sigs : List Signature)
      → AllSigned atts sigs
      → verify_each sha256 validators verifier atts sigs ≡ ok tt
  unfolding verify_each
  AllSigned-verify_each [] sigs h = refl
  AllSigned-verify_each (a ∷ atts) [] h = refl
  AllSigned-verify_each (a ∷ atts) (g ∷ sigs) h =
      rw ((verify_one_iff a g).1 (h 0 a g refl refl))
        (AllSigned-verify_each atts sigs (λ i. h (suc i)))

  -- The gate passes exactly if there is one signature more than the body has votes, and each is that of the vote
  -- at its place, the proposer's last.
  pub verify_positional_iff :
      (body : List Attestation) (proposer : Attestation) (signatures : List Signature)
      → (verify_positional sha256 validators verifier body proposer signatures ≡ ok tt)
        ↔ ((length signatures ≡ length body + 1) × AllSigned (body ++ proposer ∷ []) signatures)
  unfolding verify_positional
  verify_positional_iff body proposer signatures = (
    λ h. elim (Bool-cases (length signatures == length body + 1)) [
      | inr other ↦ cc (rw other at h)
      | inl same ↦
          (==→≡ _ _ same, verify_each-AllSigned (body ++ proposer ∷ []) signatures (rw same at h))
    ],
    λ h. ground (arith, h.0, AllSigned-verify_each (body ++ proposer ∷ []) signatures h.1),
  )
