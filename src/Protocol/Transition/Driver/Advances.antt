-- ===== src/Protocol/Transition/Driver/Advances.antt =====
-- What every successful transition has done, whatever the state it started from: the latest header
-- rose to the block's slot, and the registry is as it was.
use lean_rust.Prelude.{
  ℕ, zero, suc, ◌-◌, ◌<◌, ◌≡◌, refl, sym, ◌∙◌, ap, Bool, true, false, not, List, replicate, [], ◌∷◌,
  leb, leb→lt, and_then-eq-ok, check-eq-ok, ◌==◌, Bool-cases, inl, inr, Result, ok, err, fail_if,
  and_then, check, arith,
}
use lean_rust.Types.Endian.{Bytes32}
use lean_rust.Ssz.Merkleize.{Sha256}
use lean_rust.Protocol.Slot.{Slot}
use lean_rust.Types.Bitlist.{set_bit}
use lean_rust.Protocol.Limits.{historical_roots_limit}
use lean_rust.Protocol.Errors.{StateTransitionError, Bound, state_root_mismatch}
use lean_rust.Protocol.Vote.{Attestation}
use lean_rust.Protocol.Block.{Block, SignedBlockWithAttestation}
use lean_rust.Protocol.State.{State, state_root}
use lean_rust.Protocol.Transition.Slots.{advance_slot, process_slot, slots_loop, process_slots}
use lean_rust.Protocol.Transition.Header.{
  validate_header, push_justified, push_unjustified, seed_genesis, commit_header,
  process_block_header, empty_slots, append_history, bound_error,
}
use lean_rust.Protocol.Transition.Justifications.{
  Justifications, from_state, write_back, flatten, keys,
}
use lean_rust.Protocol.Transition.Attestations.{process_attestations, votes_loop, start_work}
use lean_rust.Protocol.Transition.Driver.{apply_block, state_transition}

-- The slot of the latest header and the registry are the same in both states.
pub record Keeps (s s' : State) : Type 0 where
  pub header : s'.latest_block_header.slot ≡ s.latest_block_header.slot
  pub registry : s'.validators ≡ s.validators

Keeps-trans : {s t u : State} → Keeps s t → Keeps t u → Keeps s u
Keeps-trans h k = record { header = k.header ∙ h.header; registry = k.registry ∙ h.registry }

Keeps-refl : (s : State) → Keeps s s
Keeps-refl s = record { header = refl; registry = refl }

module _ {A B : Type 0} (s0 : State) where
  check-Keeps :
      (s : State) (r : Result StateTransitionError A)
      (f : A → State × Result StateTransitionError B)
      → Keeps s0 s
      → ((a : A) → Keeps s0 (f a).0)
      → Keeps s0 (check s r f).0
  check-Keeps s (ok a) f h k = k a
  check-Keeps s (err e) f h k = h

  and_then-Keeps :
      (o : State × Result StateTransitionError A)
      (f : State → A → State × Result StateTransitionError B)
      → Keeps s0 o.0
      → ((s : State) (a : A) → Keeps s0 s → Keeps s0 (f s a).0)
      → Keeps s0 (and_then o f).0
  and_then-Keeps (s, ok a) f h k = k s a h
  and_then-Keeps (s, err e) f h k = h

process_slot-Keeps : (sha256 : Sha256) (s : State) → Keeps s (process_slot sha256 s).0
unfolding process_slot
process_slot-Keeps sha256 s = record { header = ground arith; registry = ground arith }

slots_loop-Keeps : (sha256 : Sha256) (n : ℕ) (s : State) → Keeps s (slots_loop sha256 n s).0
unfolding slots_loop
slots_loop-Keeps sha256 zero s = Keeps-refl s
slots_loop-Keeps sha256 (suc n) s =
    and_then-Keeps s (process_slot sha256 s) _ (process_slot-Keeps sha256 s) λ t _ k.
      check-Keeps s t (advance_slot t.slot) _ k λ next.
        Keeps-trans {t = record t { slot = next }}
          (record { header = k.header; registry = k.registry })
          (slots_loop-Keeps sha256 n (record t { slot = next }))

pub process_slots-Keeps :
    (sha256 : Sha256) (s : State) (target : Slot) → Keeps s (process_slots sha256 s target).0
unfolding process_slots
process_slots-Keeps sha256 s target = elim (Bool-cases (leb target s.slot)) [
  | inl late ↦ rw late (Keeps-refl s)
  | inr early ↦ rw early (slots_loop-Keeps sha256 (target - s.slot) s)
]

push_justified-Keeps : (v : Bool) (s : State) → Keeps s (push_justified v s).0
unfolding push_justified
push_justified-Keeps v s =
    let bits = set_bit historical_roots_limit s.justified_slots s.justified_slots.length v in
    check-Keeps {B = Unit {0}} s s (bound_error Bound.justified_slots bits)
      (λ bits. (record s { justified_slots = bits }, ok tt)) (Keeps-refl s)
      λ bits. record { header = refl; registry = refl }

push_unjustified-Keeps : (n : ℕ) (s : State) → Keeps s (push_unjustified n s).0
unfolding push_unjustified
push_unjustified-Keeps zero s = Keeps-refl s
push_unjustified-Keeps (suc n) s =
    and_then-Keeps s (push_justified false s) _ (push_justified-Keeps false s)
      λ t _ k. Keeps-trans k (push_unjustified-Keeps n t)

write_back-Keeps :
    (s : State) (j : Justifications) (t : State) → Keeps s t → Keeps s (write_back j t).0
unfolding write_back
write_back-Keeps s j t k =
    check-Keeps {B = Unit {0}} s t (flatten j)
      (λ flat.
        (record t { justifications_roots = keys j.table; justifications_validators = flat }, ok tt))
      k λ flat. record { header = k.header; registry = k.registry }

pub process_attestations-Keeps :
    (s : State) (votes : List Attestation) → Keeps s (process_attestations s votes).0
unfolding process_attestations
process_attestations-Keeps s votes = check-Keeps s s (from_state s) _ (Keeps-refl s) λ j.
    check-Keeps s s (votes_loop s votes (start_work s j)) _ (Keeps-refl s) λ w.
      write_back-Keeps s w.justifications
        (record s {
          justified_slots = w.justified_slots;
          latest_justified = w.latest_justified;
          latest_finalized = w.latest_finalized;
        })
        (record { header = refl; registry = refl })

-- What a successful step from `s` to `s'` has done for `block`.
pub record Advances (s : State) (block : Block) (s' : State) : Type 0 where
  pub later : s.latest_block_header.slot < block.slot
  pub reached : s'.latest_block_header.slot ≡ block.slot
  pub registry : s'.validators ≡ s.validators

validate_header-later :
    (sha256 : Sha256) (s : State) (block : Block) {root : Bytes32}
    → validate_header sha256 s block ≡ ok root
    → s.latest_block_header.slot < block.slot
unfolding validate_header
validate_header-later sha256 s block h = elim (Bool-cases (block.slot == s.slot)) [
  | inr e ↦ cc (rw e at h)
  | inl e ↦ elim (Bool-cases (leb block.slot s.latest_block_header.slot)) [
    | inl early ↦ cc (rw (e, early) at h)
    | inr late ↦ leb→lt _ _ late
  ]
]

commit_header-reached :
    (sha256 : Sha256) (root : Bytes32) (s : State) (block : Block) {s' : State}
    → commit_header sha256 root s block ≡ (s', ok tt)
    → (s'.latest_block_header.slot ≡ block.slot) × (s'.validators ≡ s.validators)
unfolding commit_header seed_genesis
commit_header-reached sha256 root s block {s'} h =
    let was_genesis = s.latest_block_header.slot == 0 in
    let start = append_history (root ∷ []) (seed_genesis was_genesis root s) in
    let (s1, _, first, h1) = and_then-eq-ok (push_justified was_genesis start) _ h in
    let more = append_history (replicate (empty_slots s block) 0) s1 in
    let (s2, _, second, h2) = and_then-eq-ok (push_unjustified (empty_slots s block) more) _ h1 in
    let k1 = rw (ap (λ o. o.0) first) at (push_justified-Keeps was_genesis start) in
    let k2 = rw (ap (λ o. o.0) second) at (push_unjustified-Keeps (empty_slots s block) more) in
    let last = ap (λ o. o.0) h2 in
    (
      sym (ap (λ t. t.latest_block_header.slot) last),
      sym (ap (λ t. t.validators) last) ∙ k2.registry ∙ k1.registry,
    )

fail_if-not-eq :
    (a b : ℕ) (e : StateTransitionError) {u : Unit {0}} → fail_if (not (b == a)) e ≡ ok u → a ≡ b
fail_if-not-eq a b e h = ground (arith, h)

pub process_block_header-Advances :
    (sha256 : Sha256) (s : State) (block : Block) {s' : State}
    → process_block_header sha256 s block ≡ (s', ok tt)
    → Advances s block s'
unfolding process_block_header
process_block_header-Advances sha256 s block h =
    let (root, valid, commits) =
      check-eq-ok s (validate_header sha256 s block) (λ root. commit_header sha256 root s block)
        h in
    let (reached, registry) = commit_header-reached sha256 root s block commits in
    record {
      later = validate_header-later sha256 s block valid;
      reached = reached;
      registry = registry;
    }

-- What keeps the header on both sides of an advance.
pub Advances-Keeps :
    {s t u v : State} {block : Block}
    → Keeps s t
    → Advances t block u
    → Keeps u v
    → Advances s block v
Advances-Keeps k a l = record {
  later = omega (arith, k.header, a.later);
  reached = l.header ∙ a.reached;
  registry = l.registry ∙ a.registry ∙ k.registry;
}

pub apply_block-Advances :
    (sha256 : Sha256) (s : State) (block : Block) {s' : State}
    → apply_block sha256 s block ≡ (s', ok tt)
    → Advances s block s'
unfolding apply_block
apply_block-Advances sha256 s block h =
    let (s1, _, slots, h1) = and_then-eq-ok (process_slots sha256 s block.slot) _ h in
    let (s2, _, header, h2) = and_then-eq-ok (process_block_header sha256 s1 block) _ h1 in
    Advances-Keeps (rw (ap (λ o. o.0) slots) at (process_slots-Keeps sha256 s block.slot))
      (process_block_header-Advances sha256 s1 block header)
      (rw (ap (λ o. o.0) h2) at (process_attestations-Keeps s2 block.body.attestations))

-- A successful validating transition has advanced to its block, whose state root is the new state's.
pub state_transition-Advances :
    (sha256 : Sha256) (s : State) (signed : SignedBlockWithAttestation) {s' : State}
    → state_transition sha256 s signed true ≡ (s', ok tt)
    → Advances s signed.message.block s' × (signed.message.block.state_root ≡ state_root sha256 s')
unfolding state_transition
state_transition-Advances sha256 s signed {s'} h =
    let block = signed.message.block in
    let next = (apply_block sha256 s block).0 in
    let got = state_root sha256 next in
    let error = state_root_mismatch block.slot got block.state_root in
    let (_, applied, h1) =
      check-eq-ok s (apply_block sha256 s block).1
        (λ _. check s (fail_if (not (got == block.state_root)) error) (λ _. (next, ok tt))) h in
    let (_, parity, h2) =
      check-eq-ok s (fail_if (not (got == block.state_root)) error) (λ _. (next, ok tt)) h1 in
    let same : next ≡ s' = ap (λ o. o.0) h2 in
    (
      apply_block-Advances sha256 s block (λ i. (same i, applied i)),
      rw same at (fail_if-not-eq block.state_root got error parity),
    )
