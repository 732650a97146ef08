-- ===== src/Protocol/Transition/Header/Commit.antt =====
-- What an accepted header does to the state, and that a refused one leaves the state as it was.
use lean_rust.Prelude.{
  ℕ, zero, suc, ◌+◌, ◌-◌, ◌%◌, ◌≤◌, ◌<◌, ◌≡◌, refl, ◌∙◌, ap, Bool, false, ◌&&◌, inl, inr, [], ◌∷◌,
  ◌++◌, length, replicate, length-append, length-replicate, leb, ltb, ◌==◌, if◌then◌else◌, some, ok,
  err, arith, Result-cases,
}
use mathlib.Core.List.{append_assoc}
use lean_rust.Types.Endian.{Bytes32}
use lean_rust.Types.Bitlist.{Bitlist, get}
use lean_rust.Types.Bitlist.Laws.{
  IsValid, after, set_bit-eq, set_bit-IsValid, length-set_bit, get-set_bit, get_beyond,
}
use lean_rust.Ssz.Merkleize.{Sha256}
use lean_rust.Protocol.Limits.{historical_roots_limit}
use lean_rust.Protocol.Errors.{StateTransitionError}
use lean_rust.Protocol.Validator.{is_proposer}
use lean_rust.Protocol.Block.{Block, BlockHeader, header_root, body_root}
use lean_rust.Protocol.State.{State, num_validators}
use lean_rust.Protocol.Transition.Slots.{Step}
use lean_rust.Protocol.Transition.Header.{
  empty_slots, validate_header, push_justified, push_unjustified, seed_genesis, append_history,
  commit_header, process_block_header,
}

-- History and justification bits cover the same slots.
pub record IsInSync (s : State) : Type 0 where
  pub bits : IsValid historical_roots_limit s.justified_slots
  pub covers : s.justified_slots.length ≡ length s.historical_block_hashes

-- `bits'` is `bits` with `value` and then `count` clear bits behind it.
pub record Extends (value : Bool) (count : ℕ) (bits bits' : Bitlist) : Type 0 where
  pub grown : bits'.length ≡ bits.length + 1 + count
  pub valid : IsValid historical_roots_limit bits'
  pub reads :
      (j : ℕ)
      → get bits' j ≡ (
          if j == bits.length
          then some value
          else if ltb bits.length j && ltb j (bits.length + 1 + count)
          then some false
          else get bits j)

module _ (bits : Bitlist) (valid : IsValid historical_roots_limit bits) where
  -- The bits after `set(len(), value)`.
  abbrev pushed : bits.length < historical_roots_limit → Bool → Bitlist
  pushed room value = after historical_roots_limit bits valid bits.length room value

  get-pushed :
      (room : bits.length < historical_roots_limit) (value : Bool) (j : ℕ)
      → get (pushed room value) j ≡ (if j == bits.length then some value else get bits j)
  get-pushed room value j = ground (
    arith,
    get-set_bit historical_roots_limit bits valid bits.length room value j,
    get_beyond bits j,
  )

  length-pushed :
      (room : bits.length < historical_roots_limit) (value : Bool)
      → (pushed room value).length ≡ bits.length + 1
  length-pushed room value =
      length-set_bit historical_roots_limit bits valid bits.length room value ∙ omega arith

push_justified-eq :
    (value : Bool) (s : State) (valid : IsValid historical_roots_limit s.justified_slots)
    (room : s.justified_slots.length < historical_roots_limit)
    → push_justified value s
      ≡ (record s { justified_slots = pushed s.justified_slots valid room value }, ok tt)
unfolding push_justified
push_justified-eq value s valid room =
    rw (
      set_bit-eq historical_roots_limit s.justified_slots valid s.justified_slots.length room value)

-- What the loop over the slots without a block leaves.
record Clears (count : ℕ) (s : State) (r : Step) : Type 0 where
  bits : Bitlist
  returns : r ≡ (record s { justified_slots = bits }, ok tt)
  grown : bits.length ≡ s.justified_slots.length + count
  valid : IsValid historical_roots_limit bits
  reads :
      (j : ℕ)
      → get bits j ≡ (
          if leb s.justified_slots.length j && ltb j (s.justified_slots.length + count)
          then some false
          else get s.justified_slots j)

push_unjustified-Clears :
    (count : ℕ) (s : State)
    → IsValid historical_roots_limit s.justified_slots
    → s.justified_slots.length + count ≤ historical_roots_limit
    → Clears count s (push_unjustified count s)
unfolding push_unjustified
push_unjustified-Clears zero s valid room = record {
  bits = s.justified_slots;
  returns = refl;
  grown = omega arith;
  valid = valid;
  reads = λ j. ground arith;
}
push_unjustified-Clears (suc count) s valid room =
    let old = s.justified_slots in
    let fits : old.length < historical_roots_limit = omega arith in
    let bits = pushed old valid fits false in
    let long = length-pushed old valid fits false in
    let rest =
      push_unjustified-Clears count (record s { justified_slots = bits })
        (set_bit-IsValid historical_roots_limit old valid old.length fits false) (omega arith) in
    record {
      bits = rest.bits;
      returns = rw (push_justified-eq false s valid fits) rest.returns;
      grown = omega (arith, rest.grown);
      valid = rest.valid;
      reads = λ j. ground (arith, rest.reads j, get-pushed old valid fits false j);
    }

module _ (sha256 : Sha256) (s : State) (block : Block) where
  abbrev latest : BlockHeader
  latest = s.latest_block_header

  -- The conditions under which a block's header is accepted.
  pub record Accepts : Type 0 where
    pub same_slot : block.slot ≡ s.slot
    pub newer : latest.slot < block.slot
    pub registry : 0 < num_validators s
    pub proposes : s.slot % num_validators s ≡ block.proposer_index
    pub extends_latest : block.parent_root ≡ header_root sha256 latest
    pub room :
        length s.historical_block_hashes + (block.slot - latest.slot) ≤ historical_roots_limit

  -- What an accepted header changes, and what it leaves.
  pub record Commits (s' : State) : Type 0 where
    pub history :
        s'.historical_block_hashes
        ≡ s.historical_block_hashes ++ header_root sha256 latest ∷ replicate (empty_slots s block) 0
    pub bits : Extends (latest.slot == 0) (empty_slots s block) s.justified_slots s'.justified_slots
    pub header : s'.latest_block_header ≡ record {
      slot = block.slot;
      proposer_index = block.proposer_index;
      parent_root = block.parent_root;
      state_root = 0;
      body_root = body_root sha256 block.body;
    }
    pub justified : s'.latest_justified ≡ (
        if latest.slot == 0
        then record (s.latest_justified) { root = header_root sha256 latest }
        else s.latest_justified)
    pub finalized : s'.latest_finalized ≡ (
        if latest.slot == 0
        then record (s.latest_finalized) { root = header_root sha256 latest }
        else s.latest_finalized)
    pub config : s'.config ≡ s.config
    pub slot : s'.slot ≡ s.slot
    pub validators : s'.validators ≡ s.validators
    pub tallies :
        (s'.justifications_roots ≡ s.justifications_roots)
        × (s'.justifications_validators ≡ s.justifications_validators)

  validate_header-eq : Accepts → validate_header sha256 s block ≡ ok (header_root sha256 latest)
  unfolding validate_header is_proposer
  validate_header-eq a = ground arith

  Accepts-validate_header : {r : Bytes32} → validate_header sha256 s block ≡ ok r → Accepts
  unfolding validate_header is_proposer
  Accepts-validate_header h = ground arith

  commit_header-Commits :
      IsInSync s
      → Accepts
      → (s' : State) × (commit_header sha256 (header_root sha256 latest) s block ≡ (s', ok tt))
        × Commits s'
  unfolding commit_header seed_genesis
  commit_header-Commits sync a =
      let old = s.justified_slots in
      let root = header_root sha256 latest in
      let was_genesis = latest.slot == 0 in
      let seeded = append_history (root ∷ []) (seed_genesis was_genesis root s) in
      let fits : old.length < historical_roots_limit =
        omega (arith, a.room, a.newer, sync.covers) in
      let bits = pushed old sync.bits fits was_genesis in
      let long = length-pushed old sync.bits fits was_genesis in
      let s1 =
        append_history (replicate (empty_slots s block) 0)
          (record seeded { justified_slots = bits }) in
      let rest =
        push_unjustified-Clears (empty_slots s block) s1
          (set_bit-IsValid historical_roots_limit old sync.bits old.length fits was_genesis)
          (omega (arith, a.room, a.newer, sync.covers)) in
      (
        record s1 {
          justified_slots = rest.bits;
          latest_block_header = record {
            slot = block.slot;
            proposer_index = block.proposer_index;
            parent_root = block.parent_root;
            state_root = 0;
            body_root = body_root sha256 block.body;
          };
        },
        rw (push_justified-eq was_genesis seeded sync.bits fits) (rw rest.returns),
        record {
          history =
              append_assoc s.historical_block_hashes (root ∷ [])
                (replicate (empty_slots s block) 0);
          bits = record {
            grown = omega (arith, rest.grown);
            valid = rest.valid;
            reads = λ j. ground (arith, rest.reads j, get-pushed old sync.bits fits was_genesis j);
          };
          header = refl;
          justified = refl;
          finalized = refl;
          config = refl;
          slot = refl;
          validators = refl;
          tallies = (refl, refl);
        },
      )

  Commits-IsInSync : {s' : State} → IsInSync s → Accepts → Commits s' → IsInSync s'
  Commits-IsInSync {s'} sync a c = record {
    bits = c.bits.valid;
    covers =
        c.bits.grown
        ∙ omega (
          arith,
          sync.covers,
          ap length c.history,
          length-append {0} s.historical_block_hashes
              (header_root sha256 latest ∷ replicate (empty_slots s block) 0),
          length-replicate {A = ℕ} (empty_slots s block) 0,
        );
  }

  process_block_header_lem :
      IsInSync s
      → (Accepts
          → (s' : State) × (process_block_header sha256 s block ≡ (s', ok tt))
            × Commits s'
            × IsInSync s')
        × (¬ Accepts
            → (e : StateTransitionError) × (process_block_header sha256 s block ≡ (s, err e)))
  unfolding process_block_header
  process_block_header_lem sync = (
    λ a.
        let (s', returns, commits) = commit_header-Commits sync a in
        (s', rw (validate_header-eq a) returns, commits, Commits-IsInSync sync a commits),
    λ refused. elim (Result-cases (validate_header sha256 s block)) [
      | inl (root, e) ↦ absurd (refused (Accepts-validate_header e))
      | inr (e, h) ↦ (e, rw h)
    ],
  )

  -- On a state whose bits and history are in step, a block that passes every check is committed as
  -- `Commits` says, and the bits and the history stay in step.
  pub process_block_header-Commits :
      IsInSync s
      → Accepts
      → (s' : State) × (process_block_header sha256 s block ≡ (s', ok tt))
        × Commits s'
        × IsInSync s'
  process_block_header-Commits sync = (process_block_header_lem sync).0

  -- On such a state a block that fails a check is refused, and the state is left as it was.
  pub process_block_header_refuses :
      IsInSync s
      → ¬ Accepts
      → (e : StateTransitionError) × (process_block_header sha256 s block ≡ (s, err e))
  process_block_header_refuses sync = (process_block_header_lem sync).1
