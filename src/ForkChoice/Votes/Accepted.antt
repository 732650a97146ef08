-- ===== src/ForkChoice/Votes/Accepted.antt =====
-- Which votes are valid.
use lean_rust.Prelude.{
  ◌+◌, ◌≤◌, ◌<◌, ◌≡◌, refl, sym, ◌∙◌, ap, ◌⊎◌, ◌↔◌, true, some, Bool-cases, Option-cases, inl, inr,
  ok, u64_mod, arith,
}
use lean_rust.Types.Endian.{Bytes32}
use lean_rust.Maps.Hash
use lean_rust.Protocol.Slot.{advance}
use lean_rust.Protocol.Vote.{AttestationData}
use lean_rust.Protocol.Block.{Block}
use lean_rust.ForkChoice.Time.{slot_of}
use lean_rust.ForkChoice.Store.{Store}
use lean_rust.ForkChoice.Votes.{
  lookup_block, is_genesis_placeholder, resolved_source_root, validate_attestation,
}

-- A vote of genesis: its source is the zero checkpoint, its slots are zero, and its target is the
-- justified checkpoint, the root of a tracked block of slot zero.
pub record IsPlaceholder (self : Store) (vote : AttestationData) : Type 0 where
  pub source_root : vote.source.root ≡ 0
  pub source_slot : vote.source.slot ≡ 0
  pub slot : vote.slot ≡ 0
  pub target_slot : vote.target.slot ≡ 0
  pub target_root : vote.target.root ≡ self.latest_justified.root
  pub justified_slot : self.latest_justified.slot ≡ 0
  pub block : Block
  pub tracked : Hash.get self.blocks self.latest_justified.root ≡ some block
  pub block_slot : block.slot ≡ 0

-- The root that the source of a vote stands for: the justified root in a vote of genesis, and the
-- root of the source itself in any other vote.
abbrev pub StandsFor : Store → AttestationData → Bytes32 → Type 0
StandsFor self vote root =
    (IsPlaceholder self vote × (root ≡ self.latest_justified.root))
    ⊎ ((¬ IsPlaceholder self vote) × (root ≡ vote.source.root))

-- The head, the target and what the source stands for are tracked blocks at the slots that the
-- checkpoints give, on a line that does not fall, and the vote is at most one slot ahead of the clock.
pub record IsValidVote (self : Store) (vote : AttestationData) : Type 0 where
  pub source_block : Block
  pub source_root : Bytes32
  pub stands : StandsFor self vote source_root
  pub source : Hash.get self.blocks source_root ≡ some source_block
  pub target_block : Block
  pub target : Hash.get self.blocks vote.target.root ≡ some target_block
  pub head_block : Block
  pub head : Hash.get self.blocks vote.head.root ≡ some head_block
  pub source_slot : source_block.slot ≡ vote.source.slot
  pub target_slot : target_block.slot ≡ vote.target.slot
  pub head_slot : head_block.slot ≡ vote.head.slot
  pub rises : vote.source.slot ≤ vote.target.slot
  pub tops : vote.target.slot ≤ vote.head.slot
  pub ticks : slot_of self.time + 1 < u64_mod
  pub timely : vote.slot ≤ slot_of self.time + 1

module _ (self : Store) (vote : AttestationData) where
  is_genesis_placeholder-IsPlaceholder :
      is_genesis_placeholder self vote ≡ true → IsPlaceholder self vote
  unfolding is_genesis_placeholder
  is_genesis_placeholder-IsPlaceholder h =
      elim (Option-cases (Hash.get self.blocks self.latest_justified.root)) [
        | inl e ↦ absurd (ground (arith, rw e at h))
        | inr (block, e) ↦
            let g = rw e at h in
            record {
              source_root = ground (arith, g);
              source_slot = ground (arith, g);
              slot = ground (arith, g);
              target_slot = ground (arith, g);
              target_root = ground (arith, g);
              justified_slot = ground (arith, g);
              block = block;
              tracked = e;
              block_slot = ground (arith, g);
            }
      ]

  IsPlaceholder-is_genesis_placeholder :
      IsPlaceholder self vote → is_genesis_placeholder self vote ≡ true
  unfolding is_genesis_placeholder
  IsPlaceholder-is_genesis_placeholder p = rw p.tracked (
      ground (
        arith, p.source_root, p.source_slot, p.slot, p.target_slot, p.target_root, p.justified_slot,
        p.block_slot,
      ))

  resolved_source_root-StandsFor : StandsFor self vote (resolved_source_root self vote)
  unfolding resolved_source_root
  resolved_source_root-StandsFor = elim (Bool-cases (is_genesis_placeholder self vote)) [
    | inl e ↦ inl (is_genesis_placeholder-IsPlaceholder e, rw e refl)
    | inr e ↦ inr (λ p. let at_genesis = IsPlaceholder-is_genesis_placeholder p in cc, rw e refl)
  ]

  StandsFor-unique : (a b : Bytes32) → StandsFor self vote a → StandsFor self vote b → a ≡ b
  StandsFor-unique a b ha hb = elim ha [
    | inl (p, e) ↦ elim hb [ inl (_, e') ↦ e ∙ sym e' | inr (n, _) ↦ absurd (n p) ]
    | inr (n, e) ↦ elim hb [ inl (p, _) ↦ absurd (n p) | inr (_, e') ↦ e ∙ sym e' ]
  ]

  resolved_source :
      (v : IsValidVote self vote)
      → Hash.get self.blocks (resolved_source_root self vote) ≡ some v.source_block
  resolved_source v =
      ap (λ root. Hash.get self.blocks root)
        (StandsFor-unique (resolved_source_root self vote) v.source_root
          resolved_source_root-StandsFor v.stands)
      ∙ v.source

  IsValidVote-validate_attestation : validate_attestation self vote ≡ ok tt → IsValidVote self vote
  unfolding validate_attestation lookup_block advance
  IsValidVote-validate_attestation h =
      elim (Option-cases (Hash.get self.blocks (resolved_source_root self vote))) [
        | inl e ↦ cc (rw e at h)
        | inr (s, hs) ↦ elim (Option-cases (Hash.get self.blocks vote.target.root)) [
          | inl e ↦ cc (rw (hs, e) at h)
          | inr (t, ht) ↦ elim (Option-cases (Hash.get self.blocks vote.head.root)) [
            | inl e ↦ cc (rw (hs, ht, e) at h)
            | inr (b, hb) ↦
                let g = rw (hs, ht, hb) at h in
                record {
                  source_block = s;
                  source_root = resolved_source_root self vote;
                  stands = resolved_source_root-StandsFor;
                  source = hs;
                  target_block = t;
                  target = ht;
                  head_block = b;
                  head = hb;
                  source_slot = ground (arith, g);
                  target_slot = ground (arith, g);
                  head_slot = ground (arith, g);
                  rises = ground (arith, g);
                  tops = ground (arith, g);
                  ticks = ground (arith, g);
                  timely = ground (arith, g);
                }
          ]
        ]
      ]

  validate_attestation-eq : IsValidVote self vote → validate_attestation self vote ≡ ok tt
  unfolding validate_attestation lookup_block advance
  validate_attestation-eq v =
      rw (resolved_source v, v.target, v.head)
        (ground
          (arith, v.source_slot, v.target_slot, v.head_slot, v.rises, v.tops, v.ticks, v.timely))

  -- A vote passes the checks exactly if its head, its target and what its source stands for are tracked
  -- blocks at the slots of the checkpoints, the slots do not fall from the source to the target and
  -- the head, and the vote is at most one slot ahead of a clock that can advance. The source of a vote
  -- of genesis (a zero source, zero slots, and for the target the justified root, a tracked block of
  -- slot zero) stands for the justified root, any other source for its own root.
  pub validate_attestation_iff : (validate_attestation self vote ≡ ok tt) ↔ IsValidVote self vote
  validate_attestation_iff = (IsValidVote-validate_attestation, validate_attestation-eq)
