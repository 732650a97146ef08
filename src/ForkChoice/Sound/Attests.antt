-- ===== src/ForkChoice/Sound/Attests.antt =====
-- Producing a vote on a sound store.
use lean_rust.Prelude.{◌≡◌, refl, some, ok, arith, sym}
use lean_rust.Maps.Hash
use lean_rust.Maps.Hash.{get-contains_key}
use lean_rust.Protocol.Slot.{Slot}
use lean_rust.Protocol.Block.{Block}
use lean_rust.ForkChoice.Tree.{Climbs, IsClosed}
use lean_rust.ForkChoice.Store.{Store, get_proposal_head}
use lean_rust.ForkChoice.Votes.{lookup_block}
use lean_rust.ForkChoice.Target.Walk.{IsTarget, get_vote_target-Reaches}
use lean_rust.ForkChoice.Production.{ProducedVote, produce_attestation_vote}
use lean_rust.ForkChoice.Sound.Origins.{IsSound}
use lean_rust.ForkChoice.Sound.Ticks.{accept_votes-Settled}

-- The vote is for the head of the store, with the target a tracked ancestor of it and the justified checkpoint for
-- its source.
pub record Attests (self : Store) (slot : Slot) (produced : ProducedVote) : Type 0 where
  pub at_slot : produced.vote.slot ≡ slot
  pub head : produced.vote.head.root ≡ self.head
  pub head_block : Block
  pub head_tracked : Hash.get self.blocks produced.vote.head.root ≡ some head_block
  pub head_slot : produced.vote.head.slot ≡ head_block.slot
  pub target_block : Block
  pub target_tracked : Hash.get self.blocks produced.vote.target.root ≡ some target_block
  pub target_slot : produced.vote.target.slot ≡ target_block.slot
  pub climbs : Climbs self.blocks produced.vote.target.root self.head
  pub timely : IsTarget self.latest_finalized.slot produced.vote.target.slot
  pub source : produced.vote.source ≡ self.latest_justified

-- On a sound store a vote is produced, the store stays sound, and the vote is for its head.
pub produce_attestation_vote-Attests :
    {anchor : Block} (self : Store) (slot : Slot)
    → IsSound anchor self
    → (self' : Store) × (produced : ProducedVote) × (produce_attestation_vote self slot
        ≡ (self', ok produced))
      × IsSound anchor self'
      × Attests self' slot produced
unfolding produce_attestation_vote get_proposal_head lookup_block
produce_attestation_vote-Attests {anchor} self slot sound =
    let u = accept_votes-Settled sound in
    let s = u.self' in
    let closed : IsClosed s.blocks s.latest_finalized.slot =
      λ r b hb above. u.sound.closed r b hb (omega (arith, above, u.sound.finalized)) in
    let (hb, head) = get-contains_key s.blocks s.head u.sound.head in
    let (sb, safe) = get-contains_key s.blocks s.safe_target u.sound.safe in
    let (target, tb, returns, tracked, height, climbs, timely, _) =
      get_vote_target-Reaches s u.sound.descending closed hb sb head safe in
    (
      s,
      record {
        vote = record {
          slot = slot;
          head = record { root = s.head; slot = hb.slot };
          target = target;
          source = s.latest_justified;
        };
        head_root = s.head;
        target = target;
        source = s.latest_justified;
        safe_target = s.safe_target;
      },
      rw (u.returns, head, returns) refl,
      u.sound,
      record {
        at_slot = refl;
        head = refl;
        head_block = hb;
        head_tracked = head;
        head_slot = refl;
        target_block = tb;
        target_tracked = tracked;
        target_slot = sym height;
        climbs = climbs;
        timely = timely;
        source = refl;
      },
    )
