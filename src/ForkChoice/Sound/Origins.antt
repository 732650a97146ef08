-- ===== src/ForkChoice/Sound/Origins.antt =====
-- The invariant of the store, and where the choice of the head starts on a sound store.
use lean_rust.Prelude.{
  ℕ, ◌≤◌, ◌≡◌, refl, true, some, inl, inr, Bool-cases, ◌==◌, ==→≡, ==→≢, ok, arith,
}
use lean_rust.Types.Endian.{Bytes32}
use lean_rust.Maps.Hash
use lean_rust.Maps.Hash.{HashMap, IsUnique, contains_key, get-contains_key, contains_key-get}
use lean_rust.Protocol.Checkpoint.{Checkpoint}
use lean_rust.Protocol.Vote.{SignedAttestation}
use lean_rust.Protocol.Block.{Block}
use lean_rust.Protocol.State.{State}
use lean_rust.ForkChoice.Time.{Time}
use lean_rust.ForkChoice.Tree.{IsDescending, IsClosed}
use lean_rust.ForkChoice.Head.{get_fork_choice_head}
use lean_rust.ForkChoice.Head.Kids.{lists-eligible}
use lean_rust.ForkChoice.Head.Greedy.{Greedy, leaf, step}
use lean_rust.ForkChoice.Head.Origin.{IsOrigin, min_block_root-IsLowest, get_fork_choice_head-Ghost}
use lean_rust.ForkChoice.Store.{Store}
use lean_rust.ForkChoice.Store.Tracking.{IsIndexed}

-- No tracked block is below the floor, the slot of the anchor, and all above it have tracked parents.
pub record IsSound (anchor : Block) (self : Store) : Type 0 where
  pub indexed : IsIndexed self
  pub descending : IsDescending self.blocks
  pub closed : IsClosed self.blocks anchor.slot
  pub floored : (r : Bytes32) (b : Block) → Hash.get self.blocks r ≡ some b → anchor.slot ≤ b.slot
  pub anchored :
      (r : Bytes32) (b : Block)
      → Hash.get self.blocks r ≡ some b
      → b.slot ≤ anchor.slot
      → b.parent_root ≡ anchor.parent_root
  pub in_step :
      (r : Bytes32) (b : Block) (s : State)
      → Hash.get self.blocks r ≡ some b
      → Hash.get self.states r ≡ some s
      → s.latest_block_header.slot ≡ b.slot
  pub justified : contains_key self.blocks self.latest_justified.root ≡ true
  pub finalized : anchor.slot ≤ self.latest_finalized.slot
  pub head : contains_key self.blocks self.head ≡ true
  pub safe : contains_key self.blocks self.safe_target ≡ true
  pub known : IsUnique self.latest_known_votes
  pub new : IsUnique self.latest_new_votes

-- The clock, the head, the safe target and the pools can change under it.
pub IsSound-retouch :
    {anchor : Block} {self : Store} (time : Time) (head safe : Bytes32)
    (known new : HashMap SignedAttestation)
    → IsSound anchor self
    → contains_key self.blocks head ≡ true
    → contains_key self.blocks safe ≡ true
    → IsUnique known
    → IsUnique new
    → IsSound anchor (record self {
      time = time;
      head = head;
      safe_target = safe;
      latest_known_votes = known;
      latest_new_votes = new;
    })
IsSound-retouch time head safe known new s h t u v = record {
  indexed = record {
    unique = s.indexed.unique;
    distinct = s.indexed.distinct;
    ordered = s.indexed.ordered;
    stated = s.indexed.stated;
  };
  descending = s.descending;
  closed = s.closed;
  floored = s.floored;
  anchored = s.anchored;
  in_step = s.in_step;
  justified = s.justified;
  finalized = s.finalized;
  head = h;
  safe = t;
  known = u;
  new = v;
}

tracked-IsOrigin :
    (blocks : HashMap Block) (root : Bytes32)
    → IsUnique blocks
    → contains_key blocks root ≡ true
    → (origin : Bytes32) × (block : Block) × IsOrigin blocks root origin block
tracked-IsOrigin blocks root unique tracked =
    let (b, hb) = get-contains_key blocks root tracked in
    elim (Bool-cases (root == 0)) [
      | inr given ↦ (root, b, record { tracked = hb; resolved = inl (==→≢ root 0 given, refl) })
      | inl zero_root ↦
          let (r, c, _, low) = min_block_root-IsLowest blocks root b unique hb in
          (r, c, record { tracked = low.tracked; resolved = inr (==→≡ root 0 zero_root, low) })
    ]

Greedy-tracked :
    (score : Bytes32 → ℕ) (min_score : ℕ) (blocks : HashMap Block) (head r : Bytes32)
    → IsUnique blocks
    → contains_key blocks r ≡ true
    → Greedy score min_score blocks head r
    → contains_key blocks head ≡ true
Greedy-tracked score min_score blocks head _ unique h (leaf e) = h
Greedy-tracked score min_score blocks head _ unique h (step r child lies top rest) =
    let (b, hb, _, _) = lists-eligible score min_score blocks r child unique lies in
    Greedy-tracked score min_score blocks head child unique (contains_key-get blocks child hb) rest

-- On a sound store the choice of the head succeeds, whatever the votes and the score.
pub get_fork_choice_head-tracked :
    {anchor : Block} {self : Store} (votes : HashMap Checkpoint) (min_score : ℕ)
    → IsSound anchor self
    → (head : Bytes32) × (get_fork_choice_head self.blocks self.latest_justified.root votes
          min_score
        ≡ ok head)
      × (contains_key self.blocks head ≡ true)
get_fork_choice_head-tracked {anchor} {self} votes min_score s =
    let (origin, b, o) =
      tracked-IsOrigin self.blocks self.latest_justified.root s.indexed.unique s.justified in
    let (head, returns, ghost) =
      get_fork_choice_head-Ghost self.blocks s.indexed.unique votes min_score s.descending
        self.latest_justified.root origin b o
        (λ r c hc above. s.closed r c hc (omega (arith, above, s.floored origin b o.tracked))) in
    (
      head,
      returns,
      Greedy-tracked _ min_score self.blocks head origin s.indexed.unique
          (contains_key-get self.blocks origin o.tracked) ghost,
    )
