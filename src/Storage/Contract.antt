-- ===== src/Storage/Contract.antt =====
-- What a store promises, in terms of what it holds, and what the default `save_accepted` keeps.
use lean_rust.Prelude.{
  ℕ, ◌≡◌, ◌≢◌, refl, sym, ◌∙◌, ap, ◌⊎◌, inl, inr, Option, none, some, ◌==◌, if◌then◌else◌,
  Bool-cases, Result, ok, err, Outcome, arith, Bool, true, false,
}
use lean_rust.Types.Endian.{Bytes32}
use lean_rust.Types.Ots.{OtsWatermark}
use lean_rust.Protocol.Block.{SignedBlockWithAttestation}
use lean_rust.Protocol.State.{State}
use lean_rust.Storage.{Backend, HeadInfo, default_save_accepted}

abbrev pub is_some {ℓ} : {V : Type ℓ} → Option V → Bool
is_some none = false
is_some (some v) = true

-- What a store holds.
pub record Contents : Type 0 where
  pub blocks : Bytes32 → Option SignedBlockWithAttestation
  pub states : Bytes32 → Option State
  pub head : Option HeadInfo
  pub watermarks : ℕ → Option OtsWatermark

-- A later entry replaces an earlier one.
abbrev pub put {ℓ} : {V : Type ℓ} → (ℕ → Option V) → ℕ → V → ℕ → Option V
put m k v j = if k == j then some v else m j

-- A write succeeds and the contents are the new ones, or it fails and they are the old ones.
abbrev pub Writes : {S E : Type 0} → (S → Contents) → S → Contents → Outcome S E (Unit {0}) → Type 0
Writes {E = E} view self after outcome =
    ((outcome.1 ≡ ok tt) × (view outcome.0 ≡ after))
    ⊎ ((error : E) × (outcome.1 ≡ err error) × (view outcome.0 ≡ view self))

-- The contract of the single writes of an adapter, with what its states hold.
pub record Writer {S E : Type 0} (b : Backend S E) (view : S → Contents) : Type 0 where
  pub saves_block :
      (s : S) (r : Bytes32) (block : SignedBlockWithAttestation)
      → Writes view s
          (record (view s) { blocks = put (view s).blocks r block })
          (b.save_block s r block)
  pub saves_state :
      (s : S) (r : Bytes32) (state : State)
      → Writes view s
          (record (view s) { states = put (view s).states r state })
          (b.save_state s r state)
  pub saves_head :
      (s : S) (info : HeadInfo)
      → Writes view s (record (view s) { head = some info }) (b.save_head s info)
  pub saves_watermark :
      (s : S) (v : ℕ) (w : OtsWatermark)
      → Writes view s
          (record (view s) { watermarks = put (view s).watermarks v w })
          (b.save_ots_key_state s v w)
  pub loads_watermark :
      (s : S) (v : ℕ) (found : Option OtsWatermark)
      → b.load_ots_key_state s v ≡ ok found
      → found ≡ (view s).watermarks v

-- An entry is as it was, or the one that is being saved.
abbrev pub Settles {ℓ} : {V : Type ℓ} → (ℕ → Option V) → ℕ → V → (ℕ → Option V) → Type ℓ
Settles m k v m' = (j : ℕ) → (m' j ≡ m j) ⊎ ((j ≡ k) × (m' j ≡ some v))

module _ (root : Bytes32) (block : SignedBlockWithAttestation) (state : State)
    (info : HeadInfo) where
  abbrev pub accepted : Contents → Contents
  accepted v = record v {
    blocks = put v.blocks root block;
    states = put v.states root state;
    head = some info;
  }

  -- What saving an accepted block leaves, whether it succeeds or not.
  pub record Accepts {E : Type 0} (v v' : Contents) (result : Result E (Unit {0})) : Type 0 where
    pub blocks : Settles v.blocks root block v'.blocks
    pub states : Settles v.states root state v'.states
    pub watermarks : v'.watermarks ≡ v.watermarks
    pub outcome :
        ((result ≡ ok tt) × (v' ≡ accepted v))
        ⊎ ((error : E) × (result ≡ err error) × (v'.head ≡ v.head))

  put-Settles {ℓ} : {V : Type ℓ} (m : ℕ → Option V) (v : V) → Settles m root v (put m root v)
  put-Settles m v j = elim (Bool-cases (root == j)) [
    | inl same ↦ inr (ground (arith, same), rw same refl)
    | inr other ↦ inl (rw other refl)
  ]

  abbrev with_block : Contents → Contents
  with_block v = record v { blocks = put v.blocks root block }

  abbrev with_both : Contents → Contents
  with_both v = record v { blocks = put v.blocks root block; states = put v.states root state }

  module _ {E : Type 0} (v : Contents) where
    none-Accepts : (e : E) → Accepts v v (err e)
    none-Accepts e = record {
      blocks = λ j. inl refl;
      states = λ j. inl refl;
      watermarks = refl;
      outcome = inr (e, refl, refl);
    }

    block-Accepts : (e : E) → Accepts v (with_block v) (err e)
    block-Accepts e = record {
      blocks = put-Settles v.blocks block;
      states = λ j. inl refl;
      watermarks = refl;
      outcome = inr (e, refl, refl);
    }

    both-Accepts : (e : E) → Accepts v (with_both v) (err e)
    both-Accepts e = record {
      blocks = put-Settles v.blocks block;
      states = put-Settles v.states state;
      watermarks = refl;
      outcome = inr (e, refl, refl);
    }

    all-Accepts : Accepts {E = E} v (accepted v) (ok tt)
    all-Accepts = record {
      blocks = put-Settles v.blocks block;
      states = put-Settles v.states state;
      watermarks = refl;
      outcome = inl (refl, refl);
    }

  module _ {S E : Type 0} (b : Backend S E) (view : S → Contents) (w : Writer b view) (s : S) where
    -- On an adapter whose single writes happen or do not, the default keeps the contract: after an error the
    -- head is the old one, and no other entry has changed.
    pub default_save_accepted-Accepts :
        Accepts
          (view s)
          (view (default_save_accepted b s root block state info).0)
          (default_save_accepted b s root block state info).1
    unfolding default_save_accepted
    default_save_accepted-Accepts =
        let s1 = (b.save_block s root block).0 in
        let s2 = (b.save_state s1 root state).0 in
        elim (w.saves_block s root block) [
          | inr (e, failed, same) ↦ rw (failed, same) (none-Accepts (view s) e)
          | inl (done1, after1) ↦ elim (w.saves_state s1 root state) [
            | inr (e, failed, same) ↦ rw (done1, failed, same, after1) (block-Accepts (view s) e)
            | inl (done2, after2) ↦ elim (w.saves_head s2 info) [
              | inr (e, failed, same) ↦
                  rw (done1, done2, failed, same, after2, after1) (both-Accepts (view s) e)
              | inl (done3, after3) ↦
                  rw (done1, done2, done3, after3, after2, after1) (all-Accepts (view s))
            ]
          ]
        ]

-- The head, if there is one, names a block and a post-state that are there.
abbrev pub IsBacked : Contents → Type 0
IsBacked v =
    (info : HeadInfo)
    → v.head ≡ some info
    → (v.blocks info.head.root ≢ none) × (v.states info.head.root ≢ none)

Settles-kept {ℓ} :
    {V : Type ℓ} (m : ℕ → Option V) (k : ℕ) (v : V) (m' : ℕ → Option V) (j : ℕ)
    → Settles m k v m'
    → m j ≢ none
    → m' j ≢ none
Settles-kept m k v m' j s there gone = elim (s j) [
  | inl same ↦ there (sym same ∙ gone)
  | inr (_, new) ↦ cc
]

put-kept {ℓ} :
    {V : Type ℓ} (m : ℕ → Option V) (k : ℕ) (v : V) (j : ℕ)
    → (j ≡ k) ⊎ (m j ≢ none)
    → put m k v j ≢ none
put-kept m k v j (inl same) gone = ground (arith, same, gone)
put-kept m k v j (inr there) gone = elim (Bool-cases (k == j)) [
  | inl same ↦ cc (rw same at gone)
  | inr other ↦ there (rw other at gone)
]

-- What the new head names is being saved, or is there.
abbrev pub Named : Bytes32 → HeadInfo → Contents → Type 0
Named root info v =
    (info.head.root ≡ root) ⊎ ((v.blocks info.head.root ≢ none) × (v.states info.head.root ≢ none))

either {ℓ} : {A B C : Type ℓ} → A ⊎ (B × C) → (A ⊎ B) × (A ⊎ C)
either (inl a) = (inl a, inl a)
either (inr (b, c)) = (inr b, inr c)

module _ (root : Bytes32) (block : SignedBlockWithAttestation) (state : State)
    (info : HeadInfo) where
  pub Accepts-IsBacked :
      {E : Type 0} (v v' : Contents) (result : Result E (Unit {0}))
      → Accepts root block state info v v' result
      → IsBacked v
      → Named root info v
      → IsBacked v'
  Accepts-IsBacked v v' result a backed named info' h = elim a.outcome [
    | inr (e, _, same) ↦
        let (block_there, state_there) = backed info' (sym same ∙ h) in
        (
          Settles-kept v.blocks root block v'.blocks info'.head.root a.blocks block_there,
          Settles-kept v.states root state v'.states info'.head.root a.states state_there,
        )
    | inl (_, all) ↦
        let found : ◌≡◌ {A = Option HeadInfo} (some info) (some info') =
          sym (ap (λ x. x.head) all) ∙ h in
        let same : info ≡ info' = cc in
        let (b, s) = either named in
        (
          rw (ap (λ x. x.blocks) all, sym same) (put-kept v.blocks root block info.head.root b),
          rw (ap (λ x. x.states) all, sym same) (put-kept v.states root state info.head.root s),
        )
  ]

-- On an adapter whose single writes happen or fail with no change, the default `save_accepted` keeps the head backed by a block
-- and a post-state, whichever write fails, if the new head is the saved block or is there; and a failure leaves
-- the old head.
pub default_save_accepted-IsBacked :
    {S E : Type 0} (b : Backend S E) (view : S → Contents) (root : Bytes32)
    (block : SignedBlockWithAttestation) (state : State) (info : HeadInfo) (s : S)
    → Writer b view
    → IsBacked (view s)
    → Named root info (view s)
    → IsBacked (view (default_save_accepted b s root block state info).0)
      × (((default_save_accepted b s root block state info).1 ≡ ok tt)
          ⊎ ((view (default_save_accepted b s root block state info).0).head ≡ (view s).head))
default_save_accepted-IsBacked b view root block state info s w backed named =
    let a = default_save_accepted-Accepts root block state info b view w s in
    (
      Accepts-IsBacked root block state info _ _ _ a backed named,
      elim a.outcome [ inl (done, _) ↦ inl done | inr (e, _, same) ↦ inr same ],
    )

-- The full contract: what is saved together, and what is read.
pub record IsStore {S E : Type 0} (b : Backend S E) (view : S → Contents) : Type 0 where
  pub writer : Writer b view
  pub saves_accepted :
      (s : S) (root : Bytes32) (block : SignedBlockWithAttestation) (state : State)
      (info : HeadInfo)
      → Accepts root block state info
          (view s)
          (view (b.save_accepted s root block state info).0)
          (b.save_accepted s root block state info).1
  pub has_block :
      (s : S) (r : Bytes32) (found : Bool)
      → b.has_block s r ≡ ok found
      → found ≡ is_some ((view s).blocks r)
  pub has_state :
      (s : S) (r : Bytes32) (found : Bool)
      → b.has_state s r ≡ ok found
      → found ≡ is_some ((view s).states r)
  pub loads_block :
      (s : S) (r : Bytes32) (found : Option SignedBlockWithAttestation)
      → b.load_block s r ≡ ok found
      → found ≡ (view s).blocks r
  pub loads_state :
      (s : S) (r : Bytes32) (found : Option State)
      → b.load_state s r ≡ ok found
      → found ≡ (view s).states r
  pub loads_head :
      (s : S) (found : Option HeadInfo) → b.load_head s ≡ ok found → found ≡ (view s).head
