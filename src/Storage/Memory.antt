-- ===== src/Storage/Memory.antt =====
-- crates/storage/src/memory.rs: the in-memory adapter.
use lean_rust.Prelude.{
  ℕ, ◌≡◌, refl, sym, ap, inl, Bool, Option, none, some, [], Result, ok, ok_inj, Outcome, ◌∙◌, arith,
}
use mathlib.Core.Path.{fun_ext}
use lean_rust.Types.Endian.{Bytes32}
use lean_rust.Types.Ots.{OtsWatermark}
use lean_rust.Maps.Hash
use lean_rust.Maps.Hash.{HashMap, contains_key}
use lean_rust.Maps.BTree
use lean_rust.Maps.BTree.{BTreeMap}
use lean_rust.Protocol.Block.{SignedBlockWithAttestation}
use lean_rust.Protocol.State.{State}
use lean_rust.Storage.{Backend, HeadInfo, default_save_accepted}
use lean_rust.Storage.Contract.{
  Contents, Writer, put, Accepts, default_save_accepted-Accepts, IsStore, is_some,
}

pub data StorageError : Type 0 where
  backend : StorageError

-- `Inner`, behind the lock.
pub record MemoryStore : Type 0 where
  pub blocks : HashMap SignedBlockWithAttestation
  pub states : HashMap State
  pub head : Option HeadInfo
  pub ots_key_states : BTreeMap OtsWatermark

unfoldable pub new : MemoryStore
new = record { blocks = []; states = []; head = none; ots_key_states = [] }

unfoldable pub save_block :
    MemoryStore → Bytes32 → SignedBlockWithAttestation → Outcome MemoryStore StorageError (Unit {0})
save_block self root block = (record self { blocks = Hash.insert self.blocks root block }, ok tt)

unfoldable pub save_state :
    MemoryStore → Bytes32 → State → Outcome MemoryStore StorageError (Unit {0})
save_state self root state = (record self { states = Hash.insert self.states root state }, ok tt)

unfoldable pub save_head : MemoryStore → HeadInfo → Outcome MemoryStore StorageError (Unit {0})
save_head self info = (record self { head = some info }, ok tt)

unfoldable pub save_accepted :
    MemoryStore
    → Bytes32
    → SignedBlockWithAttestation
    → State
    → HeadInfo
    → Outcome MemoryStore StorageError (Unit {0})
save_accepted self block_root block state head = (
  record self {
    blocks = Hash.insert self.blocks block_root block;
    states = Hash.insert self.states block_root state;
    head = some head;
  },
  ok tt,
)

unfoldable pub has_block : MemoryStore → Bytes32 → Result StorageError Bool
has_block self root = ok (contains_key self.blocks root)

unfoldable pub has_state : MemoryStore → Bytes32 → Result StorageError Bool
has_state self root = ok (contains_key self.states root)

unfoldable pub load_block :
    MemoryStore → Bytes32 → Result StorageError (Option SignedBlockWithAttestation)
load_block self root = ok (Hash.get self.blocks root)

unfoldable pub load_state : MemoryStore → Bytes32 → Result StorageError (Option State)
load_state self root = ok (Hash.get self.states root)

unfoldable pub load_head : MemoryStore → Result StorageError (Option HeadInfo)
load_head self = ok self.head

unfoldable pub save_ots_key_state :
    MemoryStore → ℕ → OtsWatermark → Outcome MemoryStore StorageError (Unit {0})
save_ots_key_state self validator watermark =
    (record self { ots_key_states = BTree.insert validator watermark self.ots_key_states }, ok tt)

unfoldable pub load_ots_key_state : MemoryStore → ℕ → Result StorageError (Option OtsWatermark)
load_ots_key_state self validator = ok (BTree.lookup validator self.ots_key_states)

-- `impl Store for MemoryStore`
abbrev pub memory : Backend MemoryStore StorageError
memory = record {
  save_block = save_block;
  save_state = save_state;
  save_head = save_head;
  save_accepted = save_accepted;
  has_block = has_block;
  has_state = has_state;
  load_block = load_block;
  load_state = load_state;
  load_head = load_head;
  save_ots_key_state = save_ots_key_state;
  load_ots_key_state = load_ots_key_state;
}

-- What it holds, by lookup.
abbrev pub held : MemoryStore → Contents
held s = record {
  blocks = Hash.get s.blocks;
  states = Hash.get s.states;
  head = s.head;
  watermarks = λ v. BTree.lookup v s.ots_key_states;
}

module _ {ℓ} {V : Type ℓ} (m : HashMap V) (k : ℕ) where
  get-insert-put : (v : V) → Hash.get (Hash.insert m k v) ≡ put (Hash.get m) k v
  get-insert-put v = fun_ext (λ j. Hash.get-insert m k j v)

  contains_key-is_some : contains_key m k ≡ is_some (Hash.get m k)
  unfolding contains_key
  contains_key-is_some = ground arith

memory-Writer : Writer memory held
unfolding save_block save_state save_head save_ots_key_state load_ots_key_state
memory-Writer = record {
  saves_block = λ s r block. inl (refl, rw (get-insert-put s.blocks r block) refl);
  saves_state = λ s r state. inl (refl, rw (get-insert-put s.states r state) refl);
  saves_head = λ s info. inl (refl, refl);
  saves_watermark = λ s v w. inl (
    refl,
    ap (λ m. record (held s) { watermarks = m })
        (fun_ext (λ j. BTree.lookup-insert v j w s.ots_key_states)),
  );
  loads_watermark = λ s v found h. ok_inj _ _ (sym h);
}

memory-Accepts :
    (s : MemoryStore) (root : Bytes32) (block : SignedBlockWithAttestation) (state : State)
    (info : HeadInfo)
    → Accepts root block state info
        (held s)
        (held (save_accepted s root block state info).0)
        (save_accepted s root block state info).1
unfolding default_save_accepted save_accepted save_block save_state save_head
memory-Accepts s root block state info =
    default_save_accepted-Accepts root block state info memory held memory-Writer s

-- The in-memory adapter keeps the whole contract, and saving an accepted block always succeeds.
pub memory-IsStore :
    IsStore memory held
    × ((s : MemoryStore) (root : Bytes32) (block : SignedBlockWithAttestation) (state : State)
          (info : HeadInfo)
        → (save_accepted s root block state info).1 ≡ ok tt)
unfolding save_accepted has_block has_state load_block load_state load_head
memory-IsStore = (
  record {
    writer = memory-Writer;
    saves_accepted = memory-Accepts;
    has_block = λ s r found h. ok_inj _ _ (sym h) ∙ contains_key-is_some s.blocks r;
    has_state = λ s r found h. ok_inj _ _ (sym h) ∙ contains_key-is_some s.states r;
    loads_block = λ s r found h. ok_inj _ _ (sym h);
    loads_state = λ s r found h. ok_inj _ _ (sym h);
    loads_head = λ s found h. ok_inj _ _ (sym h);
  },
  λ s root block state info. refl,
)
