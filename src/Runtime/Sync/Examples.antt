-- ===== src/Runtime/Sync/Examples.antt =====
-- A walk of one hop.
use lean_rust.Prelude.{◌≡◌, refl, [], ◌∷◌, ok, arith, length, ◌==◌, inr, ◌≤◌, false}
use lean_rust.Types.Endian.{Bytes32}
use lean_rust.Protocol.Block.{block_root}
use lean_rust.Runtime.Engine.{EngineError}
use lean_rust.Runtime.Sync.{WalkSource, responds, walk_back_with}
use lean_rust.Runtime.Sync.Walk.{IsChain, Serves, walk_back_with-IsChain, walk_back_with-Serves}
use lean_rust.Runtime.Examples.{first_byte, signed, signed-root}

-- A peer that always answers with the block at slot 1, to a node that knows the anchor.
abbrev peer : WalkSource EngineError
peer i root = record {
  is_cancelled = false;
  has_block = ok (root == 1);
  answer = responds (signed ∷ []);
}

abbrev tip : Bytes32
tip = block_root first_byte signed.message.block

peer-Serves : Serves first_byte peer 0 tip (signed ∷ [])
peer-Serves = (
  refl,
  λ origin. omega (arith, origin, signed-root),
  rw signed-root refl,
  refl,
  (refl, inr refl),
)

walk_back_with-Serves_example : walk_back_with first_byte peer 4 tip ≡ ok (signed ∷ [])
walk_back_with-Serves_example =
    walk_back_with-Serves first_byte peer 4 tip (signed ∷ []) (refl, tt) peer-Serves (omega arith)

walk_back_with-IsChain_example : IsChain first_byte tip (signed ∷ []) × (length (signed ∷ []) ≤ 4)
walk_back_with-IsChain_example =
    walk_back_with-IsChain first_byte peer 4 tip (signed ∷ []) walk_back_with-Serves_example
