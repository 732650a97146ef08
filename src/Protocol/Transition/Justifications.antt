-- ===== src/Protocol/Transition/Justifications.antt =====
-- crates/protocol/src/state.rs: `Justifications`, the votes for each target root as a map, read from
-- and written back to the flat bit list of the state.
pub mod Flat
pub mod RoundTrip
pub mod Table
use package.lean_rust.Prelude.{
  ℕ, zero, suc, ◌+◌, ◌*◌, Bool, true, false, ◌||◌, not, Option, none, some, List, [], ◌∷◌, length,
  map, ltb, leb, ◌==◌, if◌then◌else◌, u64_mod, Result, ok, err, ◌>>=◌, ◌>>◌, fail_if, check,
}
use package.lean_rust.Types.Endian.{Bytes32}
use package.lean_rust.Types.Bitlist
use package.lean_rust.Types.Bitlist.{Bitlist}
use package.lean_rust.Maps.BTree
use package.lean_rust.Maps.BTree.{BTreeMap}
use package.lean_rust.Protocol.Limits.{justifications_validators_limit}
use package.lean_rust.Protocol.Errors.{Bound, StateTransitionError, state_bound_exceeded}
use package.lean_rust.Protocol.State.{State}
use package.lean_rust.Protocol.Transition.Slots.{Step}
use package.lean_rust.Protocol.Transition.Header.{bound_error}

pub record Justifications : Type 0 where
  pub table : BTreeMap (List Bool)
  pub num_validators : ℕ

abbrev pub out_of_bounds : StateTransitionError
out_of_bounds = state_bound_exceeded Bound.justifications_validators

-- `bits.get(i).unwrap_or(false)`
abbrev pub bit_or_false : Bitlist → ℕ → Bool
bit_or_false bits i = elim (Bitlist.get bits i) [ none ↦ false | some b ↦ b ]

-- The `count` votes from position `i` on.
unfoldable pub read_votes : Bitlist → ℕ → ℕ → List Bool
read_votes bits i zero = []
read_votes bits i (suc count) = bit_or_false bits i ∷ read_votes bits (i + 1) count

-- `for (i, root) in roots.enumerate()`, from the `i`-th root on.
unfoldable pub read_table :
    Bitlist → ℕ → ℕ → List Bytes32 → BTreeMap (List Bool) → BTreeMap (List Bool)
read_table bits n i [] table = table
read_table bits n i (root ∷ roots) table =
    read_table bits n (i + 1) roots (BTree.insert root (read_votes bits (i * n) n) table)

unfoldable pub from_state : State → Result StateTransitionError Justifications
from_state s =
    let n = length s.validators in
    let expected = length s.justifications_roots * n in
    if n == 0
    then ok (record { table = []; num_validators = 0 })
    else (if leb u64_mod expected || not (s.justifications_validators.length == expected)
        then err out_of_bounds
        else ok (record {
          table = read_table s.justifications_validators n 0 s.justifications_roots [];
          num_validators = n;
        }))

-- `for (j, voted) in votes.enumerate() { if voted { flat.set(i * n + j, true)? } }`, from position `at`.
unfoldable pub write_votes : ℕ → List Bool → Bitlist → Result StateTransitionError Bitlist
write_votes at [] flat = ok flat
write_votes at (false ∷ votes) flat = write_votes (at + 1) votes flat
write_votes at (true ∷ votes) flat =
    bound_error Bound.justifications_validators
      (Bitlist.set_bit justifications_validators_limit flat at true)
    >>= write_votes (at + 1) votes

unfoldable pub write_table :
    ℕ → ℕ → BTreeMap (List Bool) → Bitlist → Result StateTransitionError Bitlist
write_table n i [] flat = ok flat
write_table n i ((root, votes) ∷ table) flat =
    write_votes (i * n) votes flat >>= write_table n (i + 1) table

abbrev pub keys : BTreeMap (List Bool) → List Bytes32
keys [] = []
keys ((root, votes) ∷ table) = root ∷ keys table

unfoldable pub flatten : Justifications → Result StateTransitionError Bitlist
flatten j = do
  let total_bits = length j.table * j.num_validators
  fail_if (leb u64_mod total_bits || ltb justifications_validators_limit total_bits) out_of_bounds
  flat ←
      bound_error Bound.justifications_validators
        (Bitlist.with_length justifications_validators_limit total_bits)
  write_table j.num_validators 0 j.table flat

unfoldable pub write_back : Justifications → State → Step
write_back j s = check s (flatten j) λ flat.
    (record s { justifications_roots = keys j.table; justifications_validators = flat }, ok tt)
