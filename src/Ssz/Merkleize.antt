-- ===== src/Ssz/Merkleize.antt =====
-- crates/ssz/src/merkleize.rs. SHA-256 comes from the `sha2` crate: it is the argument `sha256`, from
-- a byte string to the 32-byte digest. Chunks are `Bytes32` values.
pub mod Tree
pub mod Limit
use package.lean_rust.Prelude.{
  ℕ, zero, suc, ◌+◌, ◌-◌, ◌*◌, ◌/◌, ◌^◌, min, true, false, List, [], ◌∷◌, ◌++◌, length, get_or,
  take, drop, replicate, ltb, leb, ◌==◌, if◌then◌else◌, u64_mod, bit_length, Result, ok, err, ◌>>=◌,
  ◌>>◌, fail_if,
}
use package.lean_rust.Types.Endian.{Bytes32, to_le_bytes, to_be_bytes, from_be_bytes}

-- The variants of `SszError` that merkleization returns.
pub data SszError : Type 0 where
  input_exceeds_limit : ℕ → ℕ → SszError
  invalid_num_leaves : ℕ → SszError

abbrev pub Sha256 : Type 0
Sha256 = List ℕ → Bytes32

abbrev pub bytes_per_chunk : ℕ
bytes_per_chunk = 32

abbrev pub zero_hash : Bytes32
zero_hash = 0

-- Whole chunks of 32 bytes, the last one padded with zeros. Each chunk takes at least one byte, so
-- as many rounds as bytes are enough.
unfoldable pub pack_loop : ℕ → List ℕ → List Bytes32
pack_loop zero bytes = []
pack_loop (suc fuel) [] = []
pack_loop (suc fuel) (b ∷ bs) =
    let chunk = take bytes_per_chunk (b ∷ bs) in
    from_be_bytes (chunk ++ replicate (bytes_per_chunk - length chunk) 0)
    ∷ pack_loop fuel (drop bytes_per_chunk (b ∷ bs))

unfoldable pub pack : List ℕ → List Bytes32
pack bytes = pack_loop (length bytes) bytes

-- 8 bytes little-endian, then 24 zero bytes.
unfoldable pub scalar_chunk : ℕ → Bytes32
scalar_chunk value = from_be_bytes (to_le_bytes 8 value ++ replicate 24 0)

unfoldable pub power_of_two_ceil : ℕ → ℕ
power_of_two_ceil x =
    if leb x 1
    then 1
    else (let bits = bit_length 64 (x - 1) in if leb 64 bits then 2 ^ 63 else 2 ^ bits)

-- `Vec::resize(width, ZERO_HASH)`
abbrev pub resize : List Bytes32 → ℕ → List Bytes32
resize xs n = take n xs ++ replicate (n - length xs) zero_hash

module _ (sha256 : Sha256) where
  unfoldable pub hash_pair : Bytes32 → Bytes32 → Bytes32
  hash_pair left right = sha256 (to_be_bytes 32 left ++ to_be_bytes 32 right)

  -- `level.chunks_exact(2)`
  unfoldable pub next_level : List Bytes32 → List Bytes32
  next_level (a ∷ b ∷ rest) = hash_pair a b ∷ next_level rest
  next_level rest = []

  -- `while level.len() > 1`. Each round halves the level.
  unfoldable pub reduce : ℕ → List Bytes32 → List Bytes32
  reduce zero level = level
  reduce (suc fuel) level = elim (ltb 1 (length level)) [
    | true ↦ reduce fuel (next_level level)
    | false ↦ level
  ]

  unfoldable pub merkleize_partial : List Bytes32 → ℕ → Bytes32
  merkleize_partial chunks width =
      if leb width 1
      then get_or chunks 0 zero_hash
      else get_or (reduce 64 (resize chunks width)) 0 zero_hash

  unfoldable pub merkleize : List Bytes32 → Bytes32
  merkleize [] = zero_hash
  merkleize (c ∷ cs) = merkleize_partial (c ∷ cs) (power_of_two_ceil (length (c ∷ cs)))

  -- `while width > 1`
  unfoldable pub zero_loop : ℕ → ℕ → Bytes32 → Bytes32
  zero_loop zero width root = root
  zero_loop (suc fuel) width root = elim (ltb 1 width) [
    | true ↦ zero_loop fuel (width / 2) (hash_pair root root)
    | false ↦ root
  ]

  unfoldable pub zero_tree_root : ℕ → Bytes32
  zero_tree_root width_pow2 =
      if leb width_pow2 1 then zero_hash else zero_loop 64 width_pow2 zero_hash

  -- `while width < to`, with `saturating_mul`.
  unfoldable pub extend_loop : ℕ → ℕ → ℕ → Bytes32 → Bytes32 → Bytes32
  extend_loop zero width to zero_sibling current = current
  extend_loop (suc fuel) width to zero_sibling current = elim (ltb width to) [
    | true ↦
        extend_loop fuel (min (width * 2) (u64_mod - 1)) to (hash_pair zero_sibling zero_sibling)
          (hash_pair current zero_sibling)
    | false ↦ current
  ]

  unfoldable pub extend_with_zero_siblings : Bytes32 → ℕ → ℕ → Bytes32
  extend_with_zero_siblings root from to = extend_loop 64 from to (zero_tree_root from) root

  unfoldable pub merkleize_with_limit : List Bytes32 → ℕ → Result SszError Bytes32
  merkleize_with_limit chunks limit =
      let n = length chunks in
      let actual_width = power_of_two_ceil n in
      let target_width = power_of_two_ceil limit in
      let root = merkleize_partial chunks actual_width in
      if n == 0
      then ok (zero_tree_root target_width)
      else (if ltb limit n
          then err (input_exceeds_limit n limit)
          else (if leb target_width actual_width
              then ok root
              else ok (extend_with_zero_siblings root actual_width target_width)))

  -- Every round takes at least one chunk, so one round more than there are chunks is enough.
  unfoldable pub progressive_loop : ℕ → List Bytes32 → ℕ → Result SszError Bytes32
  progressive_loop zero chunks num_leaves = ok zero_hash
  progressive_loop (suc fuel) chunks num_leaves = elim (num_leaves == 0) [
    | true ↦ err (invalid_num_leaves num_leaves)
    | false ↦ elim (length chunks == 0) [
      | true ↦ ok zero_hash
      | false ↦ do
        right ← merkleize_with_limit (take (min (length chunks) num_leaves) chunks) num_leaves
        left ← elim (ltb num_leaves (length chunks)) [
          | true ↦
              fail_if (leb u64_mod (num_leaves * 4)) (invalid_num_leaves num_leaves)
              >> progressive_loop fuel (drop num_leaves chunks) (num_leaves * 4)
          | false ↦ ok zero_hash
        ]
        ok (hash_pair left right)
    ]
  ]

  unfoldable pub merkleize_progressive : List Bytes32 → ℕ → Result SszError Bytes32
  merkleize_progressive chunks num_leaves = progressive_loop (length chunks + 1) chunks num_leaves

  unfoldable pub mix_in_length : Bytes32 → ℕ → Bytes32
  mix_in_length root n = hash_pair root (scalar_chunk n)

  unfoldable pub mix_in_selector : Bytes32 → ℕ → Bytes32
  mix_in_selector root selector = hash_pair root (scalar_chunk selector)
