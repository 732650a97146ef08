-- ===== src/Protocol/Roots.antt =====
-- crates/protocol/src/internal.rs, the hash-tree-root helpers, and the root of a `ByteVector` of
-- crates/ssz/src/lib.rs.
use lean_rust.Prelude.{
  ℕ, zero, suc, ◌+◌, ◌/◌, max, true, List, length, replicate, if◌then◌else◌, Result, ok, err,
}
use lean_rust.Types.Endian.{Bytes32, to_be_bytes}
use lean_rust.Types.Bitlist.{Bitlist, div_ceil8, bit_at, write}
use lean_rust.Ssz.Merkleize.{
  SszError, Sha256, zero_hash, scalar_chunk, pack, merkleize, merkleize_with_limit, mix_in_length,
}

-- `u64_chunk`: 8 bytes little-endian and 24 zero bytes, as `scalar_chunk` builds them.
unfoldable pub u64_chunk : ℕ → Bytes32
u64_chunk value = scalar_chunk value

-- `unwrap_or(ZERO_HASH)`
abbrev pub or_zero_hash : Result SszError Bytes32 → Bytes32
or_zero_hash (ok root) = root
or_zero_hash (err e) = zero_hash

-- `for i in bl.iter_set_indices() { data[i / 8] |= 1 << (i % 8) }`, for the `count` indices from `i`.
unfoldable pub copy_bits : List ℕ → ℕ → ℕ → List ℕ → List ℕ
copy_bits bytes zero i out = out
copy_bits bytes (suc count) i out =
    copy_bits bytes count (i + 1) (if bit_at bytes i then write out i true else out)

module _ (sha256 : Sha256) where
  unfoldable pub byte_vector_root : List ℕ → Bytes32
  byte_vector_root bytes = merkleize sha256 (pack bytes)

  -- The root of a `Bytes32`, a vector of 32 bytes.
  unfoldable pub bytes32_root : Bytes32 → Bytes32
  bytes32_root root = byte_vector_root (to_be_bytes 32 root)

  -- Takes the roots of the items.
  unfoldable pub list_hash_tree_root : List Bytes32 → ℕ → Bytes32
  list_hash_tree_root roots limit =
      mix_in_length sha256 (or_zero_hash (merkleize_with_limit sha256 roots limit)) (length roots)

  unfoldable pub bitlist_hash_tree_root : ℕ → Bitlist → Bytes32
  bitlist_hash_tree_root limit b =
      let bits = copy_bits b.bytes b.length 0 (replicate (div_ceil8 b.length) 0) in
      let chunk_limit = max ((limit + 255) / 256) 1 in
      mix_in_length sha256 (or_zero_hash (merkleize_with_limit sha256 (pack bits) chunk_limit))
        b.length
