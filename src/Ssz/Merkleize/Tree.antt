-- ===== src/Ssz/Merkleize/Tree.antt =====
-- The reference: a full binary tree over numbered leaves, split from the top.
use lean_rust.Prelude.{
  ℕ, zero, suc, ◌+◌, ◌*◌, ◌/◌, ◌^◌, ◌≤◌, ◌<◌, ◌≡◌, refl, sym, ap, ◌∙◌, List, [], ◌∷◌, length,
  get_or, pow_double, pow_pos, arith,
}
use mathlib.Core.Path.{fun_ext}
use lean_rust.Types.Endian.{Bytes32}
use lean_rust.Ssz.Merkleize.{Sha256, zero_hash, hash_pair, next_level, reduce, zero_loop}

module _ (sha256 : Sha256) where
  -- The root over the leaves 0, .., 2 ^ depth - 1.
  abbrev pub tree : ℕ → (ℕ → Bytes32) → Bytes32
  tree zero leaf = leaf 0
  tree (suc depth) leaf =
      hash_pair sha256 (tree depth leaf) (tree depth (λ i. leaf (2 ^ depth + i)))

  abbrev pub zeros : ℕ → Bytes32
  zeros i = zero_hash

  abbrev pairs : (ℕ → Bytes32) → ℕ → Bytes32
  pairs leaf i = hash_pair sha256 (leaf (2 * i)) (leaf (2 * i + 1))

  -- The same tree, built from the bottom.
  tree-pairs : (depth : ℕ) (leaf : ℕ → Bytes32) → tree (suc depth) leaf ≡ tree depth (pairs leaf)
  tree-pairs zero leaf = refl
  tree-pairs (suc depth) leaf =
      let shifted : (λ i. pairs (λ j. leaf (2 ^ suc depth + j)) i)
          ≡ (λ i. pairs leaf (2 ^ depth + i)) =
        fun_ext (λ i.
          let even : 2 ^ suc depth + 2 * i ≡ 2 * (2 ^ depth + i) =
            omega (arith, pow_double depth) in
          let odd : 2 ^ suc depth + (2 * i + 1) ≡ 2 * (2 ^ depth + i) + 1 =
            omega (arith, pow_double depth) in
          rw (even, odd) refl) in
      rw (tree-pairs depth leaf, tree-pairs depth (λ j. leaf (2 ^ suc depth + j)), shifted) refl

  pub tree-cong :
      (depth : ℕ) (f g : ℕ → Bytes32)
      → ((i : ℕ) → i < 2 ^ depth → f i ≡ g i)
      → tree depth f ≡ tree depth g
  tree-cong zero f g h = h 0 (omega arith)
  tree-cong (suc depth) f g h =
      rw
        (
          tree-cong depth f g (λ i hi. h i (omega (arith, hi, pow_double depth))),
          tree-cong depth (λ i. f (2 ^ depth + i)) (λ i. g (2 ^ depth + i))
              (λ i hi. h (2 ^ depth + i) (omega (arith, hi, pow_double depth))),
        )
        refl

  length-next_level : (level : List Bytes32) → length (next_level sha256 level) ≡ length level / 2
  unfolding next_level
  length-next_level [] = refl
  length-next_level (a ∷ []) = refl
  length-next_level (a ∷ b ∷ rest) = omega (arith, length-next_level rest)

  get_or-next_level :
      (level : List Bytes32) (i : ℕ)
      → 2 * i + 1 < length level
      → get_or (next_level sha256 level) i zero_hash ≡ pairs (λ j. get_or level j zero_hash) i
  unfolding next_level
  get_or-next_level [] i h = absurd (omega (arith, h))
  get_or-next_level (a ∷ []) i h = absurd (omega (arith, h))
  get_or-next_level (a ∷ b ∷ rest) zero h = refl
  get_or-next_level (a ∷ b ∷ rest) (suc i) h =
      let even : 2 * suc i ≡ suc (suc (2 * i)) = omega arith in
      let odd : suc (suc (2 * i)) + 1 ≡ suc (suc (2 * i + 1)) = omega arith in
      get_or-next_level rest i (omega (arith, h)) ∙ rw (even, odd) refl

  reduce_step :
      (fuel : ℕ) (level : List Bytes32)
      → 1 < length level
      → reduce sha256 (suc fuel) level ≡ reduce sha256 fuel (next_level sha256 level)
  unfolding reduce
  reduce_step fuel level wide = ground (arith, wide)

  zero_loop_step :
      (fuel width : ℕ) (root : Bytes32)
      → 1 < width
      → zero_loop sha256 (suc fuel) width root
        ≡ zero_loop sha256 fuel (width / 2) (hash_pair sha256 root root)
  unfolding zero_loop
  zero_loop_step fuel width root wide = ground (arith, wide)

  -- Halving a full level down gives the root of the tree over it.
  pub reduce-tree :
      (depth fuel : ℕ) (level : List Bytes32)
      → length level ≡ 2 ^ depth
      → depth ≤ fuel
      → get_or (reduce sha256 fuel level) 0 zero_hash ≡ tree depth (λ i. get_or level i zero_hash)
  unfolding reduce
  reduce-tree zero zero level full enough = refl
  reduce-tree zero (suc fuel) level full enough = ground (arith, full)
  reduce-tree (suc depth) zero level full enough = absurd (omega (arith, enough))
  reduce-tree (suc depth) (suc fuel) level full enough =
      let wide : 1 < length level = omega (arith, full, pow_double depth, pow_pos depth) in
      let half : length (next_level sha256 level) ≡ 2 ^ depth =
        omega (arith, length-next_level level, full, pow_double depth) in
      ap (λ xs. get_or xs 0 zero_hash) (reduce_step fuel level wide)
      ∙ (reduce-tree depth fuel (next_level sha256 level) half (omega (arith, enough))
          ∙ tree-cong depth (λ i. get_or (next_level sha256 level) i zero_hash)
              (pairs (λ i. get_or level i zero_hash))
              (λ i hi. get_or-next_level level i (omega (arith, hi, full, pow_double depth)))
          ∙ sym (tree-pairs depth (λ i. get_or level i zero_hash)))

  -- Doubling up gives the root of an empty tree.
  pub zero_loop-tree :
      (depth fuel done : ℕ)
      → depth ≤ fuel
      → zero_loop sha256 fuel (2 ^ depth) (tree done zeros) ≡ tree (done + depth) zeros
  unfolding zero_loop
  zero_loop-tree zero zero done h = let e : done + 0 ≡ done = omega arith in rw e refl
  zero_loop-tree zero (suc fuel) done h = let e : done + 0 ≡ done = omega arith in rw e refl
  zero_loop-tree (suc depth) zero done h = absurd (omega (arith, h))
  zero_loop-tree (suc depth) (suc fuel) done h =
      let wide : 1 < 2 ^ suc depth = omega (arith, pow_double depth, pow_pos depth) in
      let half : 2 ^ suc depth / 2 ≡ 2 ^ depth = omega (arith, pow_double depth) in
      let e : suc done + depth ≡ done + suc depth = omega arith in
      zero_loop_step fuel (2 ^ suc depth) (tree done zeros) wide
      ∙ rw half (zero_loop-tree depth fuel (suc done) (omega (arith, h)) ∙ rw e refl)
