-- ===== src/Ssz/Merkleize/Limit.antt =====
-- `merkleize_with_limit` gives the root of the whole tree, without building it.
use lean_rust.Prelude.{
  ℕ, zero, suc, ◌+◌, ◌-◌, ◌*◌, ◌^◌, ◌≤◌, ◌<◌, ◌≡◌, refl, sym, ap, ◌∙◌, ◌⊎◌, min, true, false, List,
  [], ◌∷◌, ◌++◌, length, get_or, replicate, take_all, length-append, length-replicate,
  get_or-append_default, get_or_beyond, ltb, leb, ◌==◌, lt→leb, le→leb, leb→le, leb→lt, pow_double,
  pow_pos, pow_mono, bit_length, lt-pow-bit_length, pow-bit_length-le, Bool-cases, inl, inr, ok,
  u64_mod, arith,
}
use native.Mathlib.Decide.{dec_lt, dec_le}
use lean_rust.Types.Endian.{Bytes32}
use lean_rust.Ssz.Merkleize.{
  Sha256, zero_hash, hash_pair, resize, power_of_two_ceil, merkleize_partial, zero_tree_root,
  extend_loop, extend_with_zero_siblings, merkleize_with_limit,
}
use lean_rust.Ssz.Merkleize.Tree.{tree, zeros, tree-cong, reduce-tree, zero_loop-tree}

-- Rounding up to a power of two.
record Rounds (x power : ℕ) : Type 0 where
  depth : ℕ
  small : depth ≤ 63
  value : power ≡ 2 ^ depth
  covers : x ≤ 2 ^ depth
  tight : (depth ≡ 0) ⊎ (2 ^ depth ≤ 2 * (x - 1))

power_of_two_ceil-Rounds : (x : ℕ) → x ≤ 2 ^ 63 → Rounds x (power_of_two_ceil x)
unfolding power_of_two_ceil
power_of_two_ceil-Rounds x h = elim (Bool-cases (leb x 1)) [
  | inl e ↦ record {
    depth = 0;
    small = omega arith;
    value = rw e refl;
    covers = leb→le _ _ e;
    tight = inl refl;
  }
  | inr e ↦
      let bits = bit_length 64 (x - 1) in
      let low : 2 ^ bits ≤ 2 * (x - 1) =
        pow-bit_length-le 64 (x - 1) (omega (arith, leb→lt _ _ e)) in
      let few : bits < 64 = elim (dec_lt bits 64) [
        | yes lt ↦ lt
        | no ge ↦ absurd (omega (arith, pow_mono 64 bits (omega (arith, ge)), low, h))
      ] in
      record {
        depth = bits;
        small = omega (arith, few);
        value = rw (e, lt→leb 64 bits few) refl;
        covers = omega (arith, lt-pow-bit_length 64 (x - 1) (omega (arith, h)), leb→lt _ _ e);
        tight = inr low;
      }
]

pow_cancel : (a b : ℕ) → 2 ^ a < 2 * 2 ^ b → a ≤ b
pow_cancel a b h = elim (dec_le a b) [
  | yes le ↦ le
  | no gt ↦ absurd (omega (arith, h, pow_double b, pow_mono (suc b) a (omega (arith, gt))))
]

module _ (sha256 : Sha256) where
  abbrev leaves : List Bytes32 → ℕ → Bytes32
  leaves chunks i = get_or chunks i zero_hash

  zero_tree_root-tree :
      (depth : ℕ)
      → depth ≤ 64
      → zero_tree_root sha256 (2 ^ depth) ≡ tree sha256 depth (zeros sha256)
  unfolding zero_tree_root
  zero_tree_root-tree zero h = refl
  zero_tree_root-tree (suc depth) h =
      let wide : 1 < 2 ^ suc depth = omega (arith, pow_double depth, pow_pos depth) in
      let e : 0 + suc depth ≡ suc depth = omega arith in
      rw (lt→leb _ _ wide) (zero_loop-tree sha256 (suc depth) 64 0 h ∙ rw e refl)

  resize-eq :
      (chunks : List Bytes32) (n : ℕ)
      → length chunks ≤ n
      → resize chunks n ≡ chunks ++ replicate (n - length chunks) zero_hash
  resize-eq chunks n h =
      ap (λ xs. xs ++ replicate (n - length chunks) zero_hash) (take_all n chunks h)

  merkleize_partial-tree :
      (depth : ℕ) (chunks : List Bytes32)
      → depth ≤ 64
      → length chunks ≤ 2 ^ depth
      → merkleize_partial sha256 chunks (2 ^ depth) ≡ tree sha256 depth (leaves chunks)
  unfolding merkleize_partial
  merkleize_partial-tree zero chunks h fits = refl
  merkleize_partial-tree (suc depth) chunks h fits =
      let n = 2 ^ suc depth in
      let wide : 1 < n = omega (arith, pow_double depth, pow_pos depth) in
      let padded = chunks ++ replicate (n - length chunks) zero_hash in
      let full : length padded ≡ n = omega (
        arith,
        fits,
        length-append {0} chunks (replicate (n - length chunks) zero_hash),
        length-replicate {A = ℕ} (n - length chunks) zero_hash,
      ) in
      rw (lt→leb _ _ wide, resize-eq chunks n fits)
        (reduce-tree sha256 (suc depth) 64 padded full h
          ∙ tree-cong sha256 (suc depth) (leaves padded) (leaves chunks)
              (λ i _. get_or-append_default chunks (n - length chunks) i zero_hash))

  extend_stop :
      (fuel to : ℕ) (zero_sibling current : Bytes32)
      → extend_loop sha256 (suc fuel) to to zero_sibling current ≡ current
  unfolding extend_loop
  extend_stop fuel to zero_sibling current = ground arith

  extend_step :
      (fuel width to : ℕ) (zero_sibling current : Bytes32)
      → width < to
      → extend_loop sha256 (suc fuel) width to zero_sibling current
        ≡ extend_loop sha256 fuel
            (min (width * 2) (u64_mod - 1))
            to
            (hash_pair sha256 zero_sibling zero_sibling)
            (hash_pair sha256 current zero_sibling)
  unfolding extend_loop
  extend_step fuel width to zero_sibling current more = ground (arith, more)

  extend_loop-tree :
      (fuel from to : ℕ) (leaf : ℕ → Bytes32)
      → from ≤ to
      → to ≤ from + fuel
      → to ≤ 63
      → ((i : ℕ) → 2 ^ from ≤ i → leaf i ≡ zero_hash)
      → extend_loop sha256 fuel
          (2 ^ from)
          (2 ^ to)
          (tree sha256 from (zeros sha256))
          (tree sha256 from leaf)
        ≡ tree sha256 to leaf
  unfolding extend_loop
  extend_loop-tree zero from to leaf le enough small empty =
      let e : from ≡ to = omega (arith, le, enough) in rw e refl
  extend_loop-tree (suc fuel) from to leaf le enough small empty = elim (dec_lt from to) [
    | no done ↦
        let e : from ≡ to = omega (arith, le, done) in
        rw e (extend_stop fuel (2 ^ to) (tree sha256 to (zeros sha256)) (tree sha256 to leaf))
    | yes more ↦
        let above = pow_mono (suc from) to more in
        let wider : 2 ^ from < 2 ^ to = omega (arith, above, pow_double from, pow_pos from) in
        let double : min (2 ^ from * 2) (u64_mod - 1) ≡ 2 ^ suc from =
          omega (arith, pow_double from, above, pow_mono to 63 small) in
        let right : tree sha256 from (λ i. leaf (2 ^ from + i)) ≡ tree sha256 from (zeros sha256) =
          tree-cong sha256 from (λ i. leaf (2 ^ from + i)) (zeros sha256)
            (λ i _. empty (2 ^ from + i) (omega arith)) in
        let grown : hash_pair sha256 (tree sha256 from leaf) (tree sha256 from (zeros sha256))
            ≡ tree sha256 (suc from) leaf =
          rw (sym right) refl in
        extend_step fuel (2 ^ from) (2 ^ to) (tree sha256 from (zeros sha256))
          (tree sha256 from leaf) wider
        ∙ rw (double, grown)
            (extend_loop-tree fuel (suc from) to leaf more (omega (arith, enough)) small
              (λ i hi. empty i (omega (arith, hi, pow_double from))))
  ]

  -- The whole tree of a limit: as many leaves as the limit rounded up to a power of two, the chunks
  -- first, then zeros.
  pub record IsLimitRoot (chunks : List Bytes32) (limit : ℕ) (root : Bytes32) : Type 0 where
    pub depth : ℕ
    pub width : power_of_two_ceil limit ≡ 2 ^ depth
    pub is_root : root ≡ tree sha256 depth (leaves chunks)

  -- With no more chunks than the limit, and a limit of at most 2 ^ 63, the call returns the root of the
  -- full tree with the limit rounded up to a power of two for its leaves: the chunks first, then zeros.
  pub merkleize_with_limit-IsLimitRoot :
      (chunks : List Bytes32) (limit : ℕ)
      → length chunks ≤ limit
      → limit ≤ 2 ^ 63
      → (root : Bytes32) × (merkleize_with_limit sha256 chunks limit ≡ ok root)
        × IsLimitRoot chunks limit root
  unfolding merkleize_with_limit extend_with_zero_siblings
  merkleize_with_limit-IsLimitRoot [] limit fits bound =
      let l = power_of_two_ceil-Rounds limit bound in
      (
        tree sha256 l.depth (zeros sha256),
        rw (l.value) (ap ok (zero_tree_root-tree l.depth (omega (arith, l.small)))),
        record { depth = l.depth; width = l.value; is_root = refl },
      )
  merkleize_with_limit-IsLimitRoot (c ∷ cs) limit fits bound =
      let chunks = c ∷ cs in
      let l = power_of_two_ceil-Rounds limit bound in
      let a = power_of_two_ceil-Rounds (length chunks) (omega (arith, fits, bound)) in
      let part = merkleize_partial-tree a.depth chunks (omega (arith, a.small)) a.covers in
      let below : a.depth ≤ l.depth = elim a.tight [
        | inl none_up ↦ omega (arith, none_up)
        | inr tight ↦
            pow_cancel a.depth l.depth (omega (arith, tight, fits, l.covers, pow_pos l.depth))
      ] in
      let nonempty : (length chunks == 0) ≡ false = ground arith in
      let fitting : ltb limit (length chunks) ≡ false = ground (arith, fits) in
      (
        tree sha256 l.depth (leaves chunks),
        elim (dec_lt a.depth l.depth) [
          | no level ↦
              let same : a.depth ≡ l.depth = omega (arith, below, level) in
              let wide : leb (power_of_two_ceil limit) (power_of_two_ceil (length chunks)) ≡ true =
                rw (l.value, a.value, same) (le→leb (2 ^ l.depth) (2 ^ l.depth) (omega arith)) in
              rw (nonempty, fitting, wide, a.value, part)
                (ap (λ d. ok (tree sha256 d (leaves chunks))) same)
          | yes lower ↦
              let narrow : leb (power_of_two_ceil limit) (power_of_two_ceil (length chunks))
                  ≡ false =
                rw (l.value, a.value)
                  (lt→leb (2 ^ l.depth) (2 ^ a.depth) (
                    omega (
                      arith,
                      pow_mono (suc a.depth) l.depth lower,
                      pow_double a.depth,
                      pow_pos a.depth,
                    ))) in
              rw
                (
                  nonempty,
                  fitting,
                  narrow,
                  a.value,
                  l.value,
                  zero_tree_root-tree a.depth (omega (arith, a.small)),
                  part,
                )
                (ap ok (
                  extend_loop-tree 64 a.depth l.depth (leaves chunks) below (omega (arith, l.small))
                    l.small
                    (λ i hi. get_or_beyond chunks i zero_hash (omega (arith, hi, a.covers)))))
        ],
        record { depth = l.depth; width = l.value; is_root = refl },
      )
