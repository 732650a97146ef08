-- ===== src/Protocol/Transition/Justifications/Table.antt =====
-- The table stays sorted and even, and grows by at most one root for each vote.
use mathlib.Core.Path.{subst}
use lean_rust.Prelude.{
  ok_inj, ==→≡, u64_mod, not, ◌||◌, ℕ, zero, suc, ◌+◌, ◌*◌, ◌≤◌, ◌≡◌, refl, sym, ap, inl, inr, Bool,
  List, [], ◌∷◌, length, leb, ◌==◌, Bool-cases, ok, arith,
}
use lean_rust.Types.Endian.{Bytes32}
use lean_rust.Types.Bitlist.{Bitlist}
use lean_rust.Maps.BTree
use lean_rust.Maps.BTree.{BTreeMap, Values, IsSorted, insert, remove}
use lean_rust.Protocol.State.{State}
use lean_rust.Protocol.Transition.Justifications.{
  Justifications, read_votes, read_table, from_state,
}
use lean_rust.Protocol.Transition.Justifications.RoundTrip.{IsTallied}

length-insert {ℓ} :
    {V : Type ℓ} (k : ℕ) (v : V) (m : BTreeMap V) → length (BTree.insert k v m) ≤ length m + 1
unfolding BTree.insert
length-insert k v [] = omega arith
length-insert k v ((i, w) ∷ m) = ground (arith, length-insert k v m)

length-remove {ℓ} : {V : Type ℓ} (k : ℕ) (m : BTreeMap V) → length (BTree.remove k m) ≤ length m
unfolding BTree.remove
length-remove k [] = omega arith
length-remove k ((i, w) ∷ m) = ground (arith, length-remove k m)

length-read_votes : (bits : Bitlist) (i count : ℕ) → length (read_votes bits i count) ≡ count
unfolding read_votes
length-read_votes bits i zero = refl
length-read_votes bits i (suc count) = ap suc (length-read_votes bits (i + 1) count)

-- A tallied table of at most `size` roots.
pub record IsBounded (n size : ℕ) (j : Justifications) : Type 0 where
  pub tallied : IsTallied n j
  pub few : length j.table ≤ size

read_table-IsBounded :
    (bits : Bitlist) (n i size : ℕ) (roots : List Bytes32) (table : BTreeMap (List Bool))
    → IsBounded n size (record { table = table; num_validators = n })
    → IsBounded n
        (size + length roots)
        (record { table = read_table bits n i roots table; num_validators = n })
unfolding read_table
read_table-IsBounded bits n i size [] table b = record {
  tallied = b.tallied;
  few = omega (arith, b.few);
}
read_table-IsBounded bits n i size (root ∷ roots) table b =
    let next =
      read_table-IsBounded bits n (i + 1) (size + 1) roots
        (BTree.insert root (read_votes bits (i * n) n) table)
        (record {
          tallied = record {
            sized = refl;
            sorted = BTree.insert-IsSorted root _ table b.tallied.sorted;
            even =
                BTree.Values-insert (λ votes. length votes ≡ n) root _ table
                  (length-read_votes bits (i * n) n) b.tallied.even;
          };
          few = omega (arith, b.few, length-insert root (read_votes bits (i * n) n) table);
        }) in
    record { tallied = next.tallied; few = omega (arith, next.few) }

-- What a state's tallies read as, if they can be read.
pub from_state-IsBounded :
    (s : State) {j : Justifications}
    → from_state s ≡ ok j
    → IsBounded (length s.validators) (length s.justifications_roots) j
unfolding from_state
from_state-IsBounded s {j} h =
    let n = length s.validators in
    let expected = length s.justifications_roots * n in
    elim (Bool-cases (n == 0)) [
      | inl none_left ↦
          subst (λ x. IsBounded n (length s.justifications_roots) x)
            (ok_inj _ _ (rw none_left at h))
            (record {
              tallied = record { sized = sym (==→≡ n 0 none_left); sorted = tt; even = tt };
              few = omega arith;
            })
      | inr some_left ↦
          elim (Bool-cases
            (leb u64_mod expected || not (s.justifications_validators.length == expected))) [
              | inl wrong ↦ cc (rw (some_left, wrong) at h)
              | inr right ↦
                  subst (λ x. IsBounded n (length s.justifications_roots) x)
                    (ok_inj _ _ (rw (some_left, right) at h))
                    (let read =
                        read_table-IsBounded s.justifications_validators n 0 0
                          s.justifications_roots []
                          (record {
                            tallied = record { sized = refl; sorted = tt; even = tt };
                            few = omega arith;
                          }) in
                      record { tallied = read.tallied; few = omega (arith, read.few) })
            ]
    ]

module _ (n size : ℕ) (j : Justifications) (b : IsBounded n size j) (root : Bytes32)
    (votes : List Bool) (even : length votes ≡ n) where
  abbrev tallied_table : BTreeMap (List Bool)
  tallied_table = BTree.insert root votes j.table

  pub insert-IsBounded : IsBounded n (size + 1) (record j { table = tallied_table })
  insert-IsBounded = record {
    tallied = record {
      sized = b.tallied.sized;
      sorted = BTree.insert-IsSorted root votes j.table b.tallied.sorted;
      even = BTree.Values-insert (λ v. length v ≡ n) root votes j.table even b.tallied.even;
    };
    few = omega (arith, b.few, length-insert root votes j.table);
  }

  pub remove-IsBounded :
      IsBounded n (size + 1) (record j { table = BTree.remove root tallied_table })
  remove-IsBounded = record {
    tallied = record {
      sized = b.tallied.sized;
      sorted = BTree.remove-IsSorted root tallied_table insert-IsBounded.tallied.sorted;
      even =
          BTree.Values-remove (λ v. length v ≡ n) root tallied_table insert-IsBounded.tallied.even;
    };
    few = omega (arith, insert-IsBounded.few, length-remove root tallied_table);
  }
