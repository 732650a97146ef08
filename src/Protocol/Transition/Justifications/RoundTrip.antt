-- ===== src/Protocol/Transition/Justifications/RoundTrip.antt =====
-- Reading a written table back gives the table.
use mathlib.Core.List.{append_assoc, append-nil}
use lean_rust.Prelude.{
  ℕ, suc, ◌+◌, ◌*◌, ◌≤◌, ◌<◌, ◌≡◌, refl, sym, ◌∙◌, ap, Bool, false, List, [], ◌∷◌, ◌++◌, length,
  length-append, get_or, get_or-append_left, ok, arith,
}
use lean_rust.Types.Bitlist.{Bitlist}
use lean_rust.Maps.BTree.{BTreeMap, Values, Above, IsSorted, insert}
use lean_rust.Protocol.Limits.{justifications_validators_limit}
use lean_rust.Protocol.State.{State}
use lean_rust.Protocol.Transition.Justifications.{
  Justifications, bit_or_false, read_votes, read_table, from_state, keys, write_back,
}
use lean_rust.Protocol.Transition.Justifications.Flat.{
  all_votes, length-all_votes, flatten-Flattens,
}

-- From position `at` on, the bits are those of `votes`.
abbrev Holds : Bitlist → ℕ → List Bool → Type 0
Holds flat at votes = (k : ℕ) → k < length votes → bit_or_false flat (at + k) ≡ get_or votes k false

read_votes-eq :
    (flat : Bitlist) (at : ℕ) (votes : List Bool)
    → Holds flat at votes
    → read_votes flat at (length votes) ≡ votes
unfolding read_votes
read_votes-eq flat at [] h = refl
read_votes-eq flat at (b ∷ votes) h =
    let here : at + 0 ≡ at = omega arith in
    rw (rw here at (h 0 (omega arith))) (
      ap (λ r. b ∷ r)
        (read_votes-eq flat (at + 1) votes (λ k hk.
          let next : at + suc k ≡ at + 1 + k = omega arith in
          rw next at (h (suc k) (omega arith)))))

get_or-append_right :
    (xs ys : List Bool) (k : ℕ) → get_or (xs ++ ys) (length xs + k) false ≡ get_or ys k false
get_or-append_right [] ys k = let e : 0 + k ≡ k = omega arith in rw e
get_or-append_right (x ∷ xs) ys k =
    let e : suc (length xs) + k ≡ suc (length xs + k) = omega arith in
    rw e (get_or-append_right xs ys k)

Above-append :
    (j k : ℕ) (v : List Bool) (acc t : BTreeMap (List Bool)) → Above j (acc ++ (k, v) ∷ t) → j < k
Above-append j k v [] t h = h.0
Above-append j k v ((i, w) ∷ acc) t h = Above-append j k v acc t h.1

-- A key above all others goes to the end.
insert_last :
    (k : ℕ) (v : List Bool) (acc t : BTreeMap (List Bool))
    → IsSorted (acc ++ (k, v) ∷ t)
    → insert k v acc ≡ acc ++ (k, v) ∷ []
unfolding insert
insert_last k v [] t h = refl
insert_last k v ((i, w) ∷ acc) t h =
    ground (arith, Above-append i k v acc t h.0, insert_last k v acc t h.1)

read_table-eq :
    (flat : Bitlist) (n i : ℕ) (acc table : BTreeMap (List Bool))
    → Values (λ votes. length votes ≡ n) table
    → IsSorted (acc ++ table)
    → Holds flat (i * n) (all_votes table)
    → read_table flat n i (keys table) acc ≡ acc ++ table
unfolding read_table
read_table-eq flat n i acc [] even sorted holds = sym (append-nil acc)
read_table-eq flat n i acc ((root, votes) ∷ table) even sorted holds =
    let mine : read_votes flat (i * n) n ≡ votes = rw even.0 at (
      read_votes-eq flat (i * n) votes (λ k hk.
        holds k (omega (arith, length-append {0} votes (all_votes table)))
        ∙ get_or-append_left votes (all_votes table) k false hk)) in
    let later : Holds flat ((i + 1) * n) (all_votes table) = λ k hk.
      let place : i * n + (length votes + k) ≡ (i + 1) * n + k = omega (arith, even.0) in
      rw place at
        (holds (length votes + k) (omega (arith, length-append {0} votes (all_votes table))))
      ∙ get_or-append_right votes (all_votes table) k in
    ap (λ a. read_table flat n (i + 1) (keys table) a)
      (ap (λ v. insert root v acc) mine ∙ insert_last root votes acc table sorted)
    ∙ read_table-eq flat n (i + 1) (acc ++ (root, votes) ∷ []) table even.1
        (rw (append_assoc acc ((root, votes) ∷ []) table) sorted) later
    ∙ append_assoc acc ((root, votes) ∷ []) table

length-keys : (table : BTreeMap (List Bool)) → length (keys table) ≡ length table
length-keys [] = refl
length-keys ((root, votes) ∷ table) = ap suc (length-keys table)

-- A table whose keys ascend and whose vote lists have one place for each validator.
pub record IsTallied (n : ℕ) (j : Justifications) : Type 0 where
  pub sized : j.num_validators ≡ n
  pub sorted : IsSorted j.table
  pub even : Values (λ votes. length votes ≡ n) j.table

-- A state whose flat bits are those of a tallied table reads back as the table.
from_state-flat :
    (j : Justifications) (s : State) (flat : Bitlist)
    → 0 < length s.validators
    → IsTallied (length s.validators) j
    → flat.length ≡ length j.table * length s.validators
    → length j.table * length s.validators ≤ justifications_validators_limit
    → Holds flat 0 (all_votes j.table)
    → from_state
        (record s { justifications_roots = keys j.table; justifications_validators = flat })
      ≡ ok j
unfolding from_state
from_state-flat j s flat some_validator tallied long room holds =
    let n = length s.validators in
    let start : 0 * n ≡ 0 = omega arith in
    let same = read_table-eq flat n 0 [] j.table tallied.even tallied.sorted (rw start holds) in
    rw (length-keys j.table, same) (ground arith)

-- What `write_back` leaves behind.
abbrev pub written : Justifications → State → Bitlist → State
written j s flat = record s {
  justifications_roots = keys j.table;
  justifications_validators = flat;
}

pub write_back-eq :
    (j : Justifications) (s : State)
    → IsTallied (length s.validators) j
    → length j.table * length s.validators ≤ justifications_validators_limit
    → (flat : Bitlist) × (write_back j s ≡ (written j s flat, ok tt))
      × (0 < length s.validators → from_state (written j s flat) ≡ ok j)
unfolding write_back
write_back-eq j s tallied room =
    let n = length s.validators in
    let even : Values (λ votes. length votes ≡ j.num_validators) j.table =
      rw tallied.sized tallied.even in
    let f = flatten-Flattens j even (rw tallied.sized room) in
    let long : f.flat.length ≡ length j.table * n = rw tallied.sized at f.long in
    let holds : Holds f.flat 0 (all_votes j.table) = λ k hk.
      let place : 0 + k ≡ k = omega arith in
      rw place (
        ground (
          arith,
          f.bits k (omega (arith, long, f.long, length-all_votes n j.table tallied.even)),
        )) in
    (
      f.flat,
      rw f.returns,
      λ some_validator. from_state-flat j s f.flat some_validator tallied long room holds,
    )

-- Within the limit, writing a tallied table to a state with validators succeeds, and reading it back
-- from the new state gives the table.
pub from_state-write_back :
    (j : Justifications) (s : State)
    → 0 < length s.validators
    → IsTallied (length s.validators) j
    → length j.table * length s.validators ≤ justifications_validators_limit
    → (s' : State) × (write_back j s ≡ (s', ok tt)) × (from_state s' ≡ ok j)
from_state-write_back j s some_validator tallied room =
    let (flat, returns, reads) = write_back-eq j s tallied room in
    (written j s flat, returns, reads some_validator)
