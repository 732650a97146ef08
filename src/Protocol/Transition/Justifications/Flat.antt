-- ===== src/Protocol/Transition/Justifications/Flat.antt =====
-- Writing the table of votes to the flat bit list: it succeeds within the limit, and sets just the
-- bits of the votes.
use lean_rust.Prelude.{
  ℕ, zero, suc, ◌+◌, ◌-◌, ◌*◌, ◌≤◌, ◌<◌, ◌≡◌, refl, ◌∙◌, Bool, true, false, ◌&&◌, some, List, [],
  ◌∷◌, ◌++◌, length, length-append, get_or, leb, ◌==◌, if◌then◌else◌, Result, ok, arith, u64_mod,
  le→ltb, lt→leb,
}
use lean_rust.Types.Bitlist.{Bitlist, get}
use lean_rust.Types.Bitlist.Laws.{
  IsValid, after, zeros, zeros-IsValid, with_length-eq, set_bit-eq, set_bit-IsValid, length-set_bit,
  get-set_bit, get_beyond, get-zeros,
}
use lean_rust.Maps.BTree.{BTreeMap, Values}
use lean_rust.Protocol.Limits.{justifications_validators_limit}
use lean_rust.Protocol.Errors.{StateTransitionError}
use lean_rust.Protocol.Transition.Justifications.{Justifications, write_votes, write_table, flatten}

get_or-cons :
    (b : Bool) (xs : List Bool) (n : ℕ)
    → get_or (b ∷ xs) n false ≡ (if n == 0 then b else get_or xs (n - 1) false)
get_or-cons b xs zero = refl
get_or-cons b xs (suc n) = let e : suc n - 1 ≡ n = omega arith in rw e (ground arith)

-- The bit that `votes`, written from position `at`, give to position `k`.
abbrev pub voted : ℕ → List Bool → ℕ → Bool
voted at votes k = leb at k && get_or votes (k - at) false

voted-cons :
    (at : ℕ) (b : Bool) (votes : List Bool) (k : ℕ)
    → voted at (b ∷ votes) k ≡ (if k == at then b else voted (at + 1) votes k)
voted-cons at b votes k =
    let e : k - at - 1 ≡ k - (at + 1) = omega arith in ground (arith, get_or-cons b votes (k - at))

-- `flat'` is `flat` with the votes written from `at` on.
pub record Writes (at : ℕ) (votes : List Bool) (flat : Bitlist)
    (r : Result StateTransitionError Bitlist) : Type 0 where
  pub flat' : Bitlist
  pub returns : r ≡ ok flat'
  pub valid : IsValid justifications_validators_limit flat'
  pub long : flat'.length ≡ flat.length
  pub bits : (k : ℕ) → get flat' k ≡ (if voted at votes k then some true else get flat k)

write_votes-Writes :
    (at : ℕ) (votes : List Bool) (flat : Bitlist)
    → IsValid justifications_validators_limit flat
    → at + length votes ≤ flat.length
    → Writes at votes flat (write_votes at votes flat)
unfolding write_votes
write_votes-Writes at [] flat valid room = record {
  flat' = flat;
  returns = refl;
  valid = valid;
  long = refl;
  bits = λ k. ground arith;
}
write_votes-Writes at (false ∷ votes) flat valid room =
    let rest = write_votes-Writes (at + 1) votes flat valid (omega arith) in
    record {
      flat' = rest.flat';
      returns = rest.returns;
      valid = rest.valid;
      long = rest.long;
      bits = λ k. rw (voted-cons at false votes k) (ground (arith, rest.bits k));
    }
write_votes-Writes at (true ∷ votes) flat valid room =
    let fits : at < justifications_validators_limit = omega (arith, valid.bounded) in
    let next = after justifications_validators_limit flat valid at fits true in
    let long = length-set_bit justifications_validators_limit flat valid at fits true in
    let rest =
      write_votes-Writes (at + 1) votes next
        (set_bit-IsValid justifications_validators_limit flat valid at fits true) (omega arith) in
    record {
      flat' = rest.flat';
      returns =
          rw (set_bit-eq justifications_validators_limit flat valid at fits true) rest.returns;
      valid = rest.valid;
      long = rest.long ∙ omega arith;
      bits = λ k. rw (voted-cons at true votes k) (
          ground (
            arith,
            rest.bits k,
            get-set_bit justifications_validators_limit flat valid at fits true k,
            get_beyond flat k,
          ));
    }

-- All the votes, root by root.
abbrev pub all_votes : BTreeMap (List Bool) → List Bool
all_votes [] = []
all_votes ((root, votes) ∷ table) = votes ++ all_votes table

voted-append :
    (at : ℕ) (xs ys : List Bool) (k : ℕ)
    → voted at (xs ++ ys) k ≡ (if voted at xs k then true else voted (at + length xs) ys k)
voted-append at [] ys k = let e : at + 0 ≡ at = omega arith in rw e (ground arith)
voted-append at (x ∷ xs) ys k =
    let e : at + suc (length xs) ≡ at + 1 + length xs = omega arith in
    rw (voted-cons at x (xs ++ ys) k, voted-cons at x xs k, e)
      (ground (arith, voted-append (at + 1) xs ys k))

pub write_table-Writes :
    (n i : ℕ) (table : BTreeMap (List Bool)) (flat : Bitlist)
    → IsValid justifications_validators_limit flat
    → Values (λ votes. length votes ≡ n) table
    → i * n + length table * n ≤ flat.length
    → Writes (i * n) (all_votes table) flat (write_table n i table flat)
unfolding write_table
write_table-Writes n i [] flat valid even room = record {
  flat' = flat;
  returns = refl;
  valid = valid;
  long = refl;
  bits = λ k. ground arith;
}
write_table-Writes n i ((root, votes) ∷ table) flat valid even room =
    let first = write_votes-Writes (i * n) votes flat valid (omega (arith, even.0)) in
    let rest =
      write_table-Writes n (i + 1) table first.flat' first.valid even.1
        (omega (arith, first.long)) in
    let place : i * n + length votes ≡ (i + 1) * n = omega (arith, even.0) in
    record {
      flat' = rest.flat';
      returns = rw first.returns rest.returns;
      valid = rest.valid;
      long = rest.long ∙ first.long;
      bits = λ k.
          rw (voted-append (i * n) votes (all_votes table) k, place)
            (ground (arith, rest.bits k, first.bits k));
    }

pub length-all_votes :
    (n : ℕ) (table : BTreeMap (List Bool))
    → Values (λ votes. length votes ≡ n) table
    → length (all_votes table) ≡ length table * n
length-all_votes n [] h = omega arith
length-all_votes n ((root, votes) ∷ table) h =
    omega (arith, length-append {0} votes (all_votes table), length-all_votes n table h.1, h.0)

-- The flat bit list of a table: its bits are the votes, root by root.
pub record Flattens (j : Justifications) (r : Result StateTransitionError Bitlist) : Type 0 where
  pub flat : Bitlist
  pub returns : r ≡ ok flat
  pub valid : IsValid justifications_validators_limit flat
  pub long : flat.length ≡ length j.table * j.num_validators
  pub bits :
      (k : ℕ)
      → k < length j.table * j.num_validators
      → get flat k ≡ some (get_or (all_votes j.table) k false)

pub flatten-Flattens :
    (j : Justifications)
    → Values (λ votes. length votes ≡ j.num_validators) j.table
    → length j.table * j.num_validators ≤ justifications_validators_limit
    → Flattens j (flatten j)
unfolding flatten
flatten-Flattens j even room =
    let total = length j.table * j.num_validators in
    let start =
      write_table-Writes j.num_validators 0 j.table (zeros total)
        (zeros-IsValid justifications_validators_limit total room) even (omega arith) in
    record {
      flat = start.flat';
      returns =
          rw
            (
              lt→leb u64_mod total (omega arith),
              le→ltb justifications_validators_limit total room,
              with_length-eq justifications_validators_limit total room,
            )
            start.returns;
      valid = start.valid;
      long = start.long;
      bits = λ k h. ground (arith, start.bits k, get-zeros total k);
    }
