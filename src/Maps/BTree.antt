-- ===== src/Maps/BTree.antt =====
-- `BTreeMap` with numbers for keys: its entries in the order in which it iterates.
use mathlib.Core.Path.{subst}
use mathlib.Core.Option.{some-injective}
use lean_rust.Prelude.{
  Bool-cases, inl, inr, ℕ, ◌<◌, ◌≡◌, ◌≢◌, refl, Option, none, some, List, [], ◌∷◌, ltb, ◌==◌,
  if◌then◌else◌, arith,
}

abbrev pub BTreeMap {ℓ} : Type ℓ → Type ℓ
BTreeMap V = List (ℕ × V)

module _ {ℓ} {V : Type ℓ} where
  unfoldable pub lookup : ℕ → BTreeMap V → Option V
  lookup k [] = none
  lookup k ((j, v) ∷ m) = if j == k then some v else lookup k m

  unfoldable pub insert : ℕ → V → BTreeMap V → BTreeMap V
  insert k v [] = (k, v) ∷ []
  insert k v ((j, w) ∷ m) =
      if ltb k j then (k, v) ∷ (j, w) ∷ m else if j == k then (k, v) ∷ m else (j, w) ∷ insert k v m

  unfoldable pub remove : ℕ → BTreeMap V → BTreeMap V
  remove k [] = []
  remove k ((j, w) ∷ m) = if j == k then m else (j, w) ∷ remove k m

  -- Every key lies above `k`.
  abbrev pub Above : ℕ → BTreeMap V → Type 0
  Above k [] = Unit
  Above k ((j, v) ∷ m) = (k < j) × Above k m

  abbrev pub IsSorted : BTreeMap V → Type 0
  IsSorted [] = Unit
  IsSorted ((j, v) ∷ m) = Above j m × IsSorted m

  -- Every value satisfies `P`.
  abbrev pub Values {κ} : (V → Type κ) → BTreeMap V → Type κ
  Values P [] = Unit
  Values P ((j, v) ∷ m) = P v × Values P m

  pub lookup-insert :
      (key other : ℕ) (new : V) (map : BTreeMap V)
      → lookup other (insert key new map) ≡ (if key == other then some new else lookup other map)
  unfolding lookup insert
  lookup-insert key other new [] = refl
  lookup-insert key other new ((first, old) ∷ rest) =
      ground (arith, lookup-insert key other new rest)

  pub lookup-remove_ne : (k j : ℕ) (m : BTreeMap V) → k ≢ j → lookup j (remove k m) ≡ lookup j m
  unfolding lookup remove
  lookup-remove_ne k j [] h = refl
  lookup-remove_ne k j ((i, w) ∷ m) h = ground (arith, lookup-remove_ne k j m)

  lookup-Above : (k : ℕ) (m : BTreeMap V) → Above k m → lookup k m ≡ none
  unfolding lookup
  lookup-Above k [] h = refl
  lookup-Above k ((i, w) ∷ m) h = ground (arith, lookup-Above k m)

  pub lookup-remove_self : (k : ℕ) (m : BTreeMap V) → IsSorted m → lookup k (remove k m) ≡ none
  unfolding lookup remove
  lookup-remove_self k [] h = refl
  lookup-remove_self k ((i, w) ∷ m) h = ground (arith, lookup-remove_self k m, lookup-Above k m)

  Above-trans : (j k : ℕ) (m : BTreeMap V) → j < k → Above k m → Above j m
  Above-trans j k [] h a = tt
  Above-trans j k ((i, w) ∷ m) h a = (omega arith, Above-trans j k m h a.1)

  Above-insert : (j k : ℕ) (v : V) (m : BTreeMap V) → j < k → Above j m → Above j (insert k v m)
  unfolding insert
  Above-insert j k v [] h a = (h, tt)
  Above-insert j k v ((i, w) ∷ m) h a = ground (arith, Above-insert j k v m)

  pub insert-IsSorted : (k : ℕ) (v : V) (m : BTreeMap V) → IsSorted m → IsSorted (insert k v m)
  unfolding insert
  insert-IsSorted k v [] h = (tt, tt)
  insert-IsSorted k v ((i, w) ∷ m) h =
      ground (arith, insert-IsSorted k v m, Above-insert i k v m, Above-trans k i m)

  Above-remove : (j k : ℕ) (m : BTreeMap V) → Above j m → Above j (remove k m)
  unfolding remove
  Above-remove j k [] a = tt
  Above-remove j k ((i, w) ∷ m) a = ground (arith, Above-remove j k m)

  pub remove-IsSorted : (k : ℕ) (m : BTreeMap V) → IsSorted m → IsSorted (remove k m)
  unfolding remove
  remove-IsSorted k [] h = tt
  remove-IsSorted k ((i, w) ∷ m) h = ground (arith, remove-IsSorted k m, Above-remove i k m)

  pub Values-insert {κ} :
      (P : V → Type κ) (k : ℕ) (v : V) (m : BTreeMap V) → P v → Values P m → Values P (insert k v m)
  unfolding insert
  Values-insert P k v [] p h = (p, tt)
  Values-insert P k v ((i, w) ∷ m) p h = ground (arith, Values-insert P k v m)

  pub Values-remove {κ} :
      (P : V → Type κ) (k : ℕ) (m : BTreeMap V) → Values P m → Values P (remove k m)
  unfolding remove
  Values-remove P k [] h = tt
  Values-remove P k ((i, w) ∷ m) h = ground (arith, Values-remove P k m)

  pub Values-lookup {κ} :
      (P : V → Type κ) (k : ℕ) (m : BTreeMap V) {v : V} → Values P m → lookup k m ≡ some v → P v
  unfolding lookup
  Values-lookup P k [] h e = cc
  Values-lookup P k ((i, w) ∷ m) h e = elim (Bool-cases (i == k)) [
    | inl here ↦ subst P (some-injective _ _ (rw here at e)) h.0
    | inr elsewhere ↦ Values-lookup P k m h.1 (rw elsewhere at e)
  ]
