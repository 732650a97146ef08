-- ===== src/Maps/Hash.antt =====
-- `HashMap` with numbers for keys: its entries in some order, which nothing that is proved here
-- depends on. A key has one entry.
use lean_rust.Prelude.{
  ℕ, ◌≡◌, ◌≢◌, refl, inl, inr, Bool, true, false, Option, none, some, Option-cases, List, [], ◌∷◌,
  ◌==◌, if◌then◌else◌, arith,
}

abbrev pub HashMap {ℓ} : Type ℓ → Type ℓ
HashMap V = List (ℕ × V)

module _ {ℓ} {V : Type ℓ} where
  unfoldable pub get : HashMap V → ℕ → Option V
  get [] k = none
  get ((j, v) ∷ m) k = if j == k then some v else get m k

  unfoldable pub contains_key : HashMap V → ℕ → Bool
  contains_key m k = elim (get m k) [ none ↦ false | some _ ↦ true ]

  -- The map after `insert`; what `insert` returns is `get m k`.
  unfoldable pub insert : HashMap V → ℕ → V → HashMap V
  insert [] k v = (k, v) ∷ []
  insert ((j, w) ∷ m) k v = if j == k then (k, v) ∷ m else (j, w) ∷ insert m k v

  unfoldable pub remove : HashMap V → ℕ → HashMap V
  remove [] k = []
  remove ((j, w) ∷ m) k = if j == k then m else (j, w) ∷ remove m k

  unfoldable pub extend : HashMap V → HashMap V → HashMap V
  extend m [] = m
  extend m ((k, v) ∷ new) = extend (insert m k v) new

  pub get-insert :
      (m : HashMap V) (k j : ℕ) (v : V)
      → get (insert m k v) j ≡ (if k == j then some v else get m j)
  unfolding get insert
  get-insert [] k j v = refl
  get-insert ((i, w) ∷ m) k j v = ground (arith, get-insert m k j v)

  pub get-remove_ne : (m : HashMap V) (k j : ℕ) → k ≢ j → get (remove m k) j ≡ get m j
  unfolding get remove
  get-remove_ne [] k j h = refl
  get-remove_ne ((i, w) ∷ m) k j h = ground (arith, get-remove_ne m k j)

  -- No key has two entries.
  abbrev pub IsFresh : ℕ → HashMap V → Type 0
  IsFresh k [] = Unit
  IsFresh k ((j, v) ∷ m) = (j ≢ k) × IsFresh k m

  abbrev pub IsUnique : HashMap V → Type 0
  IsUnique [] = Unit
  IsUnique ((j, v) ∷ m) = IsFresh j m × IsUnique m

  pub get-IsFresh : (m : HashMap V) (k : ℕ) → IsFresh k m → get m k ≡ none
  unfolding get
  get-IsFresh [] k h = refl
  get-IsFresh ((i, w) ∷ m) k h = ground (arith, get-IsFresh m k)

  pub get-remove_self : (m : HashMap V) (k : ℕ) → IsUnique m → get (remove m k) k ≡ none
  unfolding get remove
  get-remove_self [] k h = refl
  get-remove_self ((i, w) ∷ m) k h = ground (arith, get-remove_self m k, get-IsFresh m k)

  IsFresh-insert :
      (j : ℕ) (m : HashMap V) (k : ℕ) (v : V) → k ≢ j → IsFresh j m → IsFresh j (insert m k v)
  unfolding insert
  IsFresh-insert j [] k v h f = (h, tt)
  IsFresh-insert j ((i, w) ∷ m) k v h f = ground (arith, IsFresh-insert j m k v)

  pub insert-IsUnique : (m : HashMap V) (k : ℕ) (v : V) → IsUnique m → IsUnique (insert m k v)
  unfolding insert
  insert-IsUnique [] k v h = (tt, tt)
  insert-IsUnique ((i, w) ∷ m) k v h = ground (arith, insert-IsUnique m k v, IsFresh-insert i m k v)

  IsFresh-remove : (j : ℕ) (m : HashMap V) (k : ℕ) → IsFresh j m → IsFresh j (remove m k)
  unfolding remove
  IsFresh-remove j [] k f = tt
  IsFresh-remove j ((i, w) ∷ m) k f = ground (arith, IsFresh-remove j m k)

  pub remove-IsUnique : (m : HashMap V) (k : ℕ) → IsUnique m → IsUnique (remove m k)
  unfolding remove
  remove-IsUnique [] k h = tt
  remove-IsUnique ((i, w) ∷ m) k h = ground (arith, remove-IsUnique m k, IsFresh-remove i m k)

  -- The entries of `new` over those of `m`.
  abbrev pub get_first : HashMap V → HashMap V → ℕ → Option V
  get_first new m k = elim (get new k) [ none ↦ get m k | some v ↦ some v ]

  pub get-extend :
      (m new : HashMap V) (k : ℕ) → IsUnique new → get (extend m new) k ≡ get_first new m k
  unfolding get extend
  get-extend m [] k u = refl
  get-extend m ((j, v) ∷ new) k u =
      ground (arith, get-extend (insert m j v) new k u.1, get-IsFresh new j u.0, get-insert m j k v)

  pub extend-IsUnique : (m new : HashMap V) → IsUnique m → IsUnique (extend m new)
  unfolding extend
  extend-IsUnique m [] u = u
  extend-IsUnique m ((j, v) ∷ new) u = extend-IsUnique (insert m j v) new (insert-IsUnique m j v u)

  pub get-contains_key :
      (m : HashMap V) (k : ℕ) → contains_key m k ≡ true → (v : V) × (get m k ≡ some v)
  unfolding contains_key
  get-contains_key m k h = elim (Option-cases (get m k)) [
    | inl e ↦ cc (rw (e, contains_key) at h)
    | inr found ↦ found
  ]

  pub contains_key-get :
      (m : HashMap V) (k : ℕ) {v : V} → get m k ≡ some v → contains_key m k ≡ true
  unfolding contains_key
  contains_key-get m k h = rw (h, contains_key) refl

  pub not-contains_key : (m : HashMap V) (k : ℕ) → get m k ≡ none → contains_key m k ≡ false
  unfolding contains_key
  not-contains_key m k h = rw (h, contains_key) refl
