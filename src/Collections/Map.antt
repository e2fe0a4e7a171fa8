-- ===== src/Collections/Map.antt =====
-- `BTreeMap` with keys that are words or 32-byte identifiers, both numbers here. Nothing in the
-- program reads the order of the entries, so an association list without repeated keys stands for
-- the tree. The list is hidden: the other modules work with `map_laws`.
use master_recovery.Prelude.{
  ℕ, ◌≡◌, refl, Bool, true, false, ◌||◌, Option, none, some, List, [], ◌∷◌, arith, ◌==◌,
  if◌then◌else◌,
}

pub record Map {ℓ} (V : Type ℓ) : Type ℓ where
  entries : List (ℕ × V)

module _ {ℓ} {V : Type ℓ} where
  find : ℕ → List (ℕ × V) → Option V
  find k [] = none
  find k ((j, v) ∷ l) = if j == k then some v else find k l

  without : ℕ → List (ℕ × V) → List (ℕ × V)
  without k [] = []
  without k ((j, v) ∷ l) = let rest = without k l in if j == k then rest else (j, v) ∷ rest

  some_value : (V → Bool) → List (ℕ × V) → Bool
  some_value p [] = false
  some_value p ((j, v) ∷ l) = p v || some_value p l

  unfoldable pub empty : Map V
  empty = record { entries = [] }

  unfoldable pub get : Map V → ℕ → Option V
  unfolding find
  get m k = find k m.entries

  unfoldable pub insert : Map V → ℕ → V → Map V
  unfolding without
  insert m k v = record { entries = (k, v) ∷ without k m.entries }

  unfoldable pub remove : Map V → ℕ → Map V
  unfolding without
  remove m k = record { entries = without k m.entries }

  -- `values().any(p)`
  unfoldable pub any_value : (V → Bool) → Map V → Bool
  unfolding some_value
  any_value p m = some_value p m.entries

  abbrev pub contains_key : Map V → ℕ → Bool
  contains_key m k = elim (get m k) [ none ↦ false | some v ↦ true ]

  find-without :
      (k j : ℕ) (l : List (ℕ × V)) → find j (without k l) ≡ (if k == j then none else find j l)
  unfolding find without
  find-without k j [] = ground arith
  find-without k j ((i, v) ∷ l) = ground (arith, find-without k j l)

  -- A lookup after an insertion.
  pub get-insert :
      (m : Map V) (k j : ℕ) (v : V) → get (insert m k v) j ≡ (if k == j then some v else get m j)
  unfolding get insert
  get-insert m k j v = ground (arith, find-without k j m.entries)

  -- A lookup after a removal.
  pub get-remove : (m : Map V) (k j : ℕ) → get (remove m k) j ≡ (if k == j then none else get m j)
  unfolding get remove
  get-remove m k j = find-without k j m.entries

  some_value-find :
      (p : V → Bool) (l : List (ℕ × V)) (k : ℕ) (v : V)
      → some_value p l ≡ false
      → find k l ≡ some v
      → p v ≡ false
  unfolding some_value find
  some_value-find p [] k v h e = absurd (ground arith)
  some_value-find p ((j, w) ∷ l) k v h e = ground (arith, some_value-find p l k v)

  -- Where no value passes the test, what is found under a key does not.
  pub any_value-get :
      (p : V → Bool) (m : Map V) (k : ℕ) (v : V)
      → any_value p m ≡ false
      → get m k ≡ some v
      → p v ≡ false
  unfolding any_value get
  any_value-get p m k v h e = some_value-find p m.entries k v h e

pub get-empty {ℓ} : {V : Type ℓ} (k : ℕ) → get (empty {V = V}) k ≡ none
unfolding get empty
get-empty k = refl

pub ruleset map_laws = (get-empty, get-insert, get-remove)
