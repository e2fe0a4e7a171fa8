-- ===== src/Collections/Set.antt =====
-- `BTreeSet` of identifiers, behind the laws of membership.
use master_recovery.Prelude.{
  ℕ, suc, ◌≡◌, ◌<◌, refl, Bool, true, false, ◌||◌, ◌&&◌, not, ◌⊎◌, inl, inr, List, [], ◌∷◌, arith,
  ◌==◌, if◌then◌else◌,
}

pub record Set : Type 0 where
  members : List ℕ

member : ℕ → List ℕ → Bool
member a [] = false
member a (x ∷ xs) = x == a || member a xs

unfoldable pub empty : Set
empty = record { members = [] }

unfoldable pub contains : Set → ℕ → Bool
unfolding member
contains s a = member a s.members

-- The set after `insert`; the call's own result is `not (contains s a)`.
unfoldable pub insert : Set → ℕ → Set
unfolding member
insert s a = if member a s.members then s else record { members = a ∷ s.members }

without : ℕ → List ℕ → List ℕ
without a [] = []
without a (x ∷ xs) = let rest = without a xs in if x == a then rest else x ∷ rest

unfoldable pub remove : Set → ℕ → Set
unfolding without
remove s a = record { members = without a s.members }

count : List ℕ → ℕ
count [] = 0
count (x ∷ xs) = suc (count xs)

member_counted : (a : ℕ) (xs : List ℕ) → member a xs ≡ true → 0 < count xs
unfolding member count
member_counted a [] h = absurd (cc h)
member_counted a (x ∷ xs) h = omega arith

-- `len()`
unfoldable pub size : Set → ℕ
unfolding count
size s = count s.members

pub size-empty : size empty ≡ 0
unfolding size empty count
size-empty = refl

pub size-insert :
    (s : Set) (a : ℕ) → size (insert s a) ≡ (if contains s a then size s else suc (size s))
unfolding size insert contains count
size-insert s a = ground arith

pub contains-size : (s : Set) (a : ℕ) → contains s a ≡ true → 0 < size s
unfolding contains size member count
contains-size s a h = member_counted a s.members h

abbrev pub is_empty : Set → Bool
is_empty s = elim s.members [ [] ↦ true | x ∷ xs ↦ false ]

pub contains-empty : (a : ℕ) → contains empty a ≡ false
unfolding contains empty
contains-empty a = refl

-- Membership after an insertion.
pub contains-insert : (s : Set) (a b : ℕ) → contains (insert s a) b ≡ (a == b || contains s b)
unfolding contains insert
contains-insert s a b = ground arith

member-without : (a b : ℕ) (l : List ℕ) → member b (without a l) ≡ (not (a == b) && member b l)
unfolding member without
member-without a b [] = ground arith
member-without a b (x ∷ xs) = ground (arith, member-without a b xs)

-- Membership after a removal.
pub contains-remove : (s : Set) (a b : ℕ) → contains (remove s a) b ≡ (not (a == b) && contains s b)
unfolding contains remove
contains-remove s a b = member-without a b s.members

list_cases : (l : List ℕ) → (l ≡ []) ⊎ ((x : ℕ) × (xs : List ℕ) × (l ≡ x ∷ xs))
list_cases [] = inl refl
list_cases (x ∷ xs) = inr (x, xs, refl)

-- An empty set has no member.
pub is_empty-contains : (s : Set) (a : ℕ) → is_empty s ≡ true → contains s a ≡ false
unfolding contains member
is_empty-contains s a h = elim (list_cases s.members) [
  | inl e ↦ rw e refl
  | inr (x, xs, e) ↦ absurd (cc (h, e))
]

pub ruleset set_laws = (contains-empty, contains-insert, contains-remove)
