-- ===== src/Wire/Rotation/Meeting.antt =====
-- How far two lists of distinct actors must meet: counting by the pigeonhole principle.
use master_recovery.Prelude.{
  ℕ, suc, ◌+◌, ◌≡◌, ◌≢◌, ◌≤◌, ◌<◌, refl, Bool, true, false, ◌||◌, List, [], ◌∷◌, arith, length,
  ◌==◌, if◌then◌else◌, Bool-cases, inl, inr,
}
use master_recovery.Wire.Rotation.Ids.{Avoids, Distinct}

unfoldable pub mem : ℕ → List ℕ → Bool
mem x [] = false
mem x (y ∷ ys) = x == y || mem x ys

-- Every identifier of the second list is in the first.
abbrev pub AllIn : List ℕ → List ℕ → Type 0
AllIn roster [] = Unit {0}
AllIn roster (x ∷ xs) = (mem x roster ≡ true) × AllIn roster xs

-- How many identifiers of the first list are in the second.
unfoldable pub common : List ℕ → List ℕ → ℕ
common [] ys = 0
common (x ∷ xs) ys = let rest = common xs ys in if mem x ys then suc rest else rest

others : List ℕ → List ℕ → List ℕ
others [] ys = ys
others (x ∷ xs) ys = let rest = others xs ys in if mem x ys then rest else x ∷ rest

others-length : (xs ys : List ℕ) → length xs + length ys ≡ common xs ys + length (others xs ys)
unfolding common others
others-length [] ys = refl
others-length (x ∷ xs) ys = ground (arith, others-length xs ys)

others-AllIn :
    (roster xs ys : List ℕ) → AllIn roster xs → AllIn roster ys → AllIn roster (others xs ys)
unfolding others
others-AllIn roster [] ys hx hy = hy
others-AllIn roster (x ∷ xs) ys hx hy = elim (Bool-cases (mem x ys)) [
  | inl e ↦ rw e (others-AllIn roster xs ys hx.1 hy)
  | inr e ↦ rw e ((hx.0, others-AllIn roster xs ys hx.1 hy))
]

mem-Avoids : (x : ℕ) (ys : List ℕ) → mem x ys ≡ false → Avoids x ys
unfolding mem
mem-Avoids x [] h = tt
mem-Avoids x (y ∷ ys) h = (ground arith, mem-Avoids x ys (ground arith))

others-Avoids : (a : ℕ) (xs ys : List ℕ) → Avoids a xs → Avoids a ys → Avoids a (others xs ys)
unfolding others
others-Avoids a [] ys hx hy = hy
others-Avoids a (x ∷ xs) ys hx hy = elim (Bool-cases (mem x ys)) [
  | inl e ↦ rw e (others-Avoids a xs ys hx.1 hy)
  | inr e ↦ rw e ((hx.0, others-Avoids a xs ys hx.1 hy))
]

others-Distinct : (xs ys : List ℕ) → Distinct xs → Distinct ys → Distinct (others xs ys)
unfolding others
others-Distinct [] ys hx hy = hy
others-Distinct (x ∷ xs) ys hx hy = elim (Bool-cases (mem x ys)) [
  | inl e ↦ rw e (others-Distinct xs ys hx.1 hy)
  | inr e ↦ rw e ((others-Avoids x xs ys hx.0 (mem-Avoids x ys e), others-Distinct xs ys hx.1 hy))
]

without : ℕ → List ℕ → List ℕ
without a [] = []
without a (x ∷ xs) = let rest = without a xs in if a == x then rest else x ∷ rest

without-same : (a : ℕ) (xs : List ℕ) → Avoids a xs → without a xs ≡ xs
unfolding without
without-same a [] h = refl
without-same a (x ∷ xs) h = ground (arith, without-same a xs h.1)

without-length : (a : ℕ) (xs : List ℕ) → Distinct xs → length xs ≤ suc (length (without a xs))
unfolding without
without-length a [] h = omega arith
without-length a (x ∷ xs) h = ground (arith, without-length a xs h.1, without-same x xs h.0)

without-AllIn : (a : ℕ) (roster xs : List ℕ) → AllIn (a ∷ roster) xs → AllIn roster (without a xs)
unfolding without mem
without-AllIn a roster [] h = tt
without-AllIn a roster (x ∷ xs) h = elim (Bool-cases (a == x)) [
  | inl e ↦ rw e (without-AllIn a roster xs h.1)
  | inr e ↦ rw e ((ground (arith, h.0), without-AllIn a roster xs h.1))
]

without-Avoids : (a b : ℕ) (xs : List ℕ) → Avoids b xs → Avoids b (without a xs)
unfolding without
without-Avoids a b [] h = tt
without-Avoids a b (x ∷ xs) h = elim (Bool-cases (a == x)) [
  | inl e ↦ rw e (without-Avoids a b xs h.1)
  | inr e ↦ rw e ((h.0, without-Avoids a b xs h.1))
]

without-Distinct : (a : ℕ) (xs : List ℕ) → Distinct xs → Distinct (without a xs)
unfolding without
without-Distinct a [] h = tt
without-Distinct a (x ∷ xs) h = elim (Bool-cases (a == x)) [
  | inl e ↦ rw e (without-Distinct a xs h.1)
  | inr e ↦ rw e ((without-Avoids a x xs h.0, without-Distinct a xs h.1))
]

-- Distinct identifiers of a roster are at most as many as the roster has.
Distinct-length : (roster xs : List ℕ) → AllIn roster xs → Distinct xs → length xs ≤ length roster
unfolding mem
Distinct-length [] [] w d = omega arith
Distinct-length [] (x ∷ xs) w d = absurd (ground (arith, w.0))
Distinct-length (a ∷ roster) xs w d = omega (
  arith,
  without-length a xs d,
  Distinct-length roster (without a xs) (without-AllIn a roster xs w) (without-Distinct a xs d),
)

-- Two lists of distinct identifiers of a roster have at least as many in common as their sizes exceed
-- its size.
pub common_bound :
    (roster xs ys : List ℕ)
    → AllIn roster xs
    → AllIn roster ys
    → Distinct xs
    → Distinct ys
    → length xs + length ys ≤ length roster + common xs ys
common_bound roster xs ys wx wy dx dy = omega (
  arith,
  others-length xs ys,
  Distinct-length roster (others xs ys) (others-AllIn roster xs ys wx wy)
      (others-Distinct xs ys dx dy),
)

-- The identifiers of the first list that are in the second.
meeting : List ℕ → List ℕ → List ℕ
meeting [] ys = []
meeting (x ∷ xs) ys = let rest = meeting xs ys in if mem x ys then x ∷ rest else rest

meeting-length : (xs ys : List ℕ) → length (meeting xs ys) ≡ common xs ys
unfolding meeting common
meeting-length [] ys = refl
meeting-length (x ∷ xs) ys = ground (arith, meeting-length xs ys)

meeting-Avoids : (a : ℕ) (xs ys : List ℕ) → Avoids a xs → Avoids a (meeting xs ys)
unfolding meeting
meeting-Avoids a [] ys h = tt
meeting-Avoids a (x ∷ xs) ys h = elim (Bool-cases (mem x ys)) [
  | inl e ↦ rw e ((h.0, meeting-Avoids a xs ys h.1))
  | inr e ↦ rw e (meeting-Avoids a xs ys h.1)
]

meeting-Distinct : (xs ys : List ℕ) → Distinct xs → Distinct (meeting xs ys)
unfolding meeting
meeting-Distinct [] ys h = tt
meeting-Distinct (x ∷ xs) ys h = elim (Bool-cases (mem x ys)) [
  | inl e ↦ rw e ((meeting-Avoids x xs ys h.0, meeting-Distinct xs ys h.1))
  | inr e ↦ rw e (meeting-Distinct xs ys h.1)
]

mem-meeting :
    (w : ℕ) (xs ys : List ℕ) → mem w (meeting xs ys) ≡ true → (mem w xs ≡ true) × (mem w ys ≡ true)
unfolding meeting mem
mem-meeting w [] ys h = absurd (ground arith)
mem-meeting w (x ∷ xs) ys h = elim (Bool-cases (mem x ys)) [
  | inl e ↦ ground (arith, mem-meeting w xs ys)
  | inr e ↦ ground (arith, mem-meeting w xs ys)
]

mem-without : (w a : ℕ) (xs : List ℕ) → mem w (without a xs) ≡ true → (mem w xs ≡ true) × (w ≢ a)
unfolding without mem
mem-without w a [] h = absurd (ground arith)
mem-without w a (x ∷ xs) h = ground (arith, mem-without w a xs)

find_fresh :
    (fs zs : List ℕ)
    → Distinct zs
    → length fs < length zs
    → (w : ℕ) × (mem w zs ≡ true) × (mem w fs ≡ false)
unfolding mem
find_fresh [] [] d h = absurd (omega (arith, h))
find_fresh [] (z ∷ zs) d h = (z, ground arith, refl)
find_fresh (f ∷ fs) zs d h =
    let (w, found, fresh) =
      find_fresh fs (without f zs) (without-Distinct f zs d)
        (omega (arith, h, without-length f zs d)) in
    let (here, other) = mem-without w f zs found in (w, here, ground arith)

-- Two lists that have more in common than a third list is long share an identifier outside it.
pub meet_outside :
    (fs xs ys : List ℕ)
    → Distinct xs
    → length fs < common xs ys
    → (w : ℕ) × (mem w xs ≡ true) × (mem w ys ≡ true) × (mem w fs ≡ false)
meet_outside fs xs ys d h =
    let (w, found, fresh) =
      find_fresh fs (meeting xs ys) (meeting-Distinct xs ys d)
        (omega (arith, h, meeting-length xs ys)) in
    let (left, right) = mem-meeting w xs ys found in (w, left, right, fresh)
