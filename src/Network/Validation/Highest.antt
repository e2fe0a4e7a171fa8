-- ===== src/Network/Validation/Highest.antt =====
-- The highest epoch among capsules, and a set that has one identifier.
use master_recovery.Prelude.{
  ℕ, ◌≡◌, ◌≤◌, refl, sym, subst, true, none, some, List, [], ◌∷◌, arith, inl, inr, Option-cases,
}
use master_recovery.Collections.Set
use master_recovery.Collections.Set.{Set}
use master_recovery.Types.RecoveryV3.{ConfigCapsuleV3}
use master_recovery.Network.Validation.Intent.{id_set}
use master_recovery.Network.Validation.Select.{highest_epoch}

abbrev pub EpochsWithin : ℕ → List ConfigCapsuleV3 → Type 0
EpochsWithin n [] = Unit {0}
EpochsWithin n (capsule ∷ capsules) =
    (capsule.config_ref.guardian_epoch ≤ n) × EpochsWithin n capsules

EpochsWithin-rise :
    (m n : ℕ) (capsules : List ConfigCapsuleV3)
    → m ≤ n
    → EpochsWithin m capsules
    → EpochsWithin n capsules
EpochsWithin-rise m n [] h e = tt
EpochsWithin-rise m n (capsule ∷ capsules) h e =
    (omega (arith, h, e.0), EpochsWithin-rise m n capsules h e.1)

nothing_within :
    (n : ℕ) (capsules : List ConfigCapsuleV3)
    → highest_epoch capsules ≡ none
    → EpochsWithin n capsules
unfolding highest_epoch
nothing_within n [] h = tt
nothing_within n (capsule ∷ capsules) h = elim (Option-cases (highest_epoch capsules)) [
  | inl e ↦ absurd (ground (arith, e, h))
  | inr (m, e) ↦ absurd (ground (arith, e, h))
]

pub highest_epoch-EpochsWithin :
    (capsules : List ConfigCapsuleV3) (n : ℕ)
    → highest_epoch capsules ≡ some n
    → EpochsWithin n capsules
unfolding highest_epoch
highest_epoch-EpochsWithin [] n h = tt
highest_epoch-EpochsWithin (capsule ∷ capsules) n h = elim (Option-cases (highest_epoch capsules)) [
  | inl e ↦ (ground (arith, e, h), nothing_within n capsules e)
  | inr (m, e) ↦ (
    ground (arith, e, h),
    EpochsWithin-rise m n capsules (ground (arith, e, h)) (highest_epoch-EpochsWithin capsules m e),
  )
]

-- All are this identifier.
abbrev pub AllSame : ℕ → List ℕ → Type 0
AllSame a [] = Unit {0}
AllSame a (x ∷ xs) = (x ≡ a) × AllSame a xs

AllSame-contains :
    (a b : ℕ) (xs : List ℕ) → AllSame a xs → Set.contains (id_set xs) b ≡ true → b ≡ a
unfolding id_set
AllSame-contains a b [] h c = absurd (cc (c, Set.contains-empty b))
AllSame-contains a b (x ∷ xs) h c =
    ground (arith, h.0, AllSame-contains a b xs h.1, Set.contains-insert (id_set xs) x b, c)

pub one-AllSame : (a : ℕ) (xs : List ℕ) → Set.size (id_set (a ∷ xs)) ≡ 1 → AllSame a xs
unfolding id_set
one-AllSame a [] h = tt
one-AllSame a (x ∷ xs) h =
    let found : Set.contains (id_set (x ∷ xs)) a ≡ true = ground (
      arith,
      Set.size-insert (id_set (x ∷ xs)) a,
      h,
      Set.contains-insert (id_set xs) x x,
      Set.contains-size (id_set (x ∷ xs)) x,
    ) in
    let rest = one-AllSame x xs (ground (arith, Set.size-insert (id_set (x ∷ xs)) a, h, found)) in
    let same = AllSame-contains x a (x ∷ xs) (refl, rest) found in
    (sym same, subst (λ v. AllSame v xs) (sym same) rest)
