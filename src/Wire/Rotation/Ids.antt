-- ===== src/Wire/Rotation/Ids.antt =====
-- crates/gp-wire/src/rotation.rs: `unique_ids` against the plain notion of distinct actors.
use master_recovery.Prelude.{ℕ, ◌≡◌, ◌≢◌, ◌≤◌, ◌<◌, ◌↔◌, refl, false, List, [], ◌∷◌, arith, ok}
use master_recovery.Collections.Set
use master_recovery.Collections.Set.{Set}
use master_recovery.Wire.Rotation.{max_rotation_actors, unique_from, unique_ids}

-- Every identifier is from 1 to the bound.
abbrev pub AllWithin : ℕ → List ℕ → Type 0
AllWithin n [] = Unit {0}
AllWithin n (id ∷ ids) = (0 < id) × (id ≤ n) × AllWithin n ids

abbrev pub Avoids : ℕ → List ℕ → Type 0
Avoids x [] = Unit {0}
Avoids x (y ∷ ys) = (x ≢ y) × Avoids x ys

abbrev pub Distinct : List ℕ → Type 0
Distinct [] = Unit {0}
Distinct (x ∷ xs) = Avoids x xs × Distinct xs

-- No identifier is in the set.
abbrev pub AllNew : Set → List ℕ → Type 0
AllNew s [] = Unit {0}
AllNew s (x ∷ xs) = (Set.contains s x ≡ false) × AllNew s xs

pub AllNew-insert :
    (s : Set) (a : ℕ) (xs : List ℕ) → AllNew (Set.insert s a) xs → AllNew s xs × Avoids a xs
AllNew-insert s a [] h = (tt, tt)
AllNew-insert s a (x ∷ xs) h =
    let (new, other) = AllNew-insert s a xs h.1 in
    (
      (ground (arith, Set.contains-insert s a x), new),
      (ground (arith, Set.contains-insert s a x), other),
    )

pub insert-AllNew :
    (s : Set) (a : ℕ) (xs : List ℕ) → AllNew s xs → Avoids a xs → AllNew (Set.insert s a) xs
insert-AllNew s a [] h d = tt
insert-AllNew s a (x ∷ xs) h d =
    (ground (arith, Set.contains-insert s a x), insert-AllNew s a xs h.1 d.1)

unique_sound :
    (s : Set) (ids : List ℕ)
    → unique_from s ids ≡ ok tt
    → AllWithin max_rotation_actors ids × Distinct ids × AllNew s ids
unfolding unique_from
unique_sound s [] h = (tt, tt, tt)
unique_sound s (id ∷ ids) h =
    let (within, distinct, new) = unique_sound (Set.insert s id) ids (ground arith) in
    let (new', avoids) = AllNew-insert s id ids new in
    ((ground arith, ground arith, within), (avoids, distinct), (ground arith, new'))

unique_complete :
    (s : Set) (ids : List ℕ)
    → AllWithin max_rotation_actors ids
    → Distinct ids
    → AllNew s ids
    → unique_from s ids ≡ ok tt
unfolding unique_from
unique_complete s [] w d n = refl
unique_complete s (id ∷ ids) w d n =
    ground (arith, unique_complete (Set.insert s id) ids w.2 d.1 (insert-AllNew s id ids n.1 d.0))

pub empty-AllNew : (ids : List ℕ) → AllNew Set.empty ids
empty-AllNew [] = tt
empty-AllNew (x ∷ xs) = (Set.contains-empty x, empty-AllNew xs)

-- `unique_ids` succeeds exactly on identifiers from 1 to 4096 without a repetition.
pub unique_ids_iff :
    (ids : List ℕ) → (unique_ids ids ≡ ok tt) ↔ (AllWithin max_rotation_actors ids × Distinct ids)
unfolding unique_ids
unique_ids_iff ids = (
  λ h. let (within, distinct, new) = unique_sound Set.empty ids h in (within, distinct),
  λ h. unique_complete Set.empty ids h.0 h.1 (empty-AllNew ids),
)
