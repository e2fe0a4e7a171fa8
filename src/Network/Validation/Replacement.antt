-- ===== src/Network/Validation/Replacement.antt =====
-- What a plan that keeps to the signers' intent does to the roster of guardians.
use master_recovery.Prelude.{
  ℕ, ◌≡◌, ◌≤◌, refl, false, List, [], ◌∷◌, map, arith, length, ok, ok-bind,
}
use master_recovery.Collections.Set
use master_recovery.Collections.Set.{Set}
use master_recovery.Types.Basic.{Id32, Bytes}
use master_recovery.Types.Epoch.{RotationIntent}
use master_recovery.Types.Ceremony.{RotationPlan, GuardianRouteV3}
use master_recovery.Types.RecoveryV3.{ConfigCapsuleV3}
use master_recovery.Wire.Bytes.{to_be_bytes}
use master_recovery.Wire.Rotation.{any}
use master_recovery.Wire.Rotation.Ids.{Avoids, Distinct, unique_ids_iff}
use master_recovery.Wire.Rotation.Quorum.{after-ok}
use master_recovery.Wire.Rotation.Plan as Transcripts
use master_recovery.Network.Validation.{Crypto, written}
use master_recovery.Network.Validation.Plan.{try_u16, validate_rotation_plan_v3}
use master_recovery.Network.Validation.Intent.{
  has_guardian, route_map, only_in, any_stale_route, id_set, repeats_identity, check_replacement,
  validate_rotation_plan_against_intent_v3,
}
use master_recovery.Network.Validation.Steps.{bail-ok, bail-last, then-ok, written-ok}

abbrev pub guardian_ids : List GuardianRouteV3 → List ℕ
guardian_ids routes = map (λ route. route.guardian_index) routes

abbrev pub guardian_keys : List GuardianRouteV3 → List Id32
guardian_keys routes = map (λ route. route.guardian_public_key) routes

has_guardian-Avoids :
    (routes : List GuardianRouteV3) (id : ℕ)
    → Avoids id (guardian_ids routes)
    → has_guardian routes id ≡ false
unfolding has_guardian any
has_guardian-Avoids [] id h = refl
has_guardian-Avoids (route ∷ routes) id h = ground (arith, has_guardian-Avoids routes id h.1)

-- A roster without a repeated index is its own map.
route_map-same :
    (routes : List GuardianRouteV3) → Distinct (guardian_ids routes) → route_map routes ≡ routes
unfolding route_map
route_map-same [] h = refl
route_map-same (route ∷ routes) h =
    let rest = route_map-same routes h.1 in
    ground (arith, rest, has_guardian-Avoids routes route.guardian_index h.0)

size-id_set : (ids : List ℕ) → Set.size (id_set ids) ≤ length ids
unfolding id_set
size-id_set [] = ground (arith, Set.size-empty)
size-id_set (id ∷ ids) = ground (arith, Set.size-insert (id_set ids) id, size-id_set ids)

contains-Avoids : (id : ℕ) (ids : List ℕ) → Set.contains (id_set ids) id ≡ false → Avoids id ids
unfolding id_set
contains-Avoids id [] h = tt
contains-Avoids id (x ∷ ids) h = (
  ground (arith, Set.contains-insert (id_set ids) x id, h),
  contains-Avoids id ids (ground (arith, Set.contains-insert (id_set ids) x id, h)),
)

-- A set as large as the list it is made of comes from a list without a repetition.
size-Distinct : (ids : List ℕ) → Set.size (id_set ids) ≡ length ids → Distinct ids
unfolding id_set
size-Distinct [] h = tt
size-Distinct (id ∷ ids) h =
    let fresh : Set.contains (id_set ids) id ≡ false =
      ground (arith, Set.size-insert (id_set ids) id, size-id_set ids, h) in
    (
      contains-Avoids id ids fresh,
      size-Distinct ids (ground (arith, Set.size-insert (id_set ids) id, h, fresh)),
    )

map-size {ℓ} : {A : Type ℓ} (f : A → ℕ) (xs : List A) → length (map f xs) ≡ length xs
map-size f [] = refl
map-size f (x ∷ xs) = ground (arith, map-size f xs)

roster-Distinct :
    (routes : List GuardianRouteV3) (t : Bytes)
    → Transcripts.guardian_roster_v3 routes ≡ ok t
    → Distinct (guardian_ids routes)
unfolding Transcripts.guardian_roster_v3
roster-Distinct routes t h =
    let (unique, rest) = after-ok _ _ t h in ((unique_ids_iff (guardian_ids routes)).0 unique).1

module _ (c : Crypto) where
  -- One guardian leaves, the one that the intent commits to, and one joins.
  pub record IsReplacement (intent : RotationIntent) (old new : List GuardianRouteV3) : Type 0 where
    pub removed : GuardianRouteV3
    pub added : GuardianRouteV3
    pub leaves : only_in old new ≡ removed ∷ []
    pub joins : only_in new old ≡ added ∷ []
    pub committed :
        c.sha256 (to_be_bytes 2 removed.guardian_index) ≡ intent.selection_constraints_commitment
    pub fresh_routes : any_stale_route old new ≡ false
    pub old_ids : Distinct (guardian_ids old)
    pub new_ids : Distinct (guardian_ids new)
    pub new_keys : Distinct (guardian_keys new)
    pub new_to_roster : Avoids added.guardian_public_key (guardian_keys old)

  rosters-Distinct :
      (plan : RotationPlan) (predecessor : ConfigCapsuleV3) (now : ℕ) (hash : Id32)
      → validate_rotation_plan_v3 c plan predecessor now ≡ ok hash
      → Distinct (guardian_ids plan.old_roster) × Distinct (guardian_ids plan.new_roster)
  unfolding validate_rotation_plan_v3
  rosters-Distinct plan predecessor now hash h =
      let (transcript, hw, h1) = ok-bind (written (Transcripts.rotation_plan plan)) _ hash h in
      let (keeps, h2) = bail-ok _ _ _ hash h1 in
      let (count, hn, h3) = ok-bind (try_u16 (length plan.new_roster)) _ hash h2 in
      let (enough, h4) = bail-ok _ _ _ hash h3 in
      let (old, ho, h5) =
        ok-bind (written (Transcripts.guardian_roster_v3 plan.old_roster)) _ hash h4 in
      let (new, hm, h6) =
        ok-bind (written (Transcripts.guardian_roster_v3 plan.new_roster)) _ hash h5 in
      (
        roster-Distinct plan.old_roster old (written-ok _ old ho),
        roster-Distinct plan.new_roster new (written-ok _ new hm),
      )

  check-IsReplacement :
      (intent : RotationIntent) (old new leaving joining : List GuardianRouteV3)
      → only_in old new ≡ leaving
      → only_in new old ≡ joining
      → Distinct (guardian_ids old)
      → Distinct (guardian_ids new)
      → check_replacement c intent old new leaving joining ≡ ok tt
      → IsReplacement intent old new
  unfolding check_replacement repeats_identity
  check-IsReplacement intent old new [] joining el ej dold dnew h = absurd (cc h)
  check-IsReplacement intent old new (removed ∷ []) [] el ej dold dnew h = absurd (cc h)
  check-IsReplacement intent old new (removed ∷ []) (added ∷ more ∷ rest) el ej dold dnew h =
      absurd (cc h)
  check-IsReplacement intent old new (removed ∷ more ∷ rest) joining el ej dold dnew h =
      absurd (cc h)
  check-IsReplacement intent old new (removed ∷ []) (added ∷ []) el ej dold dnew h =
      let (commit, h1) = bail-ok _ _ _ tt h in
      let (fresh, h2) = bail-ok _ _ _ tt h1 in
      let reused = bail-last _ _ tt h2 in
      record {
        removed = removed;
        added = added;
        leaves = el;
        joins = ej;
        committed = ground arith;
        fresh_routes = fresh;
        old_ids = dold;
        new_ids = dnew;
        new_keys =
            size-Distinct (guardian_keys new) (
              ground
                (arith, reused, map-size (λ (r : GuardianRouteV3). r.guardian_public_key) new));
        new_to_roster =
            contains-Avoids added.guardian_public_key (guardian_keys old) (ground (arith, reused));
      }

  replaced :
      (intent : RotationIntent) (old old_map new new_map : List GuardianRouteV3)
      → old_map ≡ old
      → new_map ≡ new
      → check_replacement c intent old_map new_map
          (only_in old_map new_map)
          (only_in new_map old_map)
        ≡ ok tt
      → check_replacement c intent old new (only_in old new) (only_in new old) ≡ ok tt
  replaced intent old old_map new new_map eo en h = ground (arith, eo, en, h)

  -- In a plan that is accepted against an intent, no index stands twice in a roster and no key twice in the
  -- new one; exactly one guardian of the old roster is missing from the new one, the one whose index the
  -- intent commits to; exactly one guardian is new, and its key is no key of the old roster; and every
  -- guardian that stays passes the test of its identity and its fresh route.
  pub accepted_plan-IsReplacement :
      (plan : RotationPlan) (intent : RotationIntent) (predecessor : ConfigCapsuleV3) (now : ℕ)
      (hash : Id32)
      → validate_rotation_plan_against_intent_v3 c plan intent predecessor now ≡ ok hash
      → IsReplacement intent plan.old_roster plan.new_roster
  unfolding validate_rotation_plan_against_intent_v3
  accepted_plan-IsReplacement plan intent predecessor now hash h =
      let (plan_hash, hv, h1) =
        ok-bind (validate_rotation_plan_v3 c plan predecessor now) _ hash h in
      let (transcript, hw, h2) = ok-bind (written (Transcripts.rotation_intent intent)) _ hash h1 in
      let (binds, h3) = bail-ok _ _ _ hash h2 in
      let (count, hn, h4) = ok-bind (try_u16 (length plan.new_roster)) _ hash h3 in
      let (allowed, h5) = bail-ok _ _ _ hash h4 in
      let old = route_map plan.old_roster in
      let new = route_map plan.new_roster in
      let (u, hc, h6) =
        then-ok (check_replacement c intent old new (only_in old new) (only_in new old)) _ hash
          h5 in
      let (dold, dnew) = rosters-Distinct plan predecessor now plan_hash hv in
      let same_old = route_map-same plan.old_roster dold in
      let same_new = route_map-same plan.new_roster dnew in
      check-IsReplacement intent plan.old_roster plan.new_roster
        (only_in plan.old_roster plan.new_roster) (only_in plan.new_roster plan.old_roster) refl
        refl dold dnew (replaced intent _ _ _ _ same_old same_new hc)
