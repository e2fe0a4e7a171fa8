-- ===== src/Network/Validation/Intent.antt =====
-- crates/gp-network/src/rotation_protocol.rs: a plan against the intent that the signers approved. A
-- `BTreeMap` of routes is the list of its values, the last route of each index; their order is not
-- observable where they are used.
use master_recovery.Prelude.{
  ℕ, Bool, ◌&&◌, ◌||◌, not, List, [], ◌∷◌, map, length, leb, ◌==◌, ◌!=◌, if◌then◌else◌, Result, ok,
  err, ◌>>=◌, ◌>>◌,
}
use master_recovery.Collections.Set
use master_recovery.Collections.Set.{Set}
use master_recovery.Types.Basic.{Id32, Bytes}
use master_recovery.Types.Epoch.{RotationIntent}
use master_recovery.Types.Ceremony.{RotationPlan, GuardianRouteV3}
use master_recovery.Types.RecoveryV3.{ConfigCapsuleV3}
use master_recovery.Wire.Bytes.{same_bytes, to_be_bytes}
use master_recovery.Wire.Rotation.{any, dpss_suite_id}
use master_recovery.Wire.Rotation.Plan as Transcripts
use master_recovery.Network.Validation.{
  ProtocolError, outside_intent, not_one_replacement, stale_route, reused_identity, Crypto, bail_if,
  written, same_context,
}
use master_recovery.Network.Validation.Plan.{try_u16, validate_rotation_plan_v3}

unfoldable pub has_guardian : List GuardianRouteV3 → ℕ → Bool
has_guardian routes id = any (λ route. route.guardian_index == id) routes

-- `collect::<BTreeMap<_, _>>()` by the guardian's index.
unfoldable pub route_map : List GuardianRouteV3 → List GuardianRouteV3
route_map [] = []
route_map (route ∷ routes) =
    let rest = route_map routes in
    if has_guardian rest route.guardian_index then rest else route ∷ rest

-- The routes of the first map whose index is not a key of the second.
unfoldable pub only_in : List GuardianRouteV3 → List GuardianRouteV3 → List GuardianRouteV3
only_in [] others = []
only_in (route ∷ routes) others =
    let rest = only_in routes others in
    if has_guardian others route.guardian_index then rest else route ∷ rest

-- A guardian that stays keeps its identity and gets a fresh route.
unfoldable pub is_stale_route : GuardianRouteV3 → GuardianRouteV3 → Bool
is_stale_route old_route new_route =
    new_route.guardian_index == old_route.guardian_index
    && (new_route.guardian_public_key != old_route.guardian_public_key
        || (not (same_bytes new_route.session_recipient_key old_route.session_recipient_key)
            || (new_route.operator_domain_commitment != old_route.operator_domain_commitment
                || (new_route.opaque_slot_id == old_route.opaque_slot_id
                    || same_bytes new_route.mailbox old_route.mailbox))))

unfoldable pub any_stale_route : List GuardianRouteV3 → List GuardianRouteV3 → Bool
any_stale_route old new = any (λ old_route. any (is_stale_route old_route) new) old

-- `collect::<BTreeSet<_>>()` of identifiers.
unfoldable pub id_set : List ℕ → Set
id_set [] = Set.empty
id_set (id ∷ ids) = Set.insert (id_set ids) id

-- `collect::<BTreeSet<_>>()` of strings.
unfoldable pub string_set : List Bytes → List Bytes
string_set [] = []
string_set (string ∷ strings) =
    let rest = string_set strings in if any (same_bytes string) rest then rest else string ∷ rest

-- Some key, mailbox, slot or domain stands twice in the new roster.
unfoldable pub repeats_identity : List GuardianRouteV3 → Bool
repeats_identity new =
    Set.size (id_set (map (λ route. route.guardian_public_key) new)) != length new
    || (length (string_set (map (λ route. route.mailbox) new)) != length new
        || (Set.size (id_set (map (λ route. route.opaque_slot_id) new)) != length new
            || Set.size (id_set (map (λ route. route.operator_domain_commitment) new))
              != length new))

module _ (c : Crypto) where
  -- The one guardian that leaves is the one of the intent, and one guardian joins under a key that no
  -- predecessor has.
  unfoldable pub check_replacement :
      RotationIntent
      → List GuardianRouteV3
      → List GuardianRouteV3
      → List GuardianRouteV3
      → List GuardianRouteV3
      → Result ProtocolError (Unit {0})
  check_replacement intent old new (removed ∷ []) (added ∷ []) = do
    bail_if
        (c.sha256 (to_be_bytes 2 removed.guardian_index) != intent.selection_constraints_commitment)
        not_one_replacement
    bail_if (any_stale_route old new) stale_route
    bail_if
        (repeats_identity new
          || Set.contains (id_set (map (λ route. route.guardian_public_key) old))
              added.guardian_public_key)
        reused_identity
  check_replacement intent old new [] added = err not_one_replacement
  check_replacement intent old new (removed ∷ []) [] = err not_one_replacement
  check_replacement intent old new (removed ∷ []) (added ∷ more ∷ added_rest) =
      err not_one_replacement
  check_replacement intent old new (removed ∷ more ∷ removed_rest) added = err not_one_replacement

  unfoldable pub validate_rotation_plan_against_intent_v3 :
      RotationPlan → RotationIntent → ConfigCapsuleV3 → ℕ → Result ProtocolError Id32
  validate_rotation_plan_against_intent_v3 plan intent predecessor now = do
    plan_hash ← validate_rotation_plan_v3 c plan predecessor now
    transcript ← written (Transcripts.rotation_intent intent)
    bail_if
        (not (same_context plan.context intent.context)
          || (plan.intent_hash != c.sha256 transcript
              || (intent.old_guardian_count != predecessor.guardian_count
                  || intent.old_guardian_threshold != predecessor.guardian_threshold)))
        outside_intent
    new_count ← try_u16 (length plan.new_roster)
    bail_if
        (not (any (λ count. count == new_count) intent.allowed_new_guardian_count)
          || (not (
                any (λ threshold. threshold == plan.new_guardian_threshold)
                  intent.allowed_new_guardian_threshold)
              || (not (
                    any (λ suite. dpss_suite_id suite == dpss_suite_id plan.dpss_suite)
                      intent.allowed_dpss_suites)
                  || (plan.dpss_qualified_set_commitment != plan.new_roster_commitment
                      || leb plan.preparation_deadline now))))
        outside_intent
    let old = route_map plan.old_roster
    let new = route_map plan.new_roster
    check_replacement intent old new (only_in old new) (only_in new old)
    ok plan_hash
