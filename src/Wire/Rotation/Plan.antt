-- ===== src/Wire/Rotation/Plan.antt =====
-- crates/gp-wire/src/rotation.rs: the intent to rotate and the plan.
use master_recovery.Prelude.{ℕ, ◌||◌, not, List, map, length, ltb, ◌==◌, Result}
use master_recovery.Types.Basic.{Bytes, Id32}
use master_recovery.Types.Rotation.{same_config_ref, is_direct_successor_of}
use master_recovery.Types.Epoch.{RotationContext, RotationIntent, DpssSuiteId}
use master_recovery.Types.Ceremony.{GuardianRouteV3, SignerRotationIntentContribution, RotationPlan}
use master_recovery.Wire.Bytes.{ascii}
use master_recovery.Wire.Frame.{WireError}
use master_recovery.Wire.Transcript.{◌>>◌, bytes, domain, u16, u64, id_bytes, transcript}
use master_recovery.Wire.Rotation.{
  max_rotation_actors, refuse_if, after, each, config_ref_into, context_into, bounded_count,
  unique_ids, dpss_suite_id, reason_id, sealed_into, route_into,
}

unfoldable pub guardian_roster_v3 : List GuardianRouteV3 → Result WireError Bytes
guardian_roster_v3 routes = after (unique_ids (map (λ route. route.guardian_index) routes)) (
    transcript (
      domain (ascii "gp/private-guardian-roster/v3")
      >> bounded_count (length routes) max_rotation_actors
      >> each (λ (route : GuardianRouteV3). route_into route) routes))

unfoldable pub rotation_intent : RotationIntent → Result WireError Bytes
rotation_intent value = transcript (
    domain (ascii "gp/rotation-intent/v3")
    >> context_into value.context
    >> u16 (reason_id value.reason)
    >> u16 value.old_guardian_count
    >> u16 value.old_guardian_threshold
    >> bounded_count (length value.allowed_new_guardian_count) max_rotation_actors
    >> each (λ (count : ℕ). u16 count) value.allowed_new_guardian_count
    >> bounded_count (length value.allowed_new_guardian_threshold) max_rotation_actors
    >> each (λ (threshold : ℕ). u16 threshold) value.allowed_new_guardian_threshold
    >> bounded_count (length value.allowed_dpss_suites) 32
    >> each (λ (suite : DpssSuiteId). u16 (dpss_suite_id suite)) value.allowed_dpss_suites
    >> bytes (id_bytes value.selection_constraints_commitment)
    >> bytes (id_bytes value.witness_read_qc_hash))

unfoldable pub signer_rotation_intent_contribution :
    SignerRotationIntentContribution → Result WireError Bytes
signer_rotation_intent_contribution value = transcript (
    domain (ascii "gp/signer-rotation-intent-contribution/v3")
    >> context_into value.context
    >> bytes (id_bytes value.intent_hash)
    >> u16 value.signer_id
    >> bytes (id_bytes value.signer_public_key)
    >> bytes value.signer_membership_proof
    >> sealed_into value.encrypted_authorization_share)

unfoldable pub rotation_intent_share_context_v3 :
    RotationContext → Id32 → ℕ → Result WireError Bytes
rotation_intent_share_context_v3 context intent_hash signer_id = transcript (
    domain (ascii "gp/rotation-intent-a-share-context/v3")
    >> context_into context
    >> bytes (id_bytes intent_hash)
    >> u16 signer_id)

unfoldable pub rotation_plan : RotationPlan → Result WireError Bytes
rotation_plan value =
    refuse_if
      (not (is_direct_successor_of value.successor value.predecessor)
        || (not (same_config_ref value.context.config_ref value.predecessor)
            || (value.old_guardian_threshold == 0
                || (value.new_guardian_threshold == 0
                    || (ltb (length value.old_roster) value.old_guardian_threshold
                        || (ltb (length value.new_roster) value.new_guardian_threshold
                            || (value.data_shards == 0
                                || ltb value.total_shards value.data_shards)))))))
      (after (unique_ids (map (λ route. route.guardian_index) value.old_roster)) (
        after (unique_ids (map (λ route. route.guardian_index) value.new_roster)) (
          transcript (
            domain (ascii "gp/rotation-plan/v3")
            >> context_into value.context
            >> bytes (id_bytes value.intent_hash)
            >> config_ref_into value.predecessor
            >> config_ref_into value.successor
            >> bounded_count (length value.old_roster) max_rotation_actors
            >> each (λ (route : GuardianRouteV3). route_into route) value.old_roster
            >> bounded_count (length value.new_roster) max_rotation_actors
            >> each (λ (route : GuardianRouteV3). route_into route) value.new_roster
            >> bytes (id_bytes value.old_roster_commitment)
            >> bytes (id_bytes value.new_roster_commitment)
            >> u16 value.old_guardian_threshold
            >> u16 value.new_guardian_threshold
            >> u16 value.data_shards
            >> u16 value.total_shards
            >> u16 (dpss_suite_id value.dpss_suite)
            >> bytes (id_bytes value.dpss_session_id)
            >> bytes (id_bytes value.dpss_qualified_set_commitment)
            >> u64 value.minimum_delay_secs
            >> u64 value.preparation_deadline
            >> u64 value.drain_deadline))))
