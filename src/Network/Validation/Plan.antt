-- ===== src/Network/Validation/Plan.antt =====
-- crates/gp-network/src/rotation_protocol.rs: the plan of a rotation.
use master_recovery.Prelude.{
  ℕ, ◌-◌, ◌^◌, Bool, ◌||◌, not, length, ltb, leb, ◌!=◌, if◌then◌else◌, Result, ok, err, ◌>>=◌, ◌>>◌,
}
use master_recovery.Types.Basic.{Id32, protocol_version_v3}
use master_recovery.Types.Rotation.{same_config_ref, is_direct_successor_of}
use master_recovery.Types.Ceremony.{RotationPlan}
use master_recovery.Types.RecoveryV3.{ConfigCapsuleV3}
use master_recovery.Wire.Rotation.Plan as Transcripts
use master_recovery.Network.Validation.{
  ProtocolError, malformed_plan, mismatched_roster, length_conversion, Crypto, bail_if, written,
}

-- `u16::try_from(len)?`
unfoldable pub try_u16 : ℕ → Result ProtocolError ℕ
try_u16 len = if ltb (2 ^ 16 - 1) len then err length_conversion else ok len

-- The tests of the plan against the capsule it follows, up to the size of the new roster.
unfoldable pub breaks_policy : RotationPlan → ConfigCapsuleV3 → ℕ → Bool
breaks_policy plan predecessor now =
    plan.context.protocol_version != protocol_version_v3
    || (not (same_config_ref plan.context.config_ref predecessor.config_ref)
        || (plan.context.predecessor_capsule_hash != predecessor.capsule_hash
            || (not (same_config_ref plan.predecessor predecessor.config_ref)
                || (not (is_direct_successor_of plan.successor plan.predecessor)
                    || (ltb now plan.context.issued_at
                        || (leb plan.context.expiry now
                            || (leb plan.preparation_deadline plan.context.issued_at
                                || (leb plan.drain_deadline plan.preparation_deadline
                                    || (ltb plan.minimum_delay_secs
                                          predecessor.minimum_recovery_delay
                                        || (plan.old_guardian_threshold
                                              != predecessor.guardian_threshold
                                            || (plan.data_shards != predecessor.guardian_threshold
                                                || (plan.total_shards != predecessor.guardian_count
                                                    || (length plan.old_roster
                                                          != predecessor.guardian_count
                                                        || (length plan.new_roster
                                                            != plan.total_shards
                                                            || ltb plan.new_guardian_threshold
                                                            2))))))))))))))

module _ (c : Crypto) where
  unfoldable pub validate_rotation_plan_v3 :
      RotationPlan → ConfigCapsuleV3 → ℕ → Result ProtocolError Id32
  validate_rotation_plan_v3 plan predecessor now = do
    transcript ← written (Transcripts.rotation_plan plan)
    bail_if (breaks_policy plan predecessor now) malformed_plan
    new_count ← try_u16 (length plan.new_roster)
    bail_if (ltb new_count plan.new_guardian_threshold) malformed_plan
    old_roster ← written (Transcripts.guardian_roster_v3 plan.old_roster)
    new_roster ← written (Transcripts.guardian_roster_v3 plan.new_roster)
    bail_if
        (c.sha256 old_roster != plan.old_roster_commitment
          || c.sha256 new_roster != plan.new_roster_commitment)
        mismatched_roster
    ok (c.sha256 transcript)
