-- ===== src/Wire/Rotation/Prepare.antt =====
-- crates/gp-wire/src/rotation.rs: the preparation of the successor's records.
use master_recovery.Prelude.{Bool, true, false, ◌||◌, not, map, length, ◌==◌, ◌!=◌, Result}
use master_recovery.Types.Basic.{Bytes}
use master_recovery.Types.Ceremony.{PreparedRecordLeaf}
use master_recovery.Types.Activation.{
  NewGuardianPreparedAck, OldGuardianHandoffAck, RotationReadyCertificate,
}
use master_recovery.Wire.Bytes.{ascii}
use master_recovery.Wire.Frame.{WireError}
use master_recovery.Wire.Transcript.{Writer, ◌>>◌, bytes, domain, u16, u64, id_bytes, transcript}
use master_recovery.Wire.Rotation.{
  max_rotation_actors, refuse_if, after, each, any, optional_bytes, config_ref_into, context_into,
  same_rotation, bounded_count, unique_ids,
}

-- The test of a ack by the certificate that holds it.
unfoldable pub other_prepared : RotationReadyCertificate → NewGuardianPreparedAck → Bool
other_prepared value ack =
    not (same_rotation value.context ack.context)
    || (ack.plan_hash != value.plan_hash
        || (ack.dpss_result_commitment != value.dpss_result_commitment
            || (ack.guardian_material_root != value.guardian_material_root
                || (ack.new_guardian_index != ack.prepared_record_leaf.guardian_index
                    || ack.durable_write_generation == 0))))

-- The test of a ack by the certificate that holds it.
unfoldable pub other_handoff : RotationReadyCertificate → OldGuardianHandoffAck → Bool
other_handoff value ack =
    not (same_rotation value.context ack.context)
    || (ack.plan_hash != value.plan_hash
        || ack.dpss_result_commitment != value.dpss_result_commitment)

unfoldable pub prepared_leaf_into : PreparedRecordLeaf → Writer
prepared_leaf_into leaf =
    u16 leaf.guardian_index
    >> u16 leaf.fragment_index
    >> bytes (id_bytes leaf.opaque_slot_id)
    >> bytes (id_bytes leaf.encrypted_share_hash)
    >> bytes (id_bytes leaf.fragment_hash)
    >> bytes (id_bytes leaf.policy_hash)

unfoldable pub prepared_record_leaf_v3 : PreparedRecordLeaf → Result WireError Bytes
prepared_record_leaf_v3 value =
    transcript (domain (ascii "gp/prepared-record-leaf/v3") >> prepared_leaf_into value)

unfoldable pub prepared_ack_into : NewGuardianPreparedAck → Bool → Writer
prepared_ack_into ack include_signature =
    context_into ack.context
    >> bytes (id_bytes ack.plan_hash)
    >> bytes (id_bytes ack.dpss_result_commitment)
    >> bytes (id_bytes ack.guardian_material_root)
    >> u16 ack.new_guardian_index
    >> prepared_leaf_into ack.prepared_record_leaf
    >> u64 ack.durable_write_generation
    >> optional_bytes include_signature ack.guardian_signature

unfoldable pub handoff_ack_into : OldGuardianHandoffAck → Bool → Writer
handoff_ack_into ack include_signature =
    context_into ack.context
    >> bytes (id_bytes ack.plan_hash)
    >> bytes (id_bytes ack.dpss_result_commitment)
    >> bytes (id_bytes ack.qualified_set_commitment)
    >> u16 ack.old_guardian_index
    >> optional_bytes include_signature ack.guardian_signature

unfoldable pub new_guardian_prepared_ack : NewGuardianPreparedAck → Result WireError Bytes
new_guardian_prepared_ack value =
    refuse_if
      (value.new_guardian_index != value.prepared_record_leaf.guardian_index
        || value.durable_write_generation == 0)
      (transcript
        (domain (ascii "gp/new-guardian-prepared-ack/v3") >> prepared_ack_into value false))

unfoldable pub old_guardian_handoff_ack : OldGuardianHandoffAck → Result WireError Bytes
old_guardian_handoff_ack value =
    transcript (domain (ascii "gp/old-guardian-handoff-ack/v3") >> handoff_ack_into value false)

unfoldable pub rotation_ready_certificate : RotationReadyCertificate → Result WireError Bytes
rotation_ready_certificate value =
    after (unique_ids (map (λ ack. ack.new_guardian_index) value.prepared_acks)) (
      after (unique_ids (map (λ ack. ack.old_guardian_index) value.old_handoff_acks)) (
        refuse_if
          (any (other_prepared value) value.prepared_acks
            || any (other_handoff value) value.old_handoff_acks)
          (transcript (
            domain (ascii "gp/rotation-ready-certificate/v3")
            >> context_into value.context
            >> bytes (id_bytes value.plan_hash)
            >> config_ref_into value.successor
            >> bytes (id_bytes value.dpss_result_commitment)
            >> bytes (id_bytes value.guardian_material_root)
            >> bytes (id_bytes value.encrypted_descriptor_hash)
            >> bounded_count (length value.prepared_acks) max_rotation_actors
            >> each (λ (ack : NewGuardianPreparedAck). prepared_ack_into ack true)
                value.prepared_acks
            >> bounded_count (length value.old_handoff_acks) max_rotation_actors
            >> each (λ (ack : OldGuardianHandoffAck). handoff_ack_into ack true)
                value.old_handoff_acks))))
