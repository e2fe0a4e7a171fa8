-- ===== src/Wire/Rotation/Described/Prepare.antt =====
-- What the transcripts of the preparation of the successor's records write.
use master_recovery.Prelude.{refl, Bool, true, false, List, [], ◌∷◌, ◌++◌, map, length}
use master_recovery.Types.Ceremony.{PreparedRecordLeaf}
use master_recovery.Types.Activation.{
  NewGuardianPreparedAck, OldGuardianHandoffAck, RotationReadyCertificate,
}
use master_recovery.Wire.Bytes.{ascii}
use master_recovery.Wire.Transcript.{id_bytes}
use master_recovery.Wire.Rotation.{max_rotation_actors}
use master_recovery.Wire.Fields.{Field, word, block}
use master_recovery.Wire.Encoding.{Writes, ◌⊕◌, bytes-Writes, u16-Writes, u64-Writes}
use master_recovery.Wire.Rotation.Items.{
  Item, Piece, plain, rows, flatten, length-map, map-AllShaped,
}
use master_recovery.Wire.Rotation.Described.{
  count-Writes, each-Writes, ends, signature_fields, optional-Writes, config_ref_fields,
  config_ref-Writes, context_fields, context-Writes, IsDescribed, described, refused-IsDescribed,
  after-IsDescribed, b, w2, w8, config_ref_shapes, context_shapes,
}
use master_recovery.Wire.Rotation.Prepare.{
  prepared_leaf_into, prepared_record_leaf_v3, prepared_ack_into, handoff_ack_into,
  new_guardian_prepared_ack, old_guardian_handoff_ack, rotation_ready_certificate,
}

abbrev pub prepared_leaf_fields : PreparedRecordLeaf → List Field
prepared_leaf_fields leaf =
    word 2 leaf.guardian_index
    ∷ word 2 leaf.fragment_index
    ∷ block (id_bytes leaf.opaque_slot_id)
    ∷ block (id_bytes leaf.encrypted_share_hash)
    ∷ block (id_bytes leaf.fragment_hash)
    ∷ block (id_bytes leaf.policy_hash)
    ∷ []

pub prepared_leaf-Writes :
    (leaf : PreparedRecordLeaf) → Writes (prepared_leaf_into leaf) (prepared_leaf_fields leaf)
unfolding prepared_leaf_into
prepared_leaf-Writes leaf =
    u16-Writes leaf.guardian_index
    ⊕ u16-Writes leaf.fragment_index
    ⊕ bytes-Writes (id_bytes leaf.opaque_slot_id)
    ⊕ bytes-Writes (id_bytes leaf.encrypted_share_hash)
    ⊕ bytes-Writes (id_bytes leaf.fragment_hash)
    ⊕ bytes-Writes (id_bytes leaf.policy_hash)

abbrev pub prepared_record_leaf_v3_items : PreparedRecordLeaf → List Item
prepared_record_leaf_v3_items value = plain (prepared_leaf_fields value) ∷ []

abbrev pub prepared_record_leaf_v3_layout : List Piece
prepared_record_leaf_v3_layout = Piece.plain (w2 ∷ w2 ∷ b ∷ b ∷ b ∷ b ∷ []) ∷ []

pub prepared_record_leaf_v3-IsDescribed :
    (value : PreparedRecordLeaf)
    → IsDescribed
        (prepared_record_leaf_v3 value)
        (ascii "gp/prepared-record-leaf/v3")
        (prepared_record_leaf_v3_items value)
        prepared_record_leaf_v3_layout
unfolding prepared_record_leaf_v3 flatten
prepared_record_leaf_v3-IsDescribed value =
    described (ascii "gp/prepared-record-leaf/v3") (prepared_leaf-Writes value) (refl, tt)

abbrev pub prepared_ack_fields : NewGuardianPreparedAck → Bool → List Field
prepared_ack_fields ack include_signature =
    (context_fields ack.context
      ++ (block (id_bytes ack.plan_hash)
          ∷ block (id_bytes ack.dpss_result_commitment)
          ∷ block (id_bytes ack.guardian_material_root)
          ∷ word 2 ack.new_guardian_index
          ∷ (prepared_leaf_fields ack.prepared_record_leaf
              ++ (word 8 ack.durable_write_generation
                  ∷ signature_fields include_signature ack.guardian_signature))))

pub prepared_ack-Writes :
    (ack : NewGuardianPreparedAck) (include_signature : Bool)
    → Writes (prepared_ack_into ack include_signature) (prepared_ack_fields ack include_signature)
unfolding prepared_ack_into
prepared_ack-Writes ack include_signature =
    context-Writes ack.context
    ⊕ bytes-Writes (id_bytes ack.plan_hash)
    ⊕ bytes-Writes (id_bytes ack.dpss_result_commitment)
    ⊕ bytes-Writes (id_bytes ack.guardian_material_root)
    ⊕ u16-Writes ack.new_guardian_index
    ⊕ prepared_leaf-Writes ack.prepared_record_leaf
    ⊕ u64-Writes ack.durable_write_generation
    ⊕ optional-Writes include_signature ack.guardian_signature

abbrev pub handoff_ack_fields : OldGuardianHandoffAck → Bool → List Field
handoff_ack_fields ack include_signature =
    (context_fields ack.context
      ++ (block (id_bytes ack.plan_hash)
          ∷ block (id_bytes ack.dpss_result_commitment)
          ∷ block (id_bytes ack.qualified_set_commitment)
          ∷ word 2 ack.old_guardian_index
          ∷ signature_fields include_signature ack.guardian_signature))

pub handoff_ack-Writes :
    (ack : OldGuardianHandoffAck) (include_signature : Bool)
    → Writes (handoff_ack_into ack include_signature) (handoff_ack_fields ack include_signature)
unfolding handoff_ack_into
handoff_ack-Writes ack include_signature =
    context-Writes ack.context
    ⊕ bytes-Writes (id_bytes ack.plan_hash)
    ⊕ bytes-Writes (id_bytes ack.dpss_result_commitment)
    ⊕ bytes-Writes (id_bytes ack.qualified_set_commitment)
    ⊕ u16-Writes ack.old_guardian_index
    ⊕ optional-Writes include_signature ack.guardian_signature

abbrev pub new_guardian_prepared_ack_items : NewGuardianPreparedAck → List Item
new_guardian_prepared_ack_items value = plain (prepared_ack_fields value false) ∷ []

abbrev pub new_guardian_prepared_ack_layout : List Piece
new_guardian_prepared_ack_layout =
    Piece.plain (context_shapes ++ (b ∷ b ∷ b ∷ w2 ∷ w2 ∷ w2 ∷ b ∷ b ∷ b ∷ b ∷ w8 ∷ [])) ∷ []

pub new_guardian_prepared_ack-IsDescribed :
    (value : NewGuardianPreparedAck)
    → IsDescribed
        (new_guardian_prepared_ack value)
        (ascii "gp/new-guardian-prepared-ack/v3")
        (new_guardian_prepared_ack_items value)
        new_guardian_prepared_ack_layout
unfolding new_guardian_prepared_ack flatten
new_guardian_prepared_ack-IsDescribed value = refused-IsDescribed _ (
    described (ascii "gp/new-guardian-prepared-ack/v3") (prepared_ack-Writes value false)
      (refl, tt))

abbrev pub old_guardian_handoff_ack_items : OldGuardianHandoffAck → List Item
old_guardian_handoff_ack_items value = plain (handoff_ack_fields value false) ∷ []

abbrev pub old_guardian_handoff_ack_layout : List Piece
old_guardian_handoff_ack_layout = Piece.plain (context_shapes ++ (b ∷ b ∷ b ∷ w2 ∷ [])) ∷ []

pub old_guardian_handoff_ack-IsDescribed :
    (value : OldGuardianHandoffAck)
    → IsDescribed
        (old_guardian_handoff_ack value)
        (ascii "gp/old-guardian-handoff-ack/v3")
        (old_guardian_handoff_ack_items value)
        old_guardian_handoff_ack_layout
unfolding old_guardian_handoff_ack flatten
old_guardian_handoff_ack-IsDescribed value =
    described (ascii "gp/old-guardian-handoff-ack/v3") (handoff_ack-Writes value false) (refl, tt)

abbrev pub rotation_ready_certificate_items : RotationReadyCertificate → List Item
rotation_ready_certificate_items value =
    plain (
      (context_fields value.context
        ++ (block (id_bytes value.plan_hash)
            ∷ (config_ref_fields value.successor
                ++ (block (id_bytes value.dpss_result_commitment)
                    ∷ block (id_bytes value.guardian_material_root)
                    ∷ block (id_bytes value.encrypted_descriptor_hash)
                    ∷ [])))))
    ∷ rows (length value.prepared_acks)
        (map (λ (ack : NewGuardianPreparedAck). prepared_ack_fields ack true) value.prepared_acks)
    ∷ rows (length value.old_handoff_acks)
        (map (λ (ack : OldGuardianHandoffAck). handoff_ack_fields ack true) value.old_handoff_acks)
    ∷ []

abbrev pub rotation_ready_certificate_layout : List Piece
rotation_ready_certificate_layout =
    Piece.plain (context_shapes ++ (b ∷ config_ref_shapes ++ (b ∷ b ∷ b ∷ [])))
    ∷ Piece.rows (context_shapes ++ (b ∷ b ∷ b ∷ w2 ∷ w2 ∷ w2 ∷ b ∷ b ∷ b ∷ b ∷ w8 ∷ b ∷ []))
    ∷ Piece.rows (context_shapes ++ (b ∷ b ∷ b ∷ w2 ∷ b ∷ []))
    ∷ []

pub rotation_ready_certificate-IsDescribed :
    (value : RotationReadyCertificate)
    → IsDescribed
        (rotation_ready_certificate value)
        (ascii "gp/rotation-ready-certificate/v3")
        (rotation_ready_certificate_items value)
        rotation_ready_certificate_layout
unfolding rotation_ready_certificate flatten
rotation_ready_certificate-IsDescribed value = after-IsDescribed _ (
    after-IsDescribed _ (
      refused-IsDescribed _ (
        described (ascii "gp/rotation-ready-certificate/v3")
          (context-Writes value.context
            ⊕ bytes-Writes (id_bytes value.plan_hash)
            ⊕ config_ref-Writes value.successor
            ⊕ bytes-Writes (id_bytes value.dpss_result_commitment)
            ⊕ bytes-Writes (id_bytes value.guardian_material_root)
            ⊕ bytes-Writes (id_bytes value.encrypted_descriptor_hash)
            ⊕ count-Writes (length value.prepared_acks) max_rotation_actors
            ⊕ each-Writes (λ (ack : NewGuardianPreparedAck). prepared_ack_into ack true)
                (λ (ack : NewGuardianPreparedAck). prepared_ack_fields ack true) value.prepared_acks
                (λ ack. prepared_ack-Writes ack true)
            ⊕ count-Writes (length value.old_handoff_acks) max_rotation_actors
            ⊕ ends (
                each-Writes (λ (ack : OldGuardianHandoffAck). handoff_ack_into ack true)
                  (λ (ack : OldGuardianHandoffAck). handoff_ack_fields ack true)
                  value.old_handoff_acks (λ ack. handoff_ack-Writes ack true)))
          (
            refl,
            (
              length-map (λ (ack : NewGuardianPreparedAck). prepared_ack_fields ack true)
                  value.prepared_acks,
              map-AllShaped
                  (context_shapes ++ (b ∷ b ∷ b ∷ w2 ∷ w2 ∷ w2 ∷ b ∷ b ∷ b ∷ b ∷ w8 ∷ b ∷ []))
                  (λ (ack : NewGuardianPreparedAck). prepared_ack_fields ack true)
                  value.prepared_acks (λ a. refl),
              (
                length-map (λ (ack : OldGuardianHandoffAck). handoff_ack_fields ack true)
                    value.old_handoff_acks,
                map-AllShaped (context_shapes ++ (b ∷ b ∷ b ∷ w2 ∷ b ∷ []))
                    (λ (ack : OldGuardianHandoffAck). handoff_ack_fields ack true)
                    value.old_handoff_acks (λ a. refl),
                tt,
              ),
            ),
          ))))
