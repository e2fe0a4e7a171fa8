-- ===== src/Wire/Rotation/Described/Grants.antt =====
-- What the transcripts of the grants of keys, the messages of the providers and the fragments write.
use master_recovery.Prelude.{refl, Bool, List, [], ◌∷◌, ◌++◌}
use master_recovery.Types.Ceremony.{
  OldShareUnlockGrant, NewShareWrapGrant, DpssProtocolMessage, CiphertextFragmentContribution,
}
use master_recovery.Wire.Bytes.{ascii}
use master_recovery.Wire.Transcript.{id_bytes}
use master_recovery.Wire.Rotation.{dpss_suite_id, dpss_phase_id, bool_u16}
use master_recovery.Wire.Fields.{word, block}
use master_recovery.Wire.Encoding.{◌⊕◌, bytes-Writes, u16-Writes, u64-Writes}
use master_recovery.Wire.Rotation.Items.{Item, Piece, plain, flatten}
use master_recovery.Wire.Rotation.Described.{
  context_fields, context-Writes, sealed_fields, sealed-Writes, IsDescribed, described,
  refused-IsDescribed, after-IsDescribed, b, w2, w8, context_shapes, sealed_shapes,
}
use master_recovery.Wire.Rotation.Grants.{
  old_share_unlock_grant, old_share_unlock_grant_payload_context, new_share_wrap_grant,
  new_share_wrap_grant_payload_context, dpss_protocol_message, ciphertext_fragment_contribution,
}
use master_recovery.Wire.Rotation.Described.Prepare.{prepared_leaf_fields, prepared_leaf-Writes}

abbrev pub old_share_unlock_grant_items : OldShareUnlockGrant → List Item
old_share_unlock_grant_items value =
    plain (
      (context_fields value.context
        ++ (block (id_bytes value.plan_hash)
            ∷ block (id_bytes value.release_certificate_hash)
            ∷ word 2 value.old_guardian_index
            ∷ (sealed_fields value.encrypted_unwrap_key
                ++ (sealed_fields value.encrypted_fragment_key)))))
    ∷ []

abbrev pub old_share_unlock_grant_layout : List Piece
old_share_unlock_grant_layout =
    Piece.plain (context_shapes ++ (b ∷ b ∷ w2 ∷ sealed_shapes ++ (sealed_shapes ++ ([])))) ∷ []

pub old_share_unlock_grant-IsDescribed :
    (value : OldShareUnlockGrant)
    → IsDescribed
        (old_share_unlock_grant value)
        (ascii "gp/old-share-unlock-grant/v3")
        (old_share_unlock_grant_items value)
        old_share_unlock_grant_layout
unfolding old_share_unlock_grant flatten
old_share_unlock_grant-IsDescribed value =
    described (ascii "gp/old-share-unlock-grant/v3")
      (context-Writes value.context
        ⊕ bytes-Writes (id_bytes value.plan_hash)
        ⊕ bytes-Writes (id_bytes value.release_certificate_hash)
        ⊕ u16-Writes value.old_guardian_index
        ⊕ sealed-Writes value.encrypted_unwrap_key
        ⊕ sealed-Writes value.encrypted_fragment_key)
      (refl, tt)

abbrev pub old_share_unlock_grant_payload_context_items : OldShareUnlockGrant → Bool → List Item
old_share_unlock_grant_payload_context_items value fragment_key =
    plain (
      (context_fields value.context
        ++ (block (id_bytes value.plan_hash)
            ∷ block (id_bytes value.release_certificate_hash)
            ∷ word 2 value.old_guardian_index
            ∷ word 2 (bool_u16 fragment_key)
            ∷ [])))
    ∷ []

abbrev pub old_share_unlock_grant_payload_context_layout : List Piece
old_share_unlock_grant_payload_context_layout =
    Piece.plain (context_shapes ++ (b ∷ b ∷ w2 ∷ w2 ∷ [])) ∷ []

pub old_share_unlock_grant_payload_context-IsDescribed :
    (value : OldShareUnlockGrant) (fragment_key : Bool)
    → IsDescribed
        (old_share_unlock_grant_payload_context value fragment_key)
        (ascii "gp/old-share-unlock-grant-payload/v3")
        (old_share_unlock_grant_payload_context_items value fragment_key)
        old_share_unlock_grant_payload_context_layout
unfolding old_share_unlock_grant_payload_context flatten
old_share_unlock_grant_payload_context-IsDescribed value fragment_key =
    described (ascii "gp/old-share-unlock-grant-payload/v3")
      (context-Writes value.context
        ⊕ bytes-Writes (id_bytes value.plan_hash)
        ⊕ bytes-Writes (id_bytes value.release_certificate_hash)
        ⊕ u16-Writes value.old_guardian_index
        ⊕ u16-Writes (bool_u16 fragment_key))
      (refl, tt)

abbrev pub new_share_wrap_grant_items : NewShareWrapGrant → List Item
new_share_wrap_grant_items value =
    plain (
      (context_fields value.context
        ++ (block (id_bytes value.plan_hash)
            ∷ block (id_bytes value.release_certificate_hash)
            ∷ word 2 value.new_guardian_index
            ∷ (sealed_fields value.encrypted_wrap_key
                ++ (sealed_fields value.encrypted_fragment_key)))))
    ∷ []

abbrev pub new_share_wrap_grant_layout : List Piece
new_share_wrap_grant_layout =
    Piece.plain (context_shapes ++ (b ∷ b ∷ w2 ∷ sealed_shapes ++ (sealed_shapes ++ ([])))) ∷ []

pub new_share_wrap_grant-IsDescribed :
    (value : NewShareWrapGrant)
    → IsDescribed
        (new_share_wrap_grant value)
        (ascii "gp/new-share-wrap-grant/v3")
        (new_share_wrap_grant_items value)
        new_share_wrap_grant_layout
unfolding new_share_wrap_grant flatten
new_share_wrap_grant-IsDescribed value =
    described (ascii "gp/new-share-wrap-grant/v3")
      (context-Writes value.context
        ⊕ bytes-Writes (id_bytes value.plan_hash)
        ⊕ bytes-Writes (id_bytes value.release_certificate_hash)
        ⊕ u16-Writes value.new_guardian_index
        ⊕ sealed-Writes value.encrypted_wrap_key
        ⊕ sealed-Writes value.encrypted_fragment_key)
      (refl, tt)

abbrev pub new_share_wrap_grant_payload_context_items : NewShareWrapGrant → Bool → List Item
new_share_wrap_grant_payload_context_items value fragment_key =
    plain (
      (context_fields value.context
        ++ (block (id_bytes value.plan_hash)
            ∷ block (id_bytes value.release_certificate_hash)
            ∷ word 2 value.new_guardian_index
            ∷ word 2 (bool_u16 fragment_key)
            ∷ [])))
    ∷ []

abbrev pub new_share_wrap_grant_payload_context_layout : List Piece
new_share_wrap_grant_payload_context_layout =
    Piece.plain (context_shapes ++ (b ∷ b ∷ w2 ∷ w2 ∷ [])) ∷ []

pub new_share_wrap_grant_payload_context-IsDescribed :
    (value : NewShareWrapGrant) (fragment_key : Bool)
    → IsDescribed
        (new_share_wrap_grant_payload_context value fragment_key)
        (ascii "gp/new-share-wrap-grant-payload/v3")
        (new_share_wrap_grant_payload_context_items value fragment_key)
        new_share_wrap_grant_payload_context_layout
unfolding new_share_wrap_grant_payload_context flatten
new_share_wrap_grant_payload_context-IsDescribed value fragment_key =
    described (ascii "gp/new-share-wrap-grant-payload/v3")
      (context-Writes value.context
        ⊕ bytes-Writes (id_bytes value.plan_hash)
        ⊕ bytes-Writes (id_bytes value.release_certificate_hash)
        ⊕ u16-Writes value.new_guardian_index
        ⊕ u16-Writes (bool_u16 fragment_key))
      (refl, tt)

abbrev pub dpss_protocol_message_items : DpssProtocolMessage → List Item
dpss_protocol_message_items value =
    plain (
      (context_fields value.context
        ++ (block (id_bytes value.plan_hash)
            ∷ word 2 (dpss_suite_id value.dpss_suite)
            ∷ block (id_bytes value.dpss_session_id)
            ∷ block (id_bytes value.qualified_set_commitment)
            ∷ word 2 (dpss_phase_id value.phase)
            ∷ word 2 value.sender_index
            ∷ word 2 value.recipient_index
            ∷ word 8 value.sequence
            ∷ block value.provider_payload
            ∷ [])))
    ∷ []

abbrev pub dpss_protocol_message_layout : List Piece
dpss_protocol_message_layout =
    Piece.plain (context_shapes ++ (b ∷ w2 ∷ b ∷ b ∷ w2 ∷ w2 ∷ w2 ∷ w8 ∷ b ∷ [])) ∷ []

pub dpss_protocol_message-IsDescribed :
    (value : DpssProtocolMessage)
    → IsDescribed
        (dpss_protocol_message value)
        (ascii "gp/dpss-protocol-message/v3")
        (dpss_protocol_message_items value)
        dpss_protocol_message_layout
unfolding dpss_protocol_message flatten
dpss_protocol_message-IsDescribed value = refused-IsDescribed _ (
    after-IsDescribed _ (
      described (ascii "gp/dpss-protocol-message/v3")
        (context-Writes value.context
          ⊕ bytes-Writes (id_bytes value.plan_hash)
          ⊕ u16-Writes (dpss_suite_id value.dpss_suite)
          ⊕ bytes-Writes (id_bytes value.dpss_session_id)
          ⊕ bytes-Writes (id_bytes value.qualified_set_commitment)
          ⊕ u16-Writes (dpss_phase_id value.phase)
          ⊕ u16-Writes value.sender_index
          ⊕ u16-Writes value.recipient_index
          ⊕ u64-Writes value.sequence
          ⊕ bytes-Writes value.provider_payload)
        (refl, tt)))

abbrev pub ciphertext_fragment_contribution_items : CiphertextFragmentContribution → List Item
ciphertext_fragment_contribution_items value =
    plain (
      (context_fields value.context
        ++ (block (id_bytes value.plan_hash)
            ∷ block (id_bytes value.release_certificate_hash)
            ∷ word 2 value.old_guardian_index
            ∷ word 2 value.fragment_index
            ∷ block value.ciphertext_fragment
            ∷ block (id_bytes value.fragment_commitment)
            ∷ (prepared_leaf_fields value.prepared_record_leaf
                ++ (block value.merkle_path_proof ∷ [])))))
    ∷ []

abbrev pub ciphertext_fragment_contribution_layout : List Piece
ciphertext_fragment_contribution_layout =
    Piece.plain (context_shapes ++ (b ∷ b ∷ w2 ∷ w2 ∷ b ∷ b ∷ w2 ∷ w2 ∷ b ∷ b ∷ b ∷ b ∷ b ∷ []))
    ∷ []

pub ciphertext_fragment_contribution-IsDescribed :
    (value : CiphertextFragmentContribution)
    → IsDescribed
        (ciphertext_fragment_contribution value)
        (ascii "gp/ciphertext-fragment-contribution/v3")
        (ciphertext_fragment_contribution_items value)
        ciphertext_fragment_contribution_layout
unfolding ciphertext_fragment_contribution flatten
ciphertext_fragment_contribution-IsDescribed value =
    described (ascii "gp/ciphertext-fragment-contribution/v3")
      (context-Writes value.context
        ⊕ bytes-Writes (id_bytes value.plan_hash)
        ⊕ bytes-Writes (id_bytes value.release_certificate_hash)
        ⊕ u16-Writes value.old_guardian_index
        ⊕ u16-Writes value.fragment_index
        ⊕ bytes-Writes value.ciphertext_fragment
        ⊕ bytes-Writes (id_bytes value.fragment_commitment)
        ⊕ prepared_leaf-Writes value.prepared_record_leaf
        ⊕ bytes-Writes value.merkle_path_proof)
      (refl, tt)
