-- ===== src/Wire/Rotation/Grants.antt =====
-- crates/gp-wire/src/rotation.rs: the grants of keys, the messages of the providers and the fragments.
use master_recovery.Prelude.{Bool, ◌||◌, [], ◌∷◌, ◌==◌, Result}
use master_recovery.Types.Basic.{Bytes}
use master_recovery.Types.Ceremony.{
  OldShareUnlockGrant, NewShareWrapGrant, DpssProtocolMessage, CiphertextFragmentContribution,
}
use master_recovery.Wire.Bytes.{ascii}
use master_recovery.Wire.Frame.{WireError}
use master_recovery.Wire.Transcript.{◌>>◌, bytes, domain, u16, u64, id_bytes, transcript}
use master_recovery.Wire.Rotation.{
  refuse_if, after, context_into, unique_ids, dpss_suite_id, dpss_phase_id, bool_u16, sealed_into,
}
use master_recovery.Wire.Rotation.Prepare.{prepared_leaf_into}

unfoldable pub old_share_unlock_grant : OldShareUnlockGrant → Result WireError Bytes
old_share_unlock_grant value = transcript (
    domain (ascii "gp/old-share-unlock-grant/v3")
    >> context_into value.context
    >> bytes (id_bytes value.plan_hash)
    >> bytes (id_bytes value.release_certificate_hash)
    >> u16 value.old_guardian_index
    >> sealed_into value.encrypted_unwrap_key
    >> sealed_into value.encrypted_fragment_key)

unfoldable pub old_share_unlock_grant_payload_context :
    OldShareUnlockGrant → Bool → Result WireError Bytes
old_share_unlock_grant_payload_context value fragment_key = transcript (
    domain (ascii "gp/old-share-unlock-grant-payload/v3")
    >> context_into value.context
    >> bytes (id_bytes value.plan_hash)
    >> bytes (id_bytes value.release_certificate_hash)
    >> u16 value.old_guardian_index
    >> u16 (bool_u16 fragment_key))

unfoldable pub new_share_wrap_grant : NewShareWrapGrant → Result WireError Bytes
new_share_wrap_grant value = transcript (
    domain (ascii "gp/new-share-wrap-grant/v3")
    >> context_into value.context
    >> bytes (id_bytes value.plan_hash)
    >> bytes (id_bytes value.release_certificate_hash)
    >> u16 value.new_guardian_index
    >> sealed_into value.encrypted_wrap_key
    >> sealed_into value.encrypted_fragment_key)

unfoldable pub new_share_wrap_grant_payload_context :
    NewShareWrapGrant → Bool → Result WireError Bytes
new_share_wrap_grant_payload_context value fragment_key = transcript (
    domain (ascii "gp/new-share-wrap-grant-payload/v3")
    >> context_into value.context
    >> bytes (id_bytes value.plan_hash)
    >> bytes (id_bytes value.release_certificate_hash)
    >> u16 value.new_guardian_index
    >> u16 (bool_u16 fragment_key))

unfoldable pub dpss_protocol_message : DpssProtocolMessage → Result WireError Bytes
dpss_protocol_message value =
    refuse_if (value.sender_index == value.recipient_index || value.sequence == 0) (
      after (unique_ids (value.sender_index ∷ value.recipient_index ∷ [])) (
        transcript (
          domain (ascii "gp/dpss-protocol-message/v3")
          >> context_into value.context
          >> bytes (id_bytes value.plan_hash)
          >> u16 (dpss_suite_id value.dpss_suite)
          >> bytes (id_bytes value.dpss_session_id)
          >> bytes (id_bytes value.qualified_set_commitment)
          >> u16 (dpss_phase_id value.phase)
          >> u16 value.sender_index
          >> u16 value.recipient_index
          >> u64 value.sequence
          >> bytes value.provider_payload)))

unfoldable pub ciphertext_fragment_contribution :
    CiphertextFragmentContribution → Result WireError Bytes
ciphertext_fragment_contribution value = transcript (
    domain (ascii "gp/ciphertext-fragment-contribution/v3")
    >> context_into value.context
    >> bytes (id_bytes value.plan_hash)
    >> bytes (id_bytes value.release_certificate_hash)
    >> u16 value.old_guardian_index
    >> u16 value.fragment_index
    >> bytes value.ciphertext_fragment
    >> bytes (id_bytes value.fragment_commitment)
    >> prepared_leaf_into value.prepared_record_leaf
    >> bytes value.merkle_path_proof)
