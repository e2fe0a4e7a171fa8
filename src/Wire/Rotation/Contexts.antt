-- ===== src/Wire/Rotation/Contexts.antt =====
-- crates/gp-wire/src/rotation.rs: the contexts of ciphertexts, capsules, policies and custody.
use master_recovery.Prelude.{ℕ, ◌||◌, map, length, ltb, ◌==◌, ◌!=◌, Result}
use master_recovery.Types.Basic.{Bytes, Id32, protocol_version_v3}
use master_recovery.Types.Rotation.{ConfigRef}
use master_recovery.Types.Epoch.{GuardianPolicyV3}
use master_recovery.Types.RecoveryV3.{
  ConfigCapsuleV3, CustodyChallenge, CustodyBlockProof, CustodyResponse,
}
use master_recovery.Wire.Bytes.{ascii}
use master_recovery.Wire.Frame.{WireError}
use master_recovery.Wire.Transcript.{◌>>◌, bytes, domain, u16, u32, u64, id_bytes, transcript}
use master_recovery.Wire.Rotation.{
  refuse_if, after, each, is_empty, config_ref_into, bounded_count, no_repeats, dpss_suite_id,
}

unfoldable pub guardian_share_context_v3 : ConfigRef → ℕ → Result WireError Bytes
guardian_share_context_v3 config_ref guardian_index = transcript (
    domain (ascii "gp/guardian-dek-share-context/v3")
    >> config_ref_into config_ref
    >> u16 guardian_index)

unfoldable pub guardian_fragment_context_v3 : ConfigRef → ℕ → ℕ → Result WireError Bytes
guardian_fragment_context_v3 config_ref guardian_index fragment_index = transcript (
    domain (ascii "gp/guardian-ciphertext-fragment-context/v3")
    >> config_ref_into config_ref
    >> u16 guardian_index
    >> u16 fragment_index)

unfoldable pub descriptor_context_v3 : ConfigRef → Result WireError Bytes
descriptor_context_v3 config_ref =
    transcript (domain (ascii "gp/recovery-descriptor-context/v3") >> config_ref_into config_ref)

unfoldable pub config_capsule_body_v3 : ConfigCapsuleV3 → Result WireError Bytes
config_capsule_body_v3 value =
    refuse_if
      (value.protocol_version != protocol_version_v3
        || (value.signer_threshold == 0
            || (ltb value.signer_count value.signer_threshold
                || (ltb value.guardian_threshold 2
                    || ltb value.guardian_count value.guardian_threshold))))
      (transcript (
        domain (ascii "gp/config-capsule-body/v3")
        >> u16 value.protocol_version
        >> config_ref_into value.config_ref
        >> bytes (id_bytes value.predecessor_capsule_hash)
        >> u16 value.signer_count
        >> u16 value.signer_threshold
        >> u16 value.guardian_count
        >> u16 value.guardian_threshold
        >> u64 value.minimum_recovery_delay
        >> u64 value.max_request_lifetime
        >> bytes (id_bytes value.signer_set_commitment)
        >> bytes (id_bytes value.owner_cancel_public_key)
        >> u16 (dpss_suite_id value.dpss_suite)
        >> bytes (id_bytes value.dpss_public_commitment)
        >> bytes (id_bytes value.ciphertext_fragment_root)
        >> bytes (id_bytes value.guardian_material_root)
        >> bytes value.encrypted_recovery_descriptor.nonce
        >> bytes value.encrypted_recovery_descriptor.ciphertext))

unfoldable pub guardian_policy_body_v3 : GuardianPolicyV3 → Result WireError Bytes
guardian_policy_body_v3 value =
    refuse_if
      (value.signer_threshold == 0
        || (ltb value.signer_count value.signer_threshold || value.minimum_recovery_delay == 0))
      (transcript (
        domain (ascii "gp/guardian-policy-body/v3")
        >> config_ref_into value.config_ref
        >> bytes (id_bytes value.signer_set_commitment)
        >> u16 value.signer_count
        >> u16 value.signer_threshold
        >> bytes (id_bytes value.owner_cancel_public_key)
        >> u64 value.minimum_recovery_delay
        >> u16 (dpss_suite_id value.dpss_suite)
        >> bytes (id_bytes value.dpss_public_commitment)
        >> bytes (id_bytes value.predecessor_capsule_hash)))

unfoldable pub payload_context_v3 : Id32 → ℕ → Result WireError Bytes
payload_context_v3 config_id payload_generation =
    transcript (
      domain (ascii "gp/payload-context/v3")
      >> bytes (id_bytes config_id)
      >> u64 payload_generation)

unfoldable pub custody_challenge : CustodyChallenge → Result WireError Bytes
custody_challenge value =
    refuse_if (value.protocol_version != protocol_version_v3 || is_empty value.block_indices) (
      after (no_repeats value.block_indices) (
        transcript (
          domain (ascii "gp/custody-challenge/v3")
          >> u16 value.protocol_version
          >> config_ref_into value.config_ref
          >> bytes (id_bytes value.opaque_slot_id)
          >> bytes (id_bytes value.challenge_id)
          >> bounded_count (length value.block_indices) 4096
          >> each (λ (index : ℕ). u32 index) value.block_indices
          >> bytes (id_bytes value.nonce)
          >> bytes value.response_recipient_key
          >> u64 value.expiry)))

unfoldable pub custody_response : CustodyResponse → Result WireError Bytes
custody_response value =
    refuse_if (value.protocol_version != protocol_version_v3 || is_empty value.proofs) (
      after (no_repeats (map (λ proof. proof.block_index) value.proofs)) (
        transcript (
          domain (ascii "gp/custody-response/v3")
          >> u16 value.protocol_version
          >> config_ref_into value.config_ref
          >> bytes (id_bytes value.opaque_slot_id)
          >> bytes (id_bytes value.challenge_id)
          >> bytes (id_bytes value.nonce)
          >> u16 value.guardian_index
          >> bounded_count (length value.proofs) 4096
          >> each
              (λ (proof : CustodyBlockProof).
                u32 proof.block_index >> bytes proof.block >> bytes proof.merkle_path)
              value.proofs)))
