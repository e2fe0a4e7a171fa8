-- ===== src/Wire/Rotation/Recover.antt =====
-- crates/gp-wire/src/rotation.rs: recovery.
use master_recovery.Prelude.{
  ℕ, Bool, true, false, ◌&&◌, ◌||◌, not, map, length, leb, ◌==◌, ◌!=◌, Result,
}
use master_recovery.Types.Basic.{Bytes, protocol_version_v3}
use master_recovery.Types.Rotation.{RecoveryRequestV3, same_config_ref}
use master_recovery.Types.RecoveryV3.{
  SignerRecoveryContributionV3, BeginRecoveryCertificateV3, SignerRecoveryReleaseVoteV3,
  RecoveryReleaseCertificateV3, OwnerRecoveryCancelCertificateV3, OwnerRecoveryCancelAckV3,
  GuardianRecoveryContributionV3,
}
use master_recovery.Wire.Bytes.{ascii, same_bytes}
use master_recovery.Wire.Frame.{WireError}
use master_recovery.Wire.Transcript.{
  Writer, ◌>>◌, bytes, domain, u16, u64, nested, id_bytes, transcript,
}
use master_recovery.Wire.Rotation.{
  max_rotation_actors, refuse_if, after, each, any, optional_bytes, config_ref_into, bounded_count,
  unique_ids, sealed_into,
}

-- The derived `==` of `RecoveryRequestV3`.
unfoldable pub same_request_v3 : RecoveryRequestV3 → RecoveryRequestV3 → Bool
same_request_v3 a b =
    a.protocol_version == b.protocol_version
    && (same_config_ref a.config_ref b.config_ref
        && (a.request_id == b.request_id
            && (same_bytes a.recovery_recipient_key b.recovery_recipient_key
                && (a.requested_at == b.requested_at
                    && (a.nonce == b.nonce && a.expiry == b.expiry)))))

unfoldable pub recovery_request_v3 : RecoveryRequestV3 → Result WireError Bytes
recovery_request_v3 value =
    refuse_if (value.protocol_version != protocol_version_v3 || leb value.expiry value.requested_at)
      (transcript (
        domain (ascii "gp/recovery-request/v3")
        >> u16 value.protocol_version
        >> config_ref_into value.config_ref
        >> bytes (id_bytes value.request_id)
        >> bytes value.recovery_recipient_key
        >> u64 value.requested_at
        >> bytes (id_bytes value.nonce)
        >> u64 value.expiry))

unfoldable pub recovery_request_digest_v3 : RecoveryRequestV3 → Result WireError Bytes
recovery_request_digest_v3 value =
    transcript
      (domain (ascii "gp/recovery-request-digest/v3") >> nested (recovery_request_v3 value))

unfoldable pub recovery_authorization_share_context_v3 :
    RecoveryRequestV3 → ℕ → Result WireError Bytes
recovery_authorization_share_context_v3 request signer_id = transcript (
    domain (ascii "gp/recovery-a-share-context/v3")
    >> nested (recovery_request_v3 request)
    >> u16 signer_id)

unfoldable pub signer_recovery_contribution_into : SignerRecoveryContributionV3 → Bool → Writer
signer_recovery_contribution_into value include_signature =
    nested (recovery_request_v3 value.request)
    >> u16 value.signer_id
    >> bytes (id_bytes value.signer_public_key)
    >> bytes value.signer_membership_proof
    >> sealed_into value.encrypted_authorization_share
    >> optional_bytes include_signature value.signer_signature

unfoldable pub signer_recovery_contribution_v3 :
    SignerRecoveryContributionV3 → Result WireError Bytes
signer_recovery_contribution_v3 value = transcript (
    domain (ascii "gp/signer-recovery-contribution/v3")
    >> signer_recovery_contribution_into value false)

unfoldable pub begin_recovery_certificate_v3 : BeginRecoveryCertificateV3 → Result WireError Bytes
begin_recovery_certificate_v3 value =
    after (unique_ids (map (λ item. item.signer_id) value.signer_contributions)) (
      refuse_if
        (any (λ item. not (same_request_v3 item.request value.request)) value.signer_contributions)
        (transcript (
          domain (ascii "gp/begin-recovery-certificate/v3")
          >> nested (recovery_request_v3 value.request)
          >> bytes (id_bytes value.request_digest)
          >> bounded_count (length value.signer_contributions) max_rotation_actors
          >> each
              (λ (contribution : SignerRecoveryContributionV3).
                signer_recovery_contribution_into contribution true)
              value.signer_contributions)))

unfoldable pub signer_recovery_release_vote_into : SignerRecoveryReleaseVoteV3 → Bool → Writer
signer_recovery_release_vote_into value include_signature =
    nested (recovery_request_v3 value.request)
    >> bytes (id_bytes value.request_digest)
    >> u16 value.signer_id
    >> bytes (id_bytes value.signer_public_key)
    >> bytes value.signer_membership_proof
    >> optional_bytes include_signature value.signer_signature

unfoldable pub signer_recovery_release_vote_v3 :
    SignerRecoveryReleaseVoteV3 → Result WireError Bytes
signer_recovery_release_vote_v3 value = transcript (
    domain (ascii "gp/signer-recovery-release-vote/v3")
    >> signer_recovery_release_vote_into value false)

unfoldable pub recovery_release_certificate_v3 :
    RecoveryReleaseCertificateV3 → Result WireError Bytes
recovery_release_certificate_v3 value =
    after (unique_ids (map (λ vote. vote.signer_id) value.votes)) (
      refuse_if
        (any
          (λ vote.
            not (same_request_v3 vote.request value.request)
            || vote.request_digest != value.request_digest)
          value.votes)
        (transcript (
          domain (ascii "gp/recovery-release-certificate/v3")
          >> nested (recovery_request_v3 value.request)
          >> bytes (id_bytes value.request_digest)
          >> bounded_count (length value.votes) max_rotation_actors
          >> each
              (λ (vote : SignerRecoveryReleaseVoteV3). signer_recovery_release_vote_into vote true)
              value.votes)))

unfoldable pub owner_recovery_cancel_certificate_v3 :
    OwnerRecoveryCancelCertificateV3 → Result WireError Bytes
owner_recovery_cancel_certificate_v3 value = transcript (
    domain (ascii "gp/owner-recovery-cancel/v3")
    >> nested (recovery_request_v3 value.request)
    >> bytes (id_bytes value.request_digest)
    >> u16 value.reason_code
    >> bytes value.cancel_response_recipient_key
    >> bytes (id_bytes value.owner_cancel_public_key))

unfoldable pub owner_recovery_cancel_ack_v3 : OwnerRecoveryCancelAckV3 → Result WireError Bytes
owner_recovery_cancel_ack_v3 value = transcript (
    domain (ascii "gp/owner-recovery-cancel-ack/v3")
    >> config_ref_into value.config_ref
    >> bytes (id_bytes value.request_id)
    >> bytes (id_bytes value.request_digest)
    >> bytes (id_bytes value.cancel_certificate_hash)
    >> u16 value.guardian_index)

unfoldable pub guardian_recovery_contribution_v3 :
    GuardianRecoveryContributionV3 → Result WireError Bytes
guardian_recovery_contribution_v3 value =
    refuse_if (value.guardian_index == 0 || value.fragment_index == 0) (
      transcript (
        domain (ascii "gp/guardian-recovery-contribution/v3")
        >> config_ref_into value.config_ref
        >> bytes (id_bytes value.request_id)
        >> bytes (id_bytes value.request_digest)
        >> bytes value.recovery_recipient_key
        >> bytes (id_bytes value.nonce)
        >> u16 value.guardian_index
        >> u16 value.fragment_index
        >> bytes value.encrypted_ciphertext_fragment.nonce
        >> bytes value.encrypted_ciphertext_fragment.ciphertext
        >> bytes value.encrypted_dek_share.nonce
        >> bytes value.encrypted_dek_share.ciphertext
        >> bytes value.merkle_path_proof))
