-- ===== src/Network/Validation/Recovery.antt =====
-- crates/gp-network/src/rotation_protocol.rs: the certificates of a recovery.
use master_recovery.Prelude.{
  ℕ, ◌||◌, not, map, length, ltb, leb, ◌!=◌, saturating_add, Result, ok, ◌>>=◌, ◌>>◌,
}
use master_recovery.Types.Basic.{Id32, protocol_version_v3}
use master_recovery.Types.Rotation.{ConfigRef, RecoveryRequestV3, same_config_ref}
use master_recovery.Types.RecoveryV3.{
  ConfigCapsuleV3, SignerRecoveryContributionV3, SignerRecoveryReleaseVoteV3,
  BeginRecoveryCertificateV3, RecoveryReleaseCertificateV3, OwnerRecoveryCancelCertificateV3,
}
use master_recovery.Wire.Rotation.Recover as Recover
use master_recovery.Wire.Rotation.Recover.{same_request_v3}
use master_recovery.Network.Validation.{
  ProtocolError, invalid_request, wrong_digest, mismatched_cancellation, Crypto, SignedVote,
  bail_if, written, verify_signature, check_threshold,
}

-- `XWING_PUBLIC_KEY_LEN` of crates/gp-crypto/src/lib.rs
abbrev pub xwing_public_key_len : ℕ
xwing_public_key_len = 1216

abbrev pub signed_contribution :
    BeginRecoveryCertificateV3 → SignerRecoveryContributionV3 → SignedVote
signed_contribution certificate contribution = record {
  mismatched = not (same_request_v3 contribution.request certificate.request);
  signer_id = contribution.signer_id;
  signer_public_key = contribution.signer_public_key;
  signer_membership_proof = contribution.signer_membership_proof;
  transcript = Recover.signer_recovery_contribution_v3 contribution;
  signer_signature = contribution.signer_signature;
}

abbrev pub signed_release : RecoveryReleaseCertificateV3 → SignerRecoveryReleaseVoteV3 → SignedVote
signed_release certificate vote = record {
  mismatched = not (same_request_v3 vote.request certificate.request);
  signer_id = vote.signer_id;
  signer_public_key = vote.signer_public_key;
  signer_membership_proof = vote.signer_membership_proof;
  transcript = Recover.signer_recovery_release_vote_v3 vote;
  signer_signature = vote.signer_signature;
}

module _ (c : Crypto) where
  unfoldable pub recovery_request_digest : RecoveryRequestV3 → Result ProtocolError Id32
  recovery_request_digest request = do
    preimage ← written (Recover.recovery_request_digest_v3 request)
    ok (c.sha256 preimage)

  unfoldable pub validate_recovery_request_for_ref_v3 :
      RecoveryRequestV3 → ConfigCapsuleV3 → ConfigRef → ℕ → Result ProtocolError Id32
  validate_recovery_request_for_ref_v3 request capsule expected_config_ref now = do
    bail_if
        (request.protocol_version != protocol_version_v3
          || (not (same_config_ref request.config_ref expected_config_ref)
              || (request.config_ref.config_id != capsule.config_ref.config_id
                  || (request.config_ref.payload_generation != capsule.config_ref.payload_generation
                      || (request.config_ref.authorization_epoch
                            != capsule.config_ref.authorization_epoch
                          || (length request.recovery_recipient_key != xwing_public_key_len
                              || (ltb now request.requested_at
                                  || (leb request.expiry now
                                      || ltb
                                          (saturating_add request.requested_at
                                            capsule.max_request_lifetime)
                                          request.expiry))))))))
        invalid_request
    recovery_request_digest request

  unfoldable pub validate_recovery_request_v3 :
      RecoveryRequestV3 → ConfigCapsuleV3 → ℕ → Result ProtocolError Id32
  validate_recovery_request_v3 request capsule now =
      validate_recovery_request_for_ref_v3 request capsule capsule.config_ref now

  unfoldable pub validate_begin_recovery_certificate_v3 :
      BeginRecoveryCertificateV3 → ConfigCapsuleV3 → ℕ → Result ProtocolError Id32
  validate_begin_recovery_certificate_v3 certificate capsule now = do
    digest ← validate_recovery_request_v3 certificate.request capsule now
    written (Recover.begin_recovery_certificate_v3 certificate)
    bail_if (certificate.request_digest != digest) wrong_digest
    check_threshold c capsule
        (map (signed_contribution certificate) certificate.signer_contributions)
    ok digest

  unfoldable pub validate_recovery_release_certificate_for_ref_v3 :
      RecoveryReleaseCertificateV3 → ConfigCapsuleV3 → ConfigRef → ℕ → Result ProtocolError Id32
  validate_recovery_release_certificate_for_ref_v3 certificate capsule expected_config_ref now = do
    digest ←
        validate_recovery_request_for_ref_v3 certificate.request capsule expected_config_ref now
    written (Recover.recovery_release_certificate_v3 certificate)
    bail_if (certificate.request_digest != digest) wrong_digest
    check_threshold c capsule (map (signed_release certificate) certificate.votes)
    ok digest

  unfoldable pub validate_owner_recovery_cancel_for_ref_v3 :
      OwnerRecoveryCancelCertificateV3
      → RecoveryRequestV3
      → ConfigCapsuleV3
      → ConfigRef
      → ℕ
      → Result ProtocolError Id32
  validate_owner_recovery_cancel_for_ref_v3 certificate request capsule expected_config_ref now = do
    digest ← validate_recovery_request_for_ref_v3 request capsule expected_config_ref now
    bail_if
        (not (same_request_v3 certificate.request request)
          || (certificate.request_digest != digest
              || certificate.owner_cancel_public_key != capsule.owner_cancel_public_key))
        mismatched_cancellation
    transcript ← written (Recover.owner_recovery_cancel_certificate_v3 certificate)
    verify_signature c certificate.owner_cancel_public_key transcript certificate.owner_signature
    ok digest
