-- ===== src/Wire/Messages.antt =====
-- crates/gp-wire/src/lib.rs: the canonical transcripts of the messages of protocol v2.
use master_recovery.Prelude.{ℕ, Result}
use master_recovery.Types.Basic.{Bytes, Id32, CryptoSuite, SealedMessage}
use master_recovery.Types.Recovery.{
  RecoveryRequest, OwnerCancelCertificate, OwnerCancelAck, ReleaseVote, GuardianContribution,
}
use master_recovery.Wire.Bytes.{ascii}
use master_recovery.Wire.Frame.{WireError}
use master_recovery.Wire.Transcript.{◌>>◌, bytes, domain, u16, u64, nested, id_bytes, transcript}

unfoldable pub suite_id : CryptoSuite → ℕ
suite_id CryptoSuite.x_wing_x_cha_cha20_poly1305_ed25519 = 1

unfoldable pub recovery_request : RecoveryRequest → Result WireError Bytes
recovery_request request = transcript (
    domain (ascii "gp/recovery-request/v1")
    >> u16 request.protocol_version
    >> u16 (suite_id request.crypto_suite)
    >> bytes (id_bytes request.config_id)
    >> u64 request.config_version
    >> bytes (id_bytes request.request_id)
    >> bytes request.recovery_recipient_key
    >> u64 request.requested_at
    >> bytes (id_bytes request.nonce)
    >> u64 request.expiry)

unfoldable pub signer_approval : RecoveryRequest → ℕ → SealedMessage → Result WireError Bytes
signer_approval request signer_id encrypted_share = transcript (
    domain (ascii "gp/signer-approval/v1")
    >> nested (recovery_request request)
    >> u16 signer_id
    >> bytes encrypted_share.kem_ciphertext
    >> bytes encrypted_share.payload.nonce
    >> bytes encrypted_share.payload.ciphertext)

unfoldable pub signer_leaf : ℕ → Id32 → Result WireError Bytes
signer_leaf signer_id public_key =
    transcript (domain (ascii "gp/signer-leaf/v1") >> u16 signer_id >> bytes (id_bytes public_key))

unfoldable pub request_digest_preimage : RecoveryRequest → Result WireError Bytes
request_digest_preimage request =
    transcript (domain (ascii "gp/recovery-request-digest/v1") >> nested (recovery_request request))

unfoldable pub descriptor_context : Id32 → ℕ → Result WireError Bytes
descriptor_context config_id config_version = transcript (
    domain (ascii "gp/recovery-descriptor-context/v1")
    >> bytes (id_bytes config_id)
    >> u64 config_version)

unfoldable pub recipient_share_context : RecoveryRequest → ℕ → Result WireError Bytes
recipient_share_context request signer_id = transcript (
    domain (ascii "gp/recipient-a-share-context/v1")
    >> nested (recovery_request request)
    >> u16 signer_id)

unfoldable pub guardian_release_context : RecoveryRequest → ℕ → Result WireError Bytes
guardian_release_context request guardian_index = transcript (
    domain (ascii "gp/recipient-guardian-contribution/v1")
    >> nested (recovery_request request)
    >> u16 guardian_index)

unfoldable pub owner_cancel : OwnerCancelCertificate → Result WireError Bytes
owner_cancel certificate = transcript (
    domain (ascii "gp/owner-hard-cancel/v1")
    >> u16 certificate.protocol_version
    >> bytes (id_bytes certificate.config_id)
    >> u64 certificate.config_version
    >> bytes (id_bytes certificate.request_id)
    >> bytes (id_bytes certificate.request_digest)
    >> bytes certificate.recovery_recipient_key
    >> bytes certificate.cancel_response_recipient_key
    >> u16 certificate.reason_code
    >> bytes (id_bytes certificate.nonce)
    >> u64 certificate.issued_at
    >> bytes (id_bytes certificate.owner_cancel_public_key))

unfoldable pub owner_cancel_ack : OwnerCancelAck → Result WireError Bytes
owner_cancel_ack ack = transcript (
    domain (ascii "gp/owner-hard-cancel-ack/v1")
    >> u16 ack.protocol_version
    >> bytes (id_bytes ack.config_id)
    >> u64 ack.config_version
    >> bytes (id_bytes ack.request_id)
    >> bytes (id_bytes ack.request_digest)
    >> bytes (id_bytes ack.owner_cancel_transcript_digest)
    >> u16 ack.guardian_index)

unfoldable pub release_vote : ReleaseVote → Result WireError Bytes
release_vote vote = transcript (
    domain (ascii "gp/release-vote/v1")
    >> u16 vote.protocol_version
    >> bytes (id_bytes vote.config_id)
    >> u64 vote.config_version
    >> bytes (id_bytes vote.request_id)
    >> bytes (id_bytes vote.request_digest)
    >> bytes vote.recovery_recipient_key
    >> bytes (id_bytes vote.nonce)
    >> u16 vote.signer_id
    >> bytes (id_bytes vote.signer_public_key)
    >> bytes vote.signer_membership_proof)

unfoldable pub guardian_contribution : GuardianContribution → Result WireError Bytes
guardian_contribution contribution = transcript (
    domain (ascii "gp/guardian-contribution/v1")
    >> u16 contribution.protocol_version
    >> bytes (id_bytes contribution.config_id)
    >> u64 contribution.config_version
    >> bytes (id_bytes contribution.request_id)
    >> bytes (id_bytes contribution.request_digest)
    >> u16 contribution.guardian_index
    >> bytes contribution.ciphertext_fragment
    >> bytes contribution.encrypted_dek_share.nonce
    >> bytes contribution.encrypted_dek_share.ciphertext
    >> bytes contribution.merkle_path_proof)

unfoldable pub guardian_leaf : Id32 → ℕ → ℕ → Id32 → Id32 → Result WireError Bytes
guardian_leaf config_id config_version guardian_index fragment_hash encrypted_share_hash =
    transcript (
      domain (ascii "gp/guardian-leaf/v1")
      >> bytes (id_bytes config_id)
      >> u64 config_version
      >> u16 guardian_index
      >> bytes (id_bytes fragment_hash)
      >> bytes (id_bytes encrypted_share_hash))

unfoldable pub guardian_share_context : Id32 → ℕ → ℕ → Result WireError Bytes
guardian_share_context config_id config_version guardian_index = transcript (
    domain (ascii "gp/guardian-dek-share-context/v1")
    >> bytes (id_bytes config_id)
    >> u64 config_version
    >> u16 guardian_index)

unfoldable pub payload_context : Id32 → ℕ → Result WireError Bytes
payload_context config_id config_version =
    transcript
      (domain (ascii "gp/payload-context/v1") >> bytes (id_bytes config_id) >> u64 config_version)

unfoldable pub node_provision_context : Bytes → Bytes → Result WireError Bytes
node_provision_context node_id role =
    transcript (domain (ascii "gp/network-node-provision/v1") >> bytes node_id >> bytes role)

unfoldable pub mailbox_transport_context : Bytes → Bytes → Result WireError Bytes
mailbox_transport_context mailbox direction =
    transcript
      (domain (ascii "gp/network-mailbox-transport/v1") >> bytes mailbox >> bytes direction)
