-- ===== src/Wire/Encoding/Kinds/Requests.antt =====
-- What the transcripts of requests, approvals and cancellations write.
use master_recovery.Prelude.{ℕ, ◌≡◌, ◌∷◌, ok}
use master_recovery.Types.Basic.{Bytes}
use master_recovery.Types.Basic.{Id32, SealedMessage}
use master_recovery.Types.Recovery.{RecoveryRequest, OwnerCancelCertificate, OwnerCancelAck}
use master_recovery.Wire.Bytes.{ascii}
use master_recovery.Wire.Transcript.{id_bytes}
use master_recovery.Wire.Fields.{block, encode}
use master_recovery.Wire.Messages
use master_recovery.Wire.Messages.{suite_id}
use master_recovery.Wire.Canonical.{Message, Kind, domain_of, body}
use master_recovery.Wire.Encoding.{
  BlocksFit, ◌⊕◌, finished, bytes-Writes, u16-Writes, u64-Writes, domain-Writes, nested-Writes,
}

pub recovery_request-encode :
    (request : RecoveryRequest) (t : Bytes)
    → Messages.recovery_request request ≡ ok t
    → (t
        ≡ encode
            (block (domain_of Kind.recovery_request) ∷ body (Message.recovery_request request)))
      × BlocksFit
          (block (domain_of Kind.recovery_request) ∷ body (Message.recovery_request request))
unfolding Messages.recovery_request body domain_of
recovery_request-encode request t h =
    finished t
      (domain-Writes (ascii "gp/recovery-request/v1")
        ⊕ u16-Writes request.protocol_version
        ⊕ u16-Writes (suite_id request.crypto_suite)
        ⊕ bytes-Writes (id_bytes request.config_id)
        ⊕ u64-Writes request.config_version
        ⊕ bytes-Writes (id_bytes request.request_id)
        ⊕ bytes-Writes request.recovery_recipient_key
        ⊕ u64-Writes request.requested_at
        ⊕ bytes-Writes (id_bytes request.nonce)
        ⊕ u64-Writes request.expiry)
      h

pub signer_approval-encode :
    (request : RecoveryRequest) (signer_id : ℕ) (encrypted_share : SealedMessage) (t : Bytes)
    → Messages.signer_approval request signer_id encrypted_share ≡ ok t
    → (t
        ≡ encode (
            block (domain_of Kind.signer_approval)
            ∷ body (Message.signer_approval request signer_id encrypted_share)))
      × BlocksFit (
          block (domain_of Kind.signer_approval)
          ∷ body (Message.signer_approval request signer_id encrypted_share))
unfolding Messages.signer_approval body domain_of
signer_approval-encode request signer_id encrypted_share t h =
    finished t
      (domain-Writes (ascii "gp/signer-approval/v1")
        ⊕ nested-Writes request
        ⊕ u16-Writes signer_id
        ⊕ bytes-Writes encrypted_share.kem_ciphertext
        ⊕ bytes-Writes encrypted_share.payload.nonce
        ⊕ bytes-Writes encrypted_share.payload.ciphertext)
      h

pub signer_leaf-encode :
    (signer_id : ℕ) (public_key : Id32) (t : Bytes)
    → Messages.signer_leaf signer_id public_key ≡ ok t
    → (t
        ≡ encode
            (block (domain_of Kind.signer_leaf) ∷ body (Message.signer_leaf signer_id public_key)))
      × BlocksFit
          (block (domain_of Kind.signer_leaf) ∷ body (Message.signer_leaf signer_id public_key))
unfolding Messages.signer_leaf body domain_of
signer_leaf-encode signer_id public_key t h =
    finished t
      (domain-Writes (ascii "gp/signer-leaf/v1")
        ⊕ u16-Writes signer_id
        ⊕ bytes-Writes (id_bytes public_key))
      h

pub request_digest_preimage-encode :
    (request : RecoveryRequest) (t : Bytes)
    → Messages.request_digest_preimage request ≡ ok t
    → (t
        ≡ encode (
            block (domain_of Kind.request_digest_preimage)
            ∷ body (Message.request_digest_preimage request)))
      × BlocksFit (
          block (domain_of Kind.request_digest_preimage)
          ∷ body (Message.request_digest_preimage request))
unfolding Messages.request_digest_preimage body domain_of
request_digest_preimage-encode request t h =
    finished t (domain-Writes (ascii "gp/recovery-request-digest/v1") ⊕ nested-Writes request) h

pub descriptor_context-encode :
    (config_id : Id32) (config_version : ℕ) (t : Bytes)
    → Messages.descriptor_context config_id config_version ≡ ok t
    → (t
        ≡ encode (
            block (domain_of Kind.descriptor_context)
            ∷ body (Message.descriptor_context config_id config_version)))
      × BlocksFit (
          block (domain_of Kind.descriptor_context)
          ∷ body (Message.descriptor_context config_id config_version))
unfolding Messages.descriptor_context body domain_of
descriptor_context-encode config_id config_version t h =
    finished t
      (domain-Writes (ascii "gp/recovery-descriptor-context/v1")
        ⊕ bytes-Writes (id_bytes config_id)
        ⊕ u64-Writes config_version)
      h

pub recipient_share_context-encode :
    (request : RecoveryRequest) (signer_id : ℕ) (t : Bytes)
    → Messages.recipient_share_context request signer_id ≡ ok t
    → (t
        ≡ encode (
            block (domain_of Kind.recipient_share_context)
            ∷ body (Message.recipient_share_context request signer_id)))
      × BlocksFit (
          block (domain_of Kind.recipient_share_context)
          ∷ body (Message.recipient_share_context request signer_id))
unfolding Messages.recipient_share_context body domain_of
recipient_share_context-encode request signer_id t h =
    finished t
      (domain-Writes (ascii "gp/recipient-a-share-context/v1")
        ⊕ nested-Writes request
        ⊕ u16-Writes signer_id)
      h

pub guardian_release_context-encode :
    (request : RecoveryRequest) (guardian_index : ℕ) (t : Bytes)
    → Messages.guardian_release_context request guardian_index ≡ ok t
    → (t
        ≡ encode (
            block (domain_of Kind.guardian_release_context)
            ∷ body (Message.guardian_release_context request guardian_index)))
      × BlocksFit (
          block (domain_of Kind.guardian_release_context)
          ∷ body (Message.guardian_release_context request guardian_index))
unfolding Messages.guardian_release_context body domain_of
guardian_release_context-encode request guardian_index t h =
    finished t
      (domain-Writes (ascii "gp/recipient-guardian-contribution/v1")
        ⊕ nested-Writes request
        ⊕ u16-Writes guardian_index)
      h

pub owner_cancel-encode :
    (certificate : OwnerCancelCertificate) (t : Bytes)
    → Messages.owner_cancel certificate ≡ ok t
    → (t ≡ encode (block (domain_of Kind.owner_cancel) ∷ body (Message.owner_cancel certificate)))
      × BlocksFit (block (domain_of Kind.owner_cancel) ∷ body (Message.owner_cancel certificate))
unfolding Messages.owner_cancel body domain_of
owner_cancel-encode certificate t h =
    finished t
      (domain-Writes (ascii "gp/owner-hard-cancel/v1")
        ⊕ u16-Writes certificate.protocol_version
        ⊕ bytes-Writes (id_bytes certificate.config_id)
        ⊕ u64-Writes certificate.config_version
        ⊕ bytes-Writes (id_bytes certificate.request_id)
        ⊕ bytes-Writes (id_bytes certificate.request_digest)
        ⊕ bytes-Writes certificate.recovery_recipient_key
        ⊕ bytes-Writes certificate.cancel_response_recipient_key
        ⊕ u16-Writes certificate.reason_code
        ⊕ bytes-Writes (id_bytes certificate.nonce)
        ⊕ u64-Writes certificate.issued_at
        ⊕ bytes-Writes (id_bytes certificate.owner_cancel_public_key))
      h

pub owner_cancel_ack-encode :
    (ack : OwnerCancelAck) (t : Bytes)
    → Messages.owner_cancel_ack ack ≡ ok t
    → (t ≡ encode (block (domain_of Kind.owner_cancel_ack) ∷ body (Message.owner_cancel_ack ack)))
      × BlocksFit (block (domain_of Kind.owner_cancel_ack) ∷ body (Message.owner_cancel_ack ack))
unfolding Messages.owner_cancel_ack body domain_of
owner_cancel_ack-encode ack t h =
    finished t
      (domain-Writes (ascii "gp/owner-hard-cancel-ack/v1")
        ⊕ u16-Writes ack.protocol_version
        ⊕ bytes-Writes (id_bytes ack.config_id)
        ⊕ u64-Writes ack.config_version
        ⊕ bytes-Writes (id_bytes ack.request_id)
        ⊕ bytes-Writes (id_bytes ack.request_digest)
        ⊕ bytes-Writes (id_bytes ack.owner_cancel_transcript_digest)
        ⊕ u16-Writes ack.guardian_index)
      h
