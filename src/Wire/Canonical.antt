-- ===== src/Wire/Canonical.antt =====
-- The canonical transcripts as lists of fields: sixteen kinds of message, each under its domain.
use master_recovery.Prelude.{ℕ, List, [], ◌∷◌, Result}
use master_recovery.Types.Basic.{Bytes, Id32, SealedMessage}
use master_recovery.Types.Recovery.{
  RecoveryRequest, OwnerCancelCertificate, OwnerCancelAck, ReleaseVote, GuardianContribution,
}
use master_recovery.Wire.Bytes.{ascii}
use master_recovery.Wire.Frame.{WireError}
use master_recovery.Wire.Transcript.{id_bytes}
use master_recovery.Wire.Fields.{Field, word, block, encode, Shape}
use master_recovery.Wire.Messages
use master_recovery.Wire.Messages.{suite_id}

pub data Kind : Type 0 where
  recovery_request : Kind
  signer_approval : Kind
  signer_leaf : Kind
  request_digest_preimage : Kind
  descriptor_context : Kind
  recipient_share_context : Kind
  guardian_release_context : Kind
  owner_cancel : Kind
  owner_cancel_ack : Kind
  release_vote : Kind
  guardian_contribution : Kind
  guardian_leaf : Kind
  guardian_share_context : Kind
  payload_context : Kind
  node_provision_context : Kind
  mailbox_transport_context : Kind

-- The domain string that a kind of message begins with.
unfoldable pub domain_of : Kind → Bytes
domain_of Kind.recovery_request = ascii "gp/recovery-request/v1"
domain_of Kind.signer_approval = ascii "gp/signer-approval/v1"
domain_of Kind.signer_leaf = ascii "gp/signer-leaf/v1"
domain_of Kind.request_digest_preimage = ascii "gp/recovery-request-digest/v1"
domain_of Kind.descriptor_context = ascii "gp/recovery-descriptor-context/v1"
domain_of Kind.recipient_share_context = ascii "gp/recipient-a-share-context/v1"
domain_of Kind.guardian_release_context = ascii "gp/recipient-guardian-contribution/v1"
domain_of Kind.owner_cancel = ascii "gp/owner-hard-cancel/v1"
domain_of Kind.owner_cancel_ack = ascii "gp/owner-hard-cancel-ack/v1"
domain_of Kind.release_vote = ascii "gp/release-vote/v1"
domain_of Kind.guardian_contribution = ascii "gp/guardian-contribution/v1"
domain_of Kind.guardian_leaf = ascii "gp/guardian-leaf/v1"
domain_of Kind.guardian_share_context = ascii "gp/guardian-dek-share-context/v1"
domain_of Kind.payload_context = ascii "gp/payload-context/v1"
domain_of Kind.node_provision_context = ascii "gp/network-node-provision/v1"
domain_of Kind.mailbox_transport_context = ascii "gp/network-mailbox-transport/v1"

pub data Message : Type 0 where
  recovery_request : RecoveryRequest → Message
  signer_approval : RecoveryRequest → ℕ → SealedMessage → Message
  signer_leaf : ℕ → Id32 → Message
  request_digest_preimage : RecoveryRequest → Message
  descriptor_context : Id32 → ℕ → Message
  recipient_share_context : RecoveryRequest → ℕ → Message
  guardian_release_context : RecoveryRequest → ℕ → Message
  owner_cancel : OwnerCancelCertificate → Message
  owner_cancel_ack : OwnerCancelAck → Message
  release_vote : ReleaseVote → Message
  guardian_contribution : GuardianContribution → Message
  guardian_leaf : Id32 → ℕ → ℕ → Id32 → Id32 → Message
  guardian_share_context : Id32 → ℕ → ℕ → Message
  payload_context : Id32 → ℕ → Message
  node_provision_context : Bytes → Bytes → Message
  mailbox_transport_context : Bytes → Bytes → Message

unfoldable pub kind : Message → Kind
kind (Message.recovery_request _) = Kind.recovery_request
kind (Message.signer_approval _ _ _) = Kind.signer_approval
kind (Message.signer_leaf _ _) = Kind.signer_leaf
kind (Message.request_digest_preimage _) = Kind.request_digest_preimage
kind (Message.descriptor_context _ _) = Kind.descriptor_context
kind (Message.recipient_share_context _ _) = Kind.recipient_share_context
kind (Message.guardian_release_context _ _) = Kind.guardian_release_context
kind (Message.owner_cancel _) = Kind.owner_cancel
kind (Message.owner_cancel_ack _) = Kind.owner_cancel_ack
kind (Message.release_vote _) = Kind.release_vote
kind (Message.guardian_contribution _) = Kind.guardian_contribution
kind (Message.guardian_leaf _ _ _ _ _) = Kind.guardian_leaf
kind (Message.guardian_share_context _ _ _) = Kind.guardian_share_context
kind (Message.payload_context _ _) = Kind.payload_context
kind (Message.node_provision_context _ _) = Kind.node_provision_context
kind (Message.mailbox_transport_context _ _) = Kind.mailbox_transport_context

-- The bytes that are signed, hashed or authenticated for a message.
unfoldable pub write : Message → Result WireError Bytes
write (Message.recovery_request request) = Messages.recovery_request request
write (Message.signer_approval request signer_id encrypted_share) =
    Messages.signer_approval request signer_id encrypted_share
write (Message.signer_leaf signer_id public_key) = Messages.signer_leaf signer_id public_key
write (Message.request_digest_preimage request) = Messages.request_digest_preimage request
write (Message.descriptor_context config_id config_version) =
    Messages.descriptor_context config_id config_version
write (Message.recipient_share_context request signer_id) =
    Messages.recipient_share_context request signer_id
write (Message.guardian_release_context request guardian_index) =
    Messages.guardian_release_context request guardian_index
write (Message.owner_cancel certificate) = Messages.owner_cancel certificate
write (Message.owner_cancel_ack ack) = Messages.owner_cancel_ack ack
write (Message.release_vote vote) = Messages.release_vote vote
write (Message.guardian_contribution contribution) = Messages.guardian_contribution contribution
write
      (Message.guardian_leaf config_id config_version guardian_index fragment_hash
        encrypted_share_hash) =
    Messages.guardian_leaf config_id config_version guardian_index fragment_hash
      encrypted_share_hash
write (Message.guardian_share_context config_id config_version guardian_index) =
    Messages.guardian_share_context config_id config_version guardian_index
write (Message.payload_context config_id config_version) =
    Messages.payload_context config_id config_version
write (Message.node_provision_context node_id role) = Messages.node_provision_context node_id role
write (Message.mailbox_transport_context mailbox direction) =
    Messages.mailbox_transport_context mailbox direction

unfoldable pub request_fields : RecoveryRequest → List Field
request_fields request =
    block (ascii "gp/recovery-request/v1")
    ∷ word 2 request.protocol_version
    ∷ word 2 (suite_id request.crypto_suite)
    ∷ block (id_bytes request.config_id)
    ∷ word 8 request.config_version
    ∷ block (id_bytes request.request_id)
    ∷ block request.recovery_recipient_key
    ∷ word 8 request.requested_at
    ∷ block (id_bytes request.nonce)
    ∷ word 8 request.expiry
    ∷ []

-- The fields that a message binds, in order.
unfoldable pub body : Message → List Field
body (Message.recovery_request request) =
    word 2 request.protocol_version
    ∷ word 2 (suite_id request.crypto_suite)
    ∷ block (id_bytes request.config_id)
    ∷ word 8 request.config_version
    ∷ block (id_bytes request.request_id)
    ∷ block request.recovery_recipient_key
    ∷ word 8 request.requested_at
    ∷ block (id_bytes request.nonce)
    ∷ word 8 request.expiry
    ∷ []
body (Message.signer_approval request signer_id encrypted_share) =
    block (encode (request_fields request))
    ∷ word 2 signer_id
    ∷ block encrypted_share.kem_ciphertext
    ∷ block encrypted_share.payload.nonce
    ∷ block encrypted_share.payload.ciphertext
    ∷ []
body (Message.signer_leaf signer_id public_key) =
    word 2 signer_id ∷ block (id_bytes public_key) ∷ []
body (Message.request_digest_preimage request) = block (encode (request_fields request)) ∷ []
body (Message.descriptor_context config_id config_version) =
    block (id_bytes config_id) ∷ word 8 config_version ∷ []
body (Message.recipient_share_context request signer_id) =
    block (encode (request_fields request)) ∷ word 2 signer_id ∷ []
body (Message.guardian_release_context request guardian_index) =
    block (encode (request_fields request)) ∷ word 2 guardian_index ∷ []
body (Message.owner_cancel certificate) =
    word 2 certificate.protocol_version
    ∷ block (id_bytes certificate.config_id)
    ∷ word 8 certificate.config_version
    ∷ block (id_bytes certificate.request_id)
    ∷ block (id_bytes certificate.request_digest)
    ∷ block certificate.recovery_recipient_key
    ∷ block certificate.cancel_response_recipient_key
    ∷ word 2 certificate.reason_code
    ∷ block (id_bytes certificate.nonce)
    ∷ word 8 certificate.issued_at
    ∷ block (id_bytes certificate.owner_cancel_public_key)
    ∷ []
body (Message.owner_cancel_ack ack) =
    word 2 ack.protocol_version
    ∷ block (id_bytes ack.config_id)
    ∷ word 8 ack.config_version
    ∷ block (id_bytes ack.request_id)
    ∷ block (id_bytes ack.request_digest)
    ∷ block (id_bytes ack.owner_cancel_transcript_digest)
    ∷ word 2 ack.guardian_index
    ∷ []
body (Message.release_vote vote) =
    word 2 vote.protocol_version
    ∷ block (id_bytes vote.config_id)
    ∷ word 8 vote.config_version
    ∷ block (id_bytes vote.request_id)
    ∷ block (id_bytes vote.request_digest)
    ∷ block vote.recovery_recipient_key
    ∷ block (id_bytes vote.nonce)
    ∷ word 2 vote.signer_id
    ∷ block (id_bytes vote.signer_public_key)
    ∷ block vote.signer_membership_proof
    ∷ []
body (Message.guardian_contribution contribution) =
    word 2 contribution.protocol_version
    ∷ block (id_bytes contribution.config_id)
    ∷ word 8 contribution.config_version
    ∷ block (id_bytes contribution.request_id)
    ∷ block (id_bytes contribution.request_digest)
    ∷ word 2 contribution.guardian_index
    ∷ block contribution.ciphertext_fragment
    ∷ block contribution.encrypted_dek_share.nonce
    ∷ block contribution.encrypted_dek_share.ciphertext
    ∷ block contribution.merkle_path_proof
    ∷ []
body
      (Message.guardian_leaf config_id config_version guardian_index fragment_hash
        encrypted_share_hash) =
    block (id_bytes config_id)
    ∷ word 8 config_version
    ∷ word 2 guardian_index
    ∷ block (id_bytes fragment_hash)
    ∷ block (id_bytes encrypted_share_hash)
    ∷ []
body (Message.guardian_share_context config_id config_version guardian_index) =
    block (id_bytes config_id) ∷ word 8 config_version ∷ word 2 guardian_index ∷ []
body (Message.payload_context config_id config_version) =
    block (id_bytes config_id) ∷ word 8 config_version ∷ []
body (Message.node_provision_context node_id role) = block node_id ∷ block role ∷ []
body (Message.mailbox_transport_context mailbox direction) = block mailbox ∷ block direction ∷ []

-- The widths of the fields of a kind of message.
unfoldable pub layout : Kind → List Shape
layout Kind.recovery_request =
    Shape.word 2
    ∷ Shape.word 2
    ∷ Shape.block
    ∷ Shape.word 8
    ∷ Shape.block
    ∷ Shape.block
    ∷ Shape.word 8
    ∷ Shape.block
    ∷ Shape.word 8
    ∷ []
layout Kind.signer_approval =
    Shape.block ∷ Shape.word 2 ∷ Shape.block ∷ Shape.block ∷ Shape.block ∷ []
layout Kind.signer_leaf = Shape.word 2 ∷ Shape.block ∷ []
layout Kind.request_digest_preimage = Shape.block ∷ []
layout Kind.descriptor_context = Shape.block ∷ Shape.word 8 ∷ []
layout Kind.recipient_share_context = Shape.block ∷ Shape.word 2 ∷ []
layout Kind.guardian_release_context = Shape.block ∷ Shape.word 2 ∷ []
layout Kind.owner_cancel =
    Shape.word 2
    ∷ Shape.block
    ∷ Shape.word 8
    ∷ Shape.block
    ∷ Shape.block
    ∷ Shape.block
    ∷ Shape.block
    ∷ Shape.word 2
    ∷ Shape.block
    ∷ Shape.word 8
    ∷ Shape.block
    ∷ []
layout Kind.owner_cancel_ack =
    Shape.word 2
    ∷ Shape.block
    ∷ Shape.word 8
    ∷ Shape.block
    ∷ Shape.block
    ∷ Shape.block
    ∷ Shape.word 2
    ∷ []
layout Kind.release_vote =
    Shape.word 2
    ∷ Shape.block
    ∷ Shape.word 8
    ∷ Shape.block
    ∷ Shape.block
    ∷ Shape.block
    ∷ Shape.block
    ∷ Shape.word 2
    ∷ Shape.block
    ∷ Shape.block
    ∷ []
layout Kind.guardian_contribution =
    Shape.word 2
    ∷ Shape.block
    ∷ Shape.word 8
    ∷ Shape.block
    ∷ Shape.block
    ∷ Shape.word 2
    ∷ Shape.block
    ∷ Shape.block
    ∷ Shape.block
    ∷ Shape.block
    ∷ []
layout Kind.guardian_leaf =
    Shape.block ∷ Shape.word 8 ∷ Shape.word 2 ∷ Shape.block ∷ Shape.block ∷ []
layout Kind.guardian_share_context = Shape.block ∷ Shape.word 8 ∷ Shape.word 2 ∷ []
layout Kind.payload_context = Shape.block ∷ Shape.word 8 ∷ []
layout Kind.node_provision_context = Shape.block ∷ Shape.block ∷ []
layout Kind.mailbox_transport_context = Shape.block ∷ Shape.block ∷ []
