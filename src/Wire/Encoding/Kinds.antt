-- ===== src/Wire/Encoding/Kinds.antt =====
-- Every message writes its domain and its fields.
mod Requests
mod Custody
use master_recovery.Prelude.{ℕ, ◌≡◌, ◌∷◌, ok}
use master_recovery.Types.Basic.{Bytes}
use master_recovery.Types.Basic.{Id32, SealedMessage}
use master_recovery.Types.Recovery.{
  RecoveryRequest, OwnerCancelCertificate, OwnerCancelAck, ReleaseVote, GuardianContribution,
}
use master_recovery.Wire.Bytes.{ascii}
use master_recovery.Wire.Transcript.{id_bytes}
use master_recovery.Wire.Fields.{block, encode}
use master_recovery.Wire.Messages
use master_recovery.Wire.Messages.{suite_id}
use master_recovery.Wire.Canonical.{Message, Kind, kind, write, domain_of, body}
use master_recovery.Wire.Encoding.{
  BlocksFit, ◌⊕◌, finished, bytes-Writes, u16-Writes, u64-Writes, domain-Writes, nested-Writes,
}
use master_recovery.Wire.Encoding.Kinds.Requests.{
  recovery_request-encode, signer_approval-encode, signer_leaf-encode,
  request_digest_preimage-encode, descriptor_context-encode, recipient_share_context-encode,
  guardian_release_context-encode, owner_cancel-encode, owner_cancel_ack-encode,
}
use master_recovery.Wire.Encoding.Kinds.Custody.{
  release_vote-encode, guardian_contribution-encode, guardian_leaf-encode,
  guardian_share_context-encode, payload_context-encode, node_provision_context-encode,
  mailbox_transport_context-encode,
}

-- A message that is written is the encoding of its domain and its fields, whose blocks fit.
pub write-encode :
    (m : Message) (t : Bytes)
    → write m ≡ ok t
    → (t ≡ encode (block (domain_of (kind m)) ∷ body m))
      × BlocksFit (block (domain_of (kind m)) ∷ body m)
unfolding write kind
write-encode (Message.recovery_request request) t h = recovery_request-encode request t h
write-encode (Message.signer_approval request signer_id encrypted_share) t h =
    signer_approval-encode request signer_id encrypted_share t h
write-encode (Message.signer_leaf signer_id public_key) t h =
    signer_leaf-encode signer_id public_key t h
write-encode (Message.request_digest_preimage request) t h =
    request_digest_preimage-encode request t h
write-encode (Message.descriptor_context config_id config_version) t h =
    descriptor_context-encode config_id config_version t h
write-encode (Message.recipient_share_context request signer_id) t h =
    recipient_share_context-encode request signer_id t h
write-encode (Message.guardian_release_context request guardian_index) t h =
    guardian_release_context-encode request guardian_index t h
write-encode (Message.owner_cancel certificate) t h = owner_cancel-encode certificate t h
write-encode (Message.owner_cancel_ack ack) t h = owner_cancel_ack-encode ack t h
write-encode (Message.release_vote vote) t h = release_vote-encode vote t h
write-encode (Message.guardian_contribution contribution) t h =
    guardian_contribution-encode contribution t h
write-encode
      (Message.guardian_leaf config_id config_version guardian_index fragment_hash
        encrypted_share_hash)
      t h =
    guardian_leaf-encode config_id config_version guardian_index fragment_hash encrypted_share_hash
      t h
write-encode (Message.guardian_share_context config_id config_version guardian_index) t h =
    guardian_share_context-encode config_id config_version guardian_index t h
write-encode (Message.payload_context config_id config_version) t h =
    payload_context-encode config_id config_version t h
write-encode (Message.node_provision_context node_id role) t h =
    node_provision_context-encode node_id role t h
write-encode (Message.mailbox_transport_context mailbox direction) t h =
    mailbox_transport_context-encode mailbox direction t h
