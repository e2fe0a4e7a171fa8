-- ===== src/Wire/Encoding/Kinds/Custody.antt =====
-- What the transcripts of votes, contributions, guardians and nodes write.
use master_recovery.Prelude.{ℕ, ◌≡◌, ◌∷◌, ok}
use master_recovery.Types.Basic.{Bytes}
use master_recovery.Types.Basic.{Id32}
use master_recovery.Types.Recovery.{ReleaseVote, GuardianContribution}
use master_recovery.Wire.Bytes.{ascii}
use master_recovery.Wire.Transcript.{id_bytes}
use master_recovery.Wire.Fields.{block, encode}
use master_recovery.Wire.Messages
use master_recovery.Wire.Messages.{suite_id}
use master_recovery.Wire.Canonical.{Message, Kind, domain_of, body}
use master_recovery.Wire.Encoding.{
  BlocksFit, ◌⊕◌, finished, bytes-Writes, u16-Writes, u64-Writes, domain-Writes,
}

pub release_vote-encode :
    (vote : ReleaseVote) (t : Bytes)
    → Messages.release_vote vote ≡ ok t
    → (t ≡ encode (block (domain_of Kind.release_vote) ∷ body (Message.release_vote vote)))
      × BlocksFit (block (domain_of Kind.release_vote) ∷ body (Message.release_vote vote))
unfolding Messages.release_vote body domain_of
release_vote-encode vote t h =
    finished t
      (domain-Writes (ascii "gp/release-vote/v1")
        ⊕ u16-Writes vote.protocol_version
        ⊕ bytes-Writes (id_bytes vote.config_id)
        ⊕ u64-Writes vote.config_version
        ⊕ bytes-Writes (id_bytes vote.request_id)
        ⊕ bytes-Writes (id_bytes vote.request_digest)
        ⊕ bytes-Writes vote.recovery_recipient_key
        ⊕ bytes-Writes (id_bytes vote.nonce)
        ⊕ u16-Writes vote.signer_id
        ⊕ bytes-Writes (id_bytes vote.signer_public_key)
        ⊕ bytes-Writes vote.signer_membership_proof)
      h

pub guardian_contribution-encode :
    (contribution : GuardianContribution) (t : Bytes)
    → Messages.guardian_contribution contribution ≡ ok t
    → (t
        ≡ encode (
            block (domain_of Kind.guardian_contribution)
            ∷ body (Message.guardian_contribution contribution)))
      × BlocksFit (
          block (domain_of Kind.guardian_contribution)
          ∷ body (Message.guardian_contribution contribution))
unfolding Messages.guardian_contribution body domain_of
guardian_contribution-encode contribution t h =
    finished t
      (domain-Writes (ascii "gp/guardian-contribution/v1")
        ⊕ u16-Writes contribution.protocol_version
        ⊕ bytes-Writes (id_bytes contribution.config_id)
        ⊕ u64-Writes contribution.config_version
        ⊕ bytes-Writes (id_bytes contribution.request_id)
        ⊕ bytes-Writes (id_bytes contribution.request_digest)
        ⊕ u16-Writes contribution.guardian_index
        ⊕ bytes-Writes contribution.ciphertext_fragment
        ⊕ bytes-Writes contribution.encrypted_dek_share.nonce
        ⊕ bytes-Writes contribution.encrypted_dek_share.ciphertext
        ⊕ bytes-Writes contribution.merkle_path_proof)
      h

pub guardian_leaf-encode :
    (config_id : Id32) (config_version : ℕ) (guardian_index : ℕ) (fragment_hash : Id32)
    (encrypted_share_hash : Id32) (t : Bytes)
    → Messages.guardian_leaf config_id config_version guardian_index fragment_hash
        encrypted_share_hash
      ≡ ok t
    → (t
        ≡ encode (
            block (domain_of Kind.guardian_leaf)
            ∷ body (
                Message.guardian_leaf config_id config_version guardian_index fragment_hash
                  encrypted_share_hash)))
      × BlocksFit (
          block (domain_of Kind.guardian_leaf)
          ∷ body (
              Message.guardian_leaf config_id config_version guardian_index fragment_hash
                encrypted_share_hash))
unfolding Messages.guardian_leaf body domain_of
guardian_leaf-encode config_id config_version guardian_index fragment_hash encrypted_share_hash t
      h =
    finished t
      (domain-Writes (ascii "gp/guardian-leaf/v1")
        ⊕ bytes-Writes (id_bytes config_id)
        ⊕ u64-Writes config_version
        ⊕ u16-Writes guardian_index
        ⊕ bytes-Writes (id_bytes fragment_hash)
        ⊕ bytes-Writes (id_bytes encrypted_share_hash))
      h

pub guardian_share_context-encode :
    (config_id : Id32) (config_version : ℕ) (guardian_index : ℕ) (t : Bytes)
    → Messages.guardian_share_context config_id config_version guardian_index ≡ ok t
    → (t
        ≡ encode (
            block (domain_of Kind.guardian_share_context)
            ∷ body (Message.guardian_share_context config_id config_version guardian_index)))
      × BlocksFit (
          block (domain_of Kind.guardian_share_context)
          ∷ body (Message.guardian_share_context config_id config_version guardian_index))
unfolding Messages.guardian_share_context body domain_of
guardian_share_context-encode config_id config_version guardian_index t h =
    finished t
      (domain-Writes (ascii "gp/guardian-dek-share-context/v1")
        ⊕ bytes-Writes (id_bytes config_id)
        ⊕ u64-Writes config_version
        ⊕ u16-Writes guardian_index)
      h

pub payload_context-encode :
    (config_id : Id32) (config_version : ℕ) (t : Bytes)
    → Messages.payload_context config_id config_version ≡ ok t
    → (t
        ≡ encode (
            block (domain_of Kind.payload_context)
            ∷ body (Message.payload_context config_id config_version)))
      × BlocksFit (
          block (domain_of Kind.payload_context)
          ∷ body (Message.payload_context config_id config_version))
unfolding Messages.payload_context body domain_of
payload_context-encode config_id config_version t h =
    finished t
      (domain-Writes (ascii "gp/payload-context/v1")
        ⊕ bytes-Writes (id_bytes config_id)
        ⊕ u64-Writes config_version)
      h

pub node_provision_context-encode :
    (node_id : Bytes) (role : Bytes) (t : Bytes)
    → Messages.node_provision_context node_id role ≡ ok t
    → (t
        ≡ encode (
            block (domain_of Kind.node_provision_context)
            ∷ body (Message.node_provision_context node_id role)))
      × BlocksFit (
          block (domain_of Kind.node_provision_context)
          ∷ body (Message.node_provision_context node_id role))
unfolding Messages.node_provision_context body domain_of
node_provision_context-encode node_id role t h =
    finished t
      (domain-Writes (ascii "gp/network-node-provision/v1")
        ⊕ bytes-Writes node_id
        ⊕ bytes-Writes role)
      h

pub mailbox_transport_context-encode :
    (mailbox : Bytes) (direction : Bytes) (t : Bytes)
    → Messages.mailbox_transport_context mailbox direction ≡ ok t
    → (t
        ≡ encode (
            block (domain_of Kind.mailbox_transport_context)
            ∷ body (Message.mailbox_transport_context mailbox direction)))
      × BlocksFit (
          block (domain_of Kind.mailbox_transport_context)
          ∷ body (Message.mailbox_transport_context mailbox direction))
unfolding Messages.mailbox_transport_context body domain_of
mailbox_transport_context-encode mailbox direction t h =
    finished t
      (domain-Writes (ascii "gp/network-mailbox-transport/v1")
        ⊕ bytes-Writes mailbox
        ⊕ bytes-Writes direction)
      h
