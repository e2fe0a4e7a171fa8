-- ===== src/Wire/Rotation/Described/Recover.antt =====
-- What the transcripts of recovery write.
use master_recovery.Prelude.{ℕ, refl, Bool, true, false, List, [], ◌∷◌, ◌++◌, map, length}
use master_recovery.Types.Rotation.{RecoveryRequestV3}
use master_recovery.Types.RecoveryV3.{
  SignerRecoveryContributionV3, BeginRecoveryCertificateV3, SignerRecoveryReleaseVoteV3,
  RecoveryReleaseCertificateV3, OwnerRecoveryCancelCertificateV3, OwnerRecoveryCancelAckV3,
  GuardianRecoveryContributionV3,
}
use master_recovery.Wire.Bytes.{ascii}
use master_recovery.Wire.Transcript.{id_bytes}
use master_recovery.Wire.Rotation.{max_rotation_actors}
use master_recovery.Wire.Fields.{Field, word, block, encode}
use master_recovery.Wire.Encoding.{Writes, ◌⊕◌, bytes-Writes, u16-Writes, u64-Writes}
use master_recovery.Wire.Rotation.Items.{
  Item, Piece, plain, rows, flatten, length-map, map-AllShaped,
}
use master_recovery.Wire.Rotation.Described.{
  count-Writes, each-Writes, ends, signature_fields, optional-Writes, config_ref_fields,
  config_ref-Writes, sealed_fields, sealed-Writes, IsDescribed, described, refused-IsDescribed,
  after-IsDescribed, nested-described, b, w2, w8, config_ref_shapes, sealed_shapes,
}
use master_recovery.Wire.Rotation.Recover.{
  recovery_request_v3, recovery_request_digest_v3, recovery_authorization_share_context_v3,
  signer_recovery_contribution_into, signer_recovery_contribution_v3, begin_recovery_certificate_v3,
  signer_recovery_release_vote_into, signer_recovery_release_vote_v3,
  recovery_release_certificate_v3, owner_recovery_cancel_certificate_v3,
  owner_recovery_cancel_ack_v3, guardian_recovery_contribution_v3,
}

abbrev pub recovery_request_v3_items : RecoveryRequestV3 → List Item
recovery_request_v3_items value =
    plain (
      word 2 value.protocol_version
      ∷ (config_ref_fields value.config_ref
          ++ (block (id_bytes value.request_id)
              ∷ block value.recovery_recipient_key
              ∷ word 8 value.requested_at
              ∷ block (id_bytes value.nonce)
              ∷ word 8 value.expiry
              ∷ [])))
    ∷ []

abbrev pub recovery_request_v3_layout : List Piece
recovery_request_v3_layout = Piece.plain (w2 ∷ config_ref_shapes ++ (b ∷ b ∷ w8 ∷ b ∷ w8 ∷ [])) ∷ []

-- A request as one field of another transcript.
abbrev pub recovery_request_v3_block : RecoveryRequestV3 → Field
recovery_request_v3_block value = block (
    encode (
      block (ascii "gp/recovery-request/v3")
      ∷ (word 2 value.protocol_version
            ∷ (config_ref_fields value.config_ref
                ++ (block (id_bytes value.request_id)
                    ∷ block value.recovery_recipient_key
                    ∷ word 8 value.requested_at
                    ∷ block (id_bytes value.nonce)
                    ∷ word 8 value.expiry
                    ∷ []))
          ++ [])))

pub recovery_request_v3-IsDescribed :
    (value : RecoveryRequestV3)
    → IsDescribed
        (recovery_request_v3 value)
        (ascii "gp/recovery-request/v3")
        (recovery_request_v3_items value)
        recovery_request_v3_layout
unfolding recovery_request_v3 flatten
recovery_request_v3-IsDescribed value = refused-IsDescribed _ (
    described (ascii "gp/recovery-request/v3")
      (u16-Writes value.protocol_version
        ⊕ config_ref-Writes value.config_ref
        ⊕ bytes-Writes (id_bytes value.request_id)
        ⊕ bytes-Writes value.recovery_recipient_key
        ⊕ u64-Writes value.requested_at
        ⊕ bytes-Writes (id_bytes value.nonce)
        ⊕ u64-Writes value.expiry)
      (refl, tt))

abbrev pub recovery_request_digest_v3_items : RecoveryRequestV3 → List Item
recovery_request_digest_v3_items value = plain (recovery_request_v3_block value ∷ []) ∷ []

abbrev pub recovery_request_digest_v3_layout : List Piece
recovery_request_digest_v3_layout = Piece.plain (b ∷ []) ∷ []

pub recovery_request_digest_v3-IsDescribed :
    (value : RecoveryRequestV3)
    → IsDescribed
        (recovery_request_digest_v3 value)
        (ascii "gp/recovery-request-digest/v3")
        (recovery_request_digest_v3_items value)
        recovery_request_digest_v3_layout
unfolding recovery_request_digest_v3 flatten
recovery_request_digest_v3-IsDescribed value =
    described (ascii "gp/recovery-request-digest/v3")
      (nested-described (recovery_request_v3-IsDescribed value)) (refl, tt)

abbrev pub recovery_authorization_share_context_v3_items : RecoveryRequestV3 → ℕ → List Item
recovery_authorization_share_context_v3_items request signer_id =
    plain (recovery_request_v3_block request ∷ word 2 signer_id ∷ []) ∷ []

abbrev pub recovery_authorization_share_context_v3_layout : List Piece
recovery_authorization_share_context_v3_layout = Piece.plain (b ∷ w2 ∷ []) ∷ []

pub recovery_authorization_share_context_v3-IsDescribed :
    (request : RecoveryRequestV3) (signer_id : ℕ)
    → IsDescribed
        (recovery_authorization_share_context_v3 request signer_id)
        (ascii "gp/recovery-a-share-context/v3")
        (recovery_authorization_share_context_v3_items request signer_id)
        recovery_authorization_share_context_v3_layout
unfolding recovery_authorization_share_context_v3 flatten
recovery_authorization_share_context_v3-IsDescribed request signer_id =
    described (ascii "gp/recovery-a-share-context/v3")
      (nested-described (recovery_request_v3-IsDescribed request) ⊕ u16-Writes signer_id) (refl, tt)

abbrev pub signer_recovery_contribution_fields : SignerRecoveryContributionV3 → Bool → List Field
signer_recovery_contribution_fields value include_signature =
    recovery_request_v3_block value.request
    ∷ word 2 value.signer_id
    ∷ block (id_bytes value.signer_public_key)
    ∷ block value.signer_membership_proof
    ∷ (sealed_fields value.encrypted_authorization_share
        ++ (signature_fields include_signature value.signer_signature))

pub signer_recovery_contribution-Writes :
    (value : SignerRecoveryContributionV3) (include_signature : Bool)
    → Writes
        (signer_recovery_contribution_into value include_signature)
        (signer_recovery_contribution_fields value include_signature)
unfolding signer_recovery_contribution_into
signer_recovery_contribution-Writes value include_signature =
    nested-described (recovery_request_v3-IsDescribed value.request)
    ⊕ u16-Writes value.signer_id
    ⊕ bytes-Writes (id_bytes value.signer_public_key)
    ⊕ bytes-Writes value.signer_membership_proof
    ⊕ sealed-Writes value.encrypted_authorization_share
    ⊕ optional-Writes include_signature value.signer_signature

abbrev pub signer_recovery_contribution_v3_items : SignerRecoveryContributionV3 → List Item
signer_recovery_contribution_v3_items value =
    plain (signer_recovery_contribution_fields value false) ∷ []

abbrev pub signer_recovery_contribution_v3_layout : List Piece
signer_recovery_contribution_v3_layout = Piece.plain (b ∷ w2 ∷ b ∷ b ∷ sealed_shapes) ∷ []

pub signer_recovery_contribution_v3-IsDescribed :
    (value : SignerRecoveryContributionV3)
    → IsDescribed
        (signer_recovery_contribution_v3 value)
        (ascii "gp/signer-recovery-contribution/v3")
        (signer_recovery_contribution_v3_items value)
        signer_recovery_contribution_v3_layout
unfolding signer_recovery_contribution_v3 flatten
signer_recovery_contribution_v3-IsDescribed value =
    described (ascii "gp/signer-recovery-contribution/v3")
      (signer_recovery_contribution-Writes value false) (refl, tt)

abbrev pub begin_recovery_certificate_v3_items : BeginRecoveryCertificateV3 → List Item
begin_recovery_certificate_v3_items value =
    plain (recovery_request_v3_block value.request ∷ block (id_bytes value.request_digest) ∷ [])
    ∷ rows (length value.signer_contributions) (
        map
          (λ (contribution : SignerRecoveryContributionV3).
            signer_recovery_contribution_fields contribution true)
          value.signer_contributions)
    ∷ []

abbrev pub begin_recovery_certificate_v3_layout : List Piece
begin_recovery_certificate_v3_layout =
    Piece.plain (b ∷ b ∷ []) ∷ Piece.rows (b ∷ w2 ∷ b ∷ b ∷ sealed_shapes ++ (b ∷ [])) ∷ []

pub begin_recovery_certificate_v3-IsDescribed :
    (value : BeginRecoveryCertificateV3)
    → IsDescribed
        (begin_recovery_certificate_v3 value)
        (ascii "gp/begin-recovery-certificate/v3")
        (begin_recovery_certificate_v3_items value)
        begin_recovery_certificate_v3_layout
unfolding begin_recovery_certificate_v3 flatten
begin_recovery_certificate_v3-IsDescribed value = after-IsDescribed _ (
    refused-IsDescribed _ (
      described (ascii "gp/begin-recovery-certificate/v3")
        (nested-described (recovery_request_v3-IsDescribed value.request)
          ⊕ bytes-Writes (id_bytes value.request_digest)
          ⊕ count-Writes (length value.signer_contributions) max_rotation_actors
          ⊕ ends (
              each-Writes
                (λ (contribution : SignerRecoveryContributionV3).
                  signer_recovery_contribution_into contribution true)
                (λ (contribution : SignerRecoveryContributionV3).
                  signer_recovery_contribution_fields contribution true)
                value.signer_contributions
                (λ contribution. signer_recovery_contribution-Writes contribution true)))
        (
          refl,
          (
            length-map
                (λ (contribution : SignerRecoveryContributionV3).
                  signer_recovery_contribution_fields contribution true)
                value.signer_contributions,
            map-AllShaped (b ∷ w2 ∷ b ∷ b ∷ sealed_shapes ++ (b ∷ []))
                (λ (contribution : SignerRecoveryContributionV3).
                  signer_recovery_contribution_fields contribution true)
                value.signer_contributions (λ a. refl),
            tt,
          ),
        )))

abbrev pub signer_recovery_release_vote_fields : SignerRecoveryReleaseVoteV3 → Bool → List Field
signer_recovery_release_vote_fields value include_signature =
    recovery_request_v3_block value.request
    ∷ block (id_bytes value.request_digest)
    ∷ word 2 value.signer_id
    ∷ block (id_bytes value.signer_public_key)
    ∷ block value.signer_membership_proof
    ∷ signature_fields include_signature value.signer_signature

pub signer_recovery_release_vote-Writes :
    (value : SignerRecoveryReleaseVoteV3) (include_signature : Bool)
    → Writes
        (signer_recovery_release_vote_into value include_signature)
        (signer_recovery_release_vote_fields value include_signature)
unfolding signer_recovery_release_vote_into
signer_recovery_release_vote-Writes value include_signature =
    nested-described (recovery_request_v3-IsDescribed value.request)
    ⊕ bytes-Writes (id_bytes value.request_digest)
    ⊕ u16-Writes value.signer_id
    ⊕ bytes-Writes (id_bytes value.signer_public_key)
    ⊕ bytes-Writes value.signer_membership_proof
    ⊕ optional-Writes include_signature value.signer_signature

abbrev pub signer_recovery_release_vote_v3_items : SignerRecoveryReleaseVoteV3 → List Item
signer_recovery_release_vote_v3_items value =
    plain (signer_recovery_release_vote_fields value false) ∷ []

abbrev pub signer_recovery_release_vote_v3_layout : List Piece
signer_recovery_release_vote_v3_layout = Piece.plain (b ∷ b ∷ w2 ∷ b ∷ b ∷ []) ∷ []

pub signer_recovery_release_vote_v3-IsDescribed :
    (value : SignerRecoveryReleaseVoteV3)
    → IsDescribed
        (signer_recovery_release_vote_v3 value)
        (ascii "gp/signer-recovery-release-vote/v3")
        (signer_recovery_release_vote_v3_items value)
        signer_recovery_release_vote_v3_layout
unfolding signer_recovery_release_vote_v3 flatten
signer_recovery_release_vote_v3-IsDescribed value =
    described (ascii "gp/signer-recovery-release-vote/v3")
      (signer_recovery_release_vote-Writes value false) (refl, tt)

abbrev pub recovery_release_certificate_v3_items : RecoveryReleaseCertificateV3 → List Item
recovery_release_certificate_v3_items value =
    plain (recovery_request_v3_block value.request ∷ block (id_bytes value.request_digest) ∷ [])
    ∷ rows (length value.votes) (
        map (λ (vote : SignerRecoveryReleaseVoteV3). signer_recovery_release_vote_fields vote true)
          value.votes)
    ∷ []

abbrev pub recovery_release_certificate_v3_layout : List Piece
recovery_release_certificate_v3_layout =
    Piece.plain (b ∷ b ∷ []) ∷ Piece.rows (b ∷ b ∷ w2 ∷ b ∷ b ∷ b ∷ []) ∷ []

pub recovery_release_certificate_v3-IsDescribed :
    (value : RecoveryReleaseCertificateV3)
    → IsDescribed
        (recovery_release_certificate_v3 value)
        (ascii "gp/recovery-release-certificate/v3")
        (recovery_release_certificate_v3_items value)
        recovery_release_certificate_v3_layout
unfolding recovery_release_certificate_v3 flatten
recovery_release_certificate_v3-IsDescribed value = after-IsDescribed _ (
    refused-IsDescribed _ (
      described (ascii "gp/recovery-release-certificate/v3")
        (nested-described (recovery_request_v3-IsDescribed value.request)
          ⊕ bytes-Writes (id_bytes value.request_digest)
          ⊕ count-Writes (length value.votes) max_rotation_actors
          ⊕ ends (
              each-Writes
                (λ (vote : SignerRecoveryReleaseVoteV3).
                  signer_recovery_release_vote_into vote true)
                (λ (vote : SignerRecoveryReleaseVoteV3).
                  signer_recovery_release_vote_fields vote true)
                value.votes (λ vote. signer_recovery_release_vote-Writes vote true)))
        (
          refl,
          (
            length-map
                (λ (vote : SignerRecoveryReleaseVoteV3).
                  signer_recovery_release_vote_fields vote true)
                value.votes,
            map-AllShaped (b ∷ b ∷ w2 ∷ b ∷ b ∷ b ∷ [])
                (λ (vote : SignerRecoveryReleaseVoteV3).
                  signer_recovery_release_vote_fields vote true)
                value.votes (λ a. refl),
            tt,
          ),
        )))

abbrev pub owner_recovery_cancel_certificate_v3_items : OwnerRecoveryCancelCertificateV3 → List Item
owner_recovery_cancel_certificate_v3_items value =
    plain (
      recovery_request_v3_block value.request
      ∷ block (id_bytes value.request_digest)
      ∷ word 2 value.reason_code
      ∷ block value.cancel_response_recipient_key
      ∷ block (id_bytes value.owner_cancel_public_key)
      ∷ [])
    ∷ []

abbrev pub owner_recovery_cancel_certificate_v3_layout : List Piece
owner_recovery_cancel_certificate_v3_layout = Piece.plain (b ∷ b ∷ w2 ∷ b ∷ b ∷ []) ∷ []

pub owner_recovery_cancel_certificate_v3-IsDescribed :
    (value : OwnerRecoveryCancelCertificateV3)
    → IsDescribed
        (owner_recovery_cancel_certificate_v3 value)
        (ascii "gp/owner-recovery-cancel/v3")
        (owner_recovery_cancel_certificate_v3_items value)
        owner_recovery_cancel_certificate_v3_layout
unfolding owner_recovery_cancel_certificate_v3 flatten
owner_recovery_cancel_certificate_v3-IsDescribed value =
    described (ascii "gp/owner-recovery-cancel/v3")
      (nested-described (recovery_request_v3-IsDescribed value.request)
        ⊕ bytes-Writes (id_bytes value.request_digest)
        ⊕ u16-Writes value.reason_code
        ⊕ bytes-Writes value.cancel_response_recipient_key
        ⊕ bytes-Writes (id_bytes value.owner_cancel_public_key))
      (refl, tt)

abbrev pub owner_recovery_cancel_ack_v3_items : OwnerRecoveryCancelAckV3 → List Item
owner_recovery_cancel_ack_v3_items value =
    plain (
      (config_ref_fields value.config_ref
        ++ (block (id_bytes value.request_id)
            ∷ block (id_bytes value.request_digest)
            ∷ block (id_bytes value.cancel_certificate_hash)
            ∷ word 2 value.guardian_index
            ∷ [])))
    ∷ []

abbrev pub owner_recovery_cancel_ack_v3_layout : List Piece
owner_recovery_cancel_ack_v3_layout = Piece.plain (config_ref_shapes ++ (b ∷ b ∷ b ∷ w2 ∷ [])) ∷ []

pub owner_recovery_cancel_ack_v3-IsDescribed :
    (value : OwnerRecoveryCancelAckV3)
    → IsDescribed
        (owner_recovery_cancel_ack_v3 value)
        (ascii "gp/owner-recovery-cancel-ack/v3")
        (owner_recovery_cancel_ack_v3_items value)
        owner_recovery_cancel_ack_v3_layout
unfolding owner_recovery_cancel_ack_v3 flatten
owner_recovery_cancel_ack_v3-IsDescribed value =
    described (ascii "gp/owner-recovery-cancel-ack/v3")
      (config_ref-Writes value.config_ref
        ⊕ bytes-Writes (id_bytes value.request_id)
        ⊕ bytes-Writes (id_bytes value.request_digest)
        ⊕ bytes-Writes (id_bytes value.cancel_certificate_hash)
        ⊕ u16-Writes value.guardian_index)
      (refl, tt)

abbrev pub guardian_recovery_contribution_v3_items : GuardianRecoveryContributionV3 → List Item
guardian_recovery_contribution_v3_items value =
    plain (
      (config_ref_fields value.config_ref
        ++ (block (id_bytes value.request_id)
            ∷ block (id_bytes value.request_digest)
            ∷ block value.recovery_recipient_key
            ∷ block (id_bytes value.nonce)
            ∷ word 2 value.guardian_index
            ∷ word 2 value.fragment_index
            ∷ block value.encrypted_ciphertext_fragment.nonce
            ∷ block value.encrypted_ciphertext_fragment.ciphertext
            ∷ block value.encrypted_dek_share.nonce
            ∷ block value.encrypted_dek_share.ciphertext
            ∷ block value.merkle_path_proof
            ∷ [])))
    ∷ []

abbrev pub guardian_recovery_contribution_v3_layout : List Piece
guardian_recovery_contribution_v3_layout =
    Piece.plain (config_ref_shapes ++ (b ∷ b ∷ b ∷ b ∷ w2 ∷ w2 ∷ b ∷ b ∷ b ∷ b ∷ b ∷ [])) ∷ []

pub guardian_recovery_contribution_v3-IsDescribed :
    (value : GuardianRecoveryContributionV3)
    → IsDescribed
        (guardian_recovery_contribution_v3 value)
        (ascii "gp/guardian-recovery-contribution/v3")
        (guardian_recovery_contribution_v3_items value)
        guardian_recovery_contribution_v3_layout
unfolding guardian_recovery_contribution_v3 flatten
guardian_recovery_contribution_v3-IsDescribed value = refused-IsDescribed _ (
    described (ascii "gp/guardian-recovery-contribution/v3")
      (config_ref-Writes value.config_ref
        ⊕ bytes-Writes (id_bytes value.request_id)
        ⊕ bytes-Writes (id_bytes value.request_digest)
        ⊕ bytes-Writes value.recovery_recipient_key
        ⊕ bytes-Writes (id_bytes value.nonce)
        ⊕ u16-Writes value.guardian_index
        ⊕ u16-Writes value.fragment_index
        ⊕ bytes-Writes value.encrypted_ciphertext_fragment.nonce
        ⊕ bytes-Writes value.encrypted_ciphertext_fragment.ciphertext
        ⊕ bytes-Writes value.encrypted_dek_share.nonce
        ⊕ bytes-Writes value.encrypted_dek_share.ciphertext
        ⊕ bytes-Writes value.merkle_path_proof)
      (refl, tt))
