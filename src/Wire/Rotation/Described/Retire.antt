-- ===== src/Wire/Rotation/Described/Retire.antt =====
-- What the transcripts of retirement and abort write.
use master_recovery.Prelude.{refl, Bool, true, false, List, [], ◌∷◌, ◌++◌, map, length}
use master_recovery.Types.Activation.{
  RetirementNotice, RetirementAck, SignerRotationAbortVote, AbortRotationCertificate,
}
use master_recovery.Wire.Bytes.{ascii}
use master_recovery.Wire.Transcript.{id_bytes}
use master_recovery.Wire.Rotation.{max_rotation_actors, state_id}
use master_recovery.Wire.Fields.{Field, word, block}
use master_recovery.Wire.Encoding.{Writes, ◌⊕◌, bytes-Writes, u16-Writes, u64-Writes}
use master_recovery.Wire.Rotation.Items.{
  Item, Piece, plain, rows, flatten, length-map, map-AllShaped,
}
use master_recovery.Wire.Rotation.Described.{
  count-Writes, each-Writes, ends, signature_fields, optional-Writes, context_fields,
  context-Writes, IsDescribed, described, after-IsDescribed, b, w2, w8, context_shapes,
}
use master_recovery.Wire.Rotation.Retire.{
  signer_rotation_abort_vote_into, retirement_notice, retirement_ack, abort_rotation_certificate,
  signer_rotation_abort_vote,
}

abbrev pub signer_rotation_abort_vote_fields : SignerRotationAbortVote → Bool → List Field
signer_rotation_abort_vote_fields value include_signature =
    (context_fields value.context
      ++ (block (id_bytes value.plan_hash)
          ∷ word 2 (state_id value.state_at_abort)
          ∷ word 2 value.reason_code
          ∷ word 2 value.signer_id
          ∷ block (id_bytes value.signer_public_key)
          ∷ block value.signer_membership_proof
          ∷ signature_fields include_signature value.signer_signature))

pub signer_rotation_abort_vote-Writes :
    (value : SignerRotationAbortVote) (include_signature : Bool)
    → Writes
        (signer_rotation_abort_vote_into value include_signature)
        (signer_rotation_abort_vote_fields value include_signature)
unfolding signer_rotation_abort_vote_into
signer_rotation_abort_vote-Writes value include_signature =
    context-Writes value.context
    ⊕ bytes-Writes (id_bytes value.plan_hash)
    ⊕ u16-Writes (state_id value.state_at_abort)
    ⊕ u16-Writes value.reason_code
    ⊕ u16-Writes value.signer_id
    ⊕ bytes-Writes (id_bytes value.signer_public_key)
    ⊕ bytes-Writes value.signer_membership_proof
    ⊕ optional-Writes include_signature value.signer_signature

abbrev pub retirement_notice_items : RetirementNotice → List Item
retirement_notice_items value =
    plain (
      (context_fields value.context
        ++ (block (id_bytes value.plan_hash)
            ∷ block (id_bytes value.activation_qc_hash)
            ∷ word 8 value.retired_epoch
            ∷ word 8 value.drain_deadline
            ∷ [])))
    ∷ []

abbrev pub retirement_notice_layout : List Piece
retirement_notice_layout = Piece.plain (context_shapes ++ (b ∷ b ∷ w8 ∷ w8 ∷ [])) ∷ []

pub retirement_notice-IsDescribed :
    (value : RetirementNotice)
    → IsDescribed
        (retirement_notice value)
        (ascii "gp/retirement-notice/v3")
        (retirement_notice_items value)
        retirement_notice_layout
unfolding retirement_notice flatten
retirement_notice-IsDescribed value =
    described (ascii "gp/retirement-notice/v3")
      (context-Writes value.context
        ⊕ bytes-Writes (id_bytes value.plan_hash)
        ⊕ bytes-Writes (id_bytes value.activation_qc_hash)
        ⊕ u64-Writes value.retired_epoch
        ⊕ u64-Writes value.drain_deadline)
      (refl, tt)

abbrev pub retirement_ack_items : RetirementAck → List Item
retirement_ack_items value =
    plain (
      (context_fields value.context
        ++ (block (id_bytes value.plan_hash)
            ∷ block (id_bytes value.activation_qc_hash)
            ∷ word 2 value.guardian_index
            ∷ word 8 value.retired_epoch
            ∷ block (id_bytes value.tombstone_hash)
            ∷ [])))
    ∷ []

abbrev pub retirement_ack_layout : List Piece
retirement_ack_layout = Piece.plain (context_shapes ++ (b ∷ b ∷ w2 ∷ w8 ∷ b ∷ [])) ∷ []

pub retirement_ack-IsDescribed :
    (value : RetirementAck)
    → IsDescribed
        (retirement_ack value)
        (ascii "gp/retirement-ack/v3")
        (retirement_ack_items value)
        retirement_ack_layout
unfolding retirement_ack flatten
retirement_ack-IsDescribed value =
    described (ascii "gp/retirement-ack/v3")
      (context-Writes value.context
        ⊕ bytes-Writes (id_bytes value.plan_hash)
        ⊕ bytes-Writes (id_bytes value.activation_qc_hash)
        ⊕ u16-Writes value.guardian_index
        ⊕ u64-Writes value.retired_epoch
        ⊕ bytes-Writes (id_bytes value.tombstone_hash))
      (refl, tt)

abbrev pub abort_rotation_certificate_items : AbortRotationCertificate → List Item
abort_rotation_certificate_items value =
    plain (
      (context_fields value.context
        ++ (block (id_bytes value.plan_hash)
            ∷ word 2 (state_id value.state_at_abort)
            ∷ word 2 value.reason_code
            ∷ [])))
    ∷ rows (length value.votes) (
        map (λ (vote : SignerRotationAbortVote). signer_rotation_abort_vote_fields vote true)
          value.votes)
    ∷ []

abbrev pub abort_rotation_certificate_layout : List Piece
abort_rotation_certificate_layout =
    Piece.plain (context_shapes ++ (b ∷ w2 ∷ w2 ∷ []))
    ∷ Piece.rows (context_shapes ++ (b ∷ w2 ∷ w2 ∷ w2 ∷ b ∷ b ∷ b ∷ []))
    ∷ []

pub abort_rotation_certificate-IsDescribed :
    (value : AbortRotationCertificate)
    → IsDescribed
        (abort_rotation_certificate value)
        (ascii "gp/abort-rotation-certificate/v3")
        (abort_rotation_certificate_items value)
        abort_rotation_certificate_layout
unfolding abort_rotation_certificate flatten
abort_rotation_certificate-IsDescribed value = after-IsDescribed _ (
    described (ascii "gp/abort-rotation-certificate/v3")
      (context-Writes value.context
        ⊕ bytes-Writes (id_bytes value.plan_hash)
        ⊕ u16-Writes (state_id value.state_at_abort)
        ⊕ u16-Writes value.reason_code
        ⊕ count-Writes (length value.votes) max_rotation_actors
        ⊕ ends (
            each-Writes
              (λ (vote : SignerRotationAbortVote). signer_rotation_abort_vote_into vote true)
              (λ (vote : SignerRotationAbortVote). signer_rotation_abort_vote_fields vote true)
              value.votes (λ vote. signer_rotation_abort_vote-Writes vote true)))
      (
        refl,
        (
          length-map
              (λ (vote : SignerRotationAbortVote). signer_rotation_abort_vote_fields vote true)
              value.votes,
          map-AllShaped (context_shapes ++ (b ∷ w2 ∷ w2 ∷ w2 ∷ b ∷ b ∷ b ∷ []))
              (λ (vote : SignerRotationAbortVote). signer_rotation_abort_vote_fields vote true)
              value.votes (λ a. refl),
          tt,
        ),
      ))

abbrev pub signer_rotation_abort_vote_items : SignerRotationAbortVote → List Item
signer_rotation_abort_vote_items value = plain (signer_rotation_abort_vote_fields value false) ∷ []

abbrev pub signer_rotation_abort_vote_layout : List Piece
signer_rotation_abort_vote_layout =
    Piece.plain (context_shapes ++ (b ∷ w2 ∷ w2 ∷ w2 ∷ b ∷ b ∷ [])) ∷ []

pub signer_rotation_abort_vote-IsDescribed :
    (value : SignerRotationAbortVote)
    → IsDescribed
        (signer_rotation_abort_vote value)
        (ascii "gp/signer-rotation-abort-vote/v3")
        (signer_rotation_abort_vote_items value)
        signer_rotation_abort_vote_layout
unfolding signer_rotation_abort_vote flatten
signer_rotation_abort_vote-IsDescribed value =
    described (ascii "gp/signer-rotation-abort-vote/v3")
      (signer_rotation_abort_vote-Writes value false) (refl, tt)
