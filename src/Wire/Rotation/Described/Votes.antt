-- ===== src/Wire/Rotation/Described/Votes.antt =====
-- What the transcripts of the votes that begin and release a rotation, and the owner's cancellation write.
use master_recovery.Prelude.{refl, Bool, true, false, List, [], ◌∷◌, ◌++◌, map, length}
use master_recovery.Types.Ceremony.{
  SignerRotationBeginVote, BeginRotationCertificate, OwnerRotationCancelCertificate,
  OwnerRotationCancelAck, SignerRotationReleaseVote, RotationReleaseCertificate,
}
use master_recovery.Wire.Bytes.{ascii}
use master_recovery.Wire.Transcript.{id_bytes}
use master_recovery.Wire.Rotation.{max_rotation_actors}
use master_recovery.Wire.Fields.{Field, word, block}
use master_recovery.Wire.Encoding.{Writes, ◌⊕◌, bytes-Writes, u16-Writes, u64-Writes}
use master_recovery.Wire.Rotation.Items.{
  Item, Piece, plain, rows, flatten, length-map, map-AllShaped,
}
use master_recovery.Wire.Rotation.Described.{
  count-Writes, each-Writes, ends, signature_fields, optional-Writes, context_fields,
  context-Writes, IsDescribed, described, refused-IsDescribed, after-IsDescribed, b, w2, w8,
  context_shapes,
}
use master_recovery.Wire.Rotation.Votes.{
  begin_vote_into, release_vote_into, signer_rotation_begin_vote, begin_rotation_certificate,
  owner_rotation_cancel_certificate, owner_rotation_cancel_ack, signer_rotation_release_vote,
  rotation_release_certificate,
}

abbrev pub begin_vote_fields : SignerRotationBeginVote → Bool → List Field
begin_vote_fields vote include_signature =
    (context_fields vote.context
      ++ (block (id_bytes vote.intent_hash)
          ∷ block (id_bytes vote.plan_hash)
          ∷ block (id_bytes vote.old_roster_commitment)
          ∷ block (id_bytes vote.new_roster_commitment)
          ∷ word 2 vote.signer_id
          ∷ block (id_bytes vote.signer_public_key)
          ∷ block vote.signer_membership_proof
          ∷ signature_fields include_signature vote.signer_signature))

pub begin_vote-Writes :
    (vote : SignerRotationBeginVote) (include_signature : Bool)
    → Writes (begin_vote_into vote include_signature) (begin_vote_fields vote include_signature)
unfolding begin_vote_into
begin_vote-Writes vote include_signature =
    context-Writes vote.context
    ⊕ bytes-Writes (id_bytes vote.intent_hash)
    ⊕ bytes-Writes (id_bytes vote.plan_hash)
    ⊕ bytes-Writes (id_bytes vote.old_roster_commitment)
    ⊕ bytes-Writes (id_bytes vote.new_roster_commitment)
    ⊕ u16-Writes vote.signer_id
    ⊕ bytes-Writes (id_bytes vote.signer_public_key)
    ⊕ bytes-Writes vote.signer_membership_proof
    ⊕ optional-Writes include_signature vote.signer_signature

abbrev pub release_vote_fields : SignerRotationReleaseVote → Bool → List Field
release_vote_fields vote include_signature =
    (context_fields vote.context
      ++ (block (id_bytes vote.plan_hash)
          ∷ block (id_bytes vote.begin_certificate_hash)
          ∷ word 2 vote.signer_id
          ∷ block (id_bytes vote.signer_public_key)
          ∷ block vote.signer_membership_proof
          ∷ signature_fields include_signature vote.signer_signature))

pub release_vote-Writes :
    (vote : SignerRotationReleaseVote) (include_signature : Bool)
    → Writes (release_vote_into vote include_signature) (release_vote_fields vote include_signature)
unfolding release_vote_into
release_vote-Writes vote include_signature =
    context-Writes vote.context
    ⊕ bytes-Writes (id_bytes vote.plan_hash)
    ⊕ bytes-Writes (id_bytes vote.begin_certificate_hash)
    ⊕ u16-Writes vote.signer_id
    ⊕ bytes-Writes (id_bytes vote.signer_public_key)
    ⊕ bytes-Writes vote.signer_membership_proof
    ⊕ optional-Writes include_signature vote.signer_signature

abbrev pub signer_rotation_begin_vote_items : SignerRotationBeginVote → List Item
signer_rotation_begin_vote_items value = plain (begin_vote_fields value false) ∷ []

abbrev pub signer_rotation_begin_vote_layout : List Piece
signer_rotation_begin_vote_layout =
    Piece.plain (context_shapes ++ (b ∷ b ∷ b ∷ b ∷ w2 ∷ b ∷ b ∷ [])) ∷ []

pub signer_rotation_begin_vote-IsDescribed :
    (value : SignerRotationBeginVote)
    → IsDescribed
        (signer_rotation_begin_vote value)
        (ascii "gp/signer-rotation-begin-vote/v3")
        (signer_rotation_begin_vote_items value)
        signer_rotation_begin_vote_layout
unfolding signer_rotation_begin_vote flatten
signer_rotation_begin_vote-IsDescribed value =
    described (ascii "gp/signer-rotation-begin-vote/v3") (begin_vote-Writes value false) (refl, tt)

abbrev pub begin_rotation_certificate_items : BeginRotationCertificate → List Item
begin_rotation_certificate_items value =
    plain (
      (context_fields value.context
        ++ (block (id_bytes value.intent_hash)
            ∷ block (id_bytes value.plan_hash)
            ∷ block (id_bytes value.old_roster_commitment)
            ∷ block (id_bytes value.new_roster_commitment)
            ∷ word 8 value.not_before_wall
            ∷ [])))
    ∷ rows (length value.votes)
        (map (λ (vote : SignerRotationBeginVote). begin_vote_fields vote true) value.votes)
    ∷ []

abbrev pub begin_rotation_certificate_layout : List Piece
begin_rotation_certificate_layout =
    Piece.plain (context_shapes ++ (b ∷ b ∷ b ∷ b ∷ w8 ∷ []))
    ∷ Piece.rows (context_shapes ++ (b ∷ b ∷ b ∷ b ∷ w2 ∷ b ∷ b ∷ b ∷ []))
    ∷ []

pub begin_rotation_certificate-IsDescribed :
    (value : BeginRotationCertificate)
    → IsDescribed
        (begin_rotation_certificate value)
        (ascii "gp/begin-rotation-certificate/v3")
        (begin_rotation_certificate_items value)
        begin_rotation_certificate_layout
unfolding begin_rotation_certificate flatten
begin_rotation_certificate-IsDescribed value = after-IsDescribed _ (
    refused-IsDescribed _ (
      described (ascii "gp/begin-rotation-certificate/v3")
        (context-Writes value.context
          ⊕ bytes-Writes (id_bytes value.intent_hash)
          ⊕ bytes-Writes (id_bytes value.plan_hash)
          ⊕ bytes-Writes (id_bytes value.old_roster_commitment)
          ⊕ bytes-Writes (id_bytes value.new_roster_commitment)
          ⊕ u64-Writes value.not_before_wall
          ⊕ count-Writes (length value.votes) max_rotation_actors
          ⊕ ends (
              each-Writes (λ (vote : SignerRotationBeginVote). begin_vote_into vote true)
                (λ (vote : SignerRotationBeginVote). begin_vote_fields vote true) value.votes
                (λ vote. begin_vote-Writes vote true)))
        (
          refl,
          (
            length-map (λ (vote : SignerRotationBeginVote). begin_vote_fields vote true)
                value.votes,
            map-AllShaped (context_shapes ++ (b ∷ b ∷ b ∷ b ∷ w2 ∷ b ∷ b ∷ b ∷ []))
                (λ (vote : SignerRotationBeginVote). begin_vote_fields vote true) value.votes
                (λ a. refl),
            tt,
          ),
        )))

abbrev pub owner_rotation_cancel_certificate_items : OwnerRotationCancelCertificate → List Item
owner_rotation_cancel_certificate_items value =
    plain (
      (context_fields value.context
        ++ (block (id_bytes value.plan_hash)
            ∷ word 2 value.reason_code
            ∷ block value.cancel_response_recipient_key
            ∷ block (id_bytes value.owner_cancel_public_key)
            ∷ [])))
    ∷ []

abbrev pub owner_rotation_cancel_certificate_layout : List Piece
owner_rotation_cancel_certificate_layout =
    Piece.plain (context_shapes ++ (b ∷ w2 ∷ b ∷ b ∷ [])) ∷ []

pub owner_rotation_cancel_certificate-IsDescribed :
    (value : OwnerRotationCancelCertificate)
    → IsDescribed
        (owner_rotation_cancel_certificate value)
        (ascii "gp/owner-rotation-cancel/v3")
        (owner_rotation_cancel_certificate_items value)
        owner_rotation_cancel_certificate_layout
unfolding owner_rotation_cancel_certificate flatten
owner_rotation_cancel_certificate-IsDescribed value =
    described (ascii "gp/owner-rotation-cancel/v3")
      (context-Writes value.context
        ⊕ bytes-Writes (id_bytes value.plan_hash)
        ⊕ u16-Writes value.reason_code
        ⊕ bytes-Writes value.cancel_response_recipient_key
        ⊕ bytes-Writes (id_bytes value.owner_cancel_public_key))
      (refl, tt)

abbrev pub owner_rotation_cancel_ack_items : OwnerRotationCancelAck → List Item
owner_rotation_cancel_ack_items value =
    plain (
      (context_fields value.context
        ++ (block (id_bytes value.plan_hash)
            ∷ block (id_bytes value.cancel_certificate_hash)
            ∷ word 2 value.guardian_index
            ∷ [])))
    ∷ []

abbrev pub owner_rotation_cancel_ack_layout : List Piece
owner_rotation_cancel_ack_layout = Piece.plain (context_shapes ++ (b ∷ b ∷ w2 ∷ [])) ∷ []

pub owner_rotation_cancel_ack-IsDescribed :
    (value : OwnerRotationCancelAck)
    → IsDescribed
        (owner_rotation_cancel_ack value)
        (ascii "gp/owner-rotation-cancel-ack/v3")
        (owner_rotation_cancel_ack_items value)
        owner_rotation_cancel_ack_layout
unfolding owner_rotation_cancel_ack flatten
owner_rotation_cancel_ack-IsDescribed value =
    described (ascii "gp/owner-rotation-cancel-ack/v3")
      (context-Writes value.context
        ⊕ bytes-Writes (id_bytes value.plan_hash)
        ⊕ bytes-Writes (id_bytes value.cancel_certificate_hash)
        ⊕ u16-Writes value.guardian_index)
      (refl, tt)

abbrev pub signer_rotation_release_vote_items : SignerRotationReleaseVote → List Item
signer_rotation_release_vote_items value = plain (release_vote_fields value false) ∷ []

abbrev pub signer_rotation_release_vote_layout : List Piece
signer_rotation_release_vote_layout = Piece.plain (context_shapes ++ (b ∷ b ∷ w2 ∷ b ∷ b ∷ [])) ∷ []

pub signer_rotation_release_vote-IsDescribed :
    (value : SignerRotationReleaseVote)
    → IsDescribed
        (signer_rotation_release_vote value)
        (ascii "gp/signer-rotation-release-vote/v3")
        (signer_rotation_release_vote_items value)
        signer_rotation_release_vote_layout
unfolding signer_rotation_release_vote flatten
signer_rotation_release_vote-IsDescribed value =
    described (ascii "gp/signer-rotation-release-vote/v3") (release_vote-Writes value false)
      (refl, tt)

abbrev pub rotation_release_certificate_items : RotationReleaseCertificate → List Item
rotation_release_certificate_items value =
    plain (
      (context_fields value.context
        ++ (block (id_bytes value.plan_hash) ∷ block (id_bytes value.begin_certificate_hash) ∷ [])))
    ∷ rows (length value.votes)
        (map (λ (vote : SignerRotationReleaseVote). release_vote_fields vote true) value.votes)
    ∷ []

abbrev pub rotation_release_certificate_layout : List Piece
rotation_release_certificate_layout =
    Piece.plain (context_shapes ++ (b ∷ b ∷ []))
    ∷ Piece.rows (context_shapes ++ (b ∷ b ∷ w2 ∷ b ∷ b ∷ b ∷ []))
    ∷ []

pub rotation_release_certificate-IsDescribed :
    (value : RotationReleaseCertificate)
    → IsDescribed
        (rotation_release_certificate value)
        (ascii "gp/rotation-release-certificate/v3")
        (rotation_release_certificate_items value)
        rotation_release_certificate_layout
unfolding rotation_release_certificate flatten
rotation_release_certificate-IsDescribed value = after-IsDescribed _ (
    refused-IsDescribed _ (
      described (ascii "gp/rotation-release-certificate/v3")
        (context-Writes value.context
          ⊕ bytes-Writes (id_bytes value.plan_hash)
          ⊕ bytes-Writes (id_bytes value.begin_certificate_hash)
          ⊕ count-Writes (length value.votes) max_rotation_actors
          ⊕ ends (
              each-Writes (λ (vote : SignerRotationReleaseVote). release_vote_into vote true)
                (λ (vote : SignerRotationReleaseVote). release_vote_fields vote true) value.votes
                (λ vote. release_vote-Writes vote true)))
        (
          refl,
          (
            length-map (λ (vote : SignerRotationReleaseVote). release_vote_fields vote true)
                value.votes,
            map-AllShaped (context_shapes ++ (b ∷ b ∷ w2 ∷ b ∷ b ∷ b ∷ []))
                (λ (vote : SignerRotationReleaseVote). release_vote_fields vote true) value.votes
                (λ a. refl),
            tt,
          ),
        )))
