-- ===== src/Wire/Rotation/Described/Activate.antt =====
-- What the transcripts of the activation, and the witnesses' answers write.
use master_recovery.Prelude.{refl, Bool, true, false, List, [], ◌∷◌, ◌++◌, map, length}
use master_recovery.Types.Epoch.{WitnessActivationAck, EpochActivationQc}
use master_recovery.Types.Activation.{
  SignerRotationActivateVote, RotationActivateCertificate, WitnessRotationCancelAck,
  EpochReadChallenge, WitnessEpochReadResponse,
}
use master_recovery.Wire.Bytes.{ascii}
use master_recovery.Wire.Transcript.{id_bytes}
use master_recovery.Wire.Rotation.{max_rotation_actors, max_config_witnesses}
use master_recovery.Wire.Fields.{Field, word, block}
use master_recovery.Wire.Encoding.{Writes, ◌⊕◌, bytes-Writes, u16-Writes, u64-Writes}
use master_recovery.Wire.Rotation.Items.{
  Item, Piece, plain, rows, flatten, length-map, map-AllShaped,
}
use master_recovery.Wire.Rotation.Described.{
  count-Writes, each-Writes, ends, signature_fields, optional-Writes, config_ref_fields,
  config_ref-Writes, context_fields, context-Writes, IsDescribed, described, refused-IsDescribed,
  after-IsDescribed, b, w2, w8, config_ref_shapes, context_shapes,
}
use master_recovery.Wire.Rotation.Activate.{
  activate_vote_into, witness_ack_into, signer_rotation_activate_vote,
  rotation_activate_certificate, witness_activation_ack, witness_rotation_cancel_ack,
  epoch_activation_qc, epoch_read_challenge, witness_epoch_read_response,
}

abbrev pub activate_vote_fields : SignerRotationActivateVote → Bool → List Field
activate_vote_fields vote include_signature =
    (context_fields vote.context
      ++ (block (id_bytes vote.plan_hash)
          ∷ block (id_bytes vote.ready_certificate_hash)
          ∷ block (id_bytes vote.successor_capsule_hash)
          ∷ word 2 vote.signer_id
          ∷ block (id_bytes vote.signer_public_key)
          ∷ block vote.signer_membership_proof
          ∷ signature_fields include_signature vote.signer_signature))

pub activate_vote-Writes :
    (vote : SignerRotationActivateVote) (include_signature : Bool)
    → Writes
        (activate_vote_into vote include_signature)
        (activate_vote_fields vote include_signature)
unfolding activate_vote_into
activate_vote-Writes vote include_signature =
    context-Writes vote.context
    ⊕ bytes-Writes (id_bytes vote.plan_hash)
    ⊕ bytes-Writes (id_bytes vote.ready_certificate_hash)
    ⊕ bytes-Writes (id_bytes vote.successor_capsule_hash)
    ⊕ u16-Writes vote.signer_id
    ⊕ bytes-Writes (id_bytes vote.signer_public_key)
    ⊕ bytes-Writes vote.signer_membership_proof
    ⊕ optional-Writes include_signature vote.signer_signature

abbrev pub witness_ack_fields : WitnessActivationAck → Bool → List Field
witness_ack_fields ack include_signature =
    (context_fields ack.context
      ++ (block (id_bytes ack.plan_hash)
          ∷ block (id_bytes ack.activation_certificate_hash)
          ∷ word 2 ack.witness_id
          ∷ word 8 ack.predecessor_epoch
          ∷ block (id_bytes ack.predecessor_capsule_hash)
          ∷ word 8 ack.successor_epoch
          ∷ block (id_bytes ack.successor_capsule_hash)
          ∷ block (id_bytes ack.witness_public_key)
          ∷ signature_fields include_signature ack.witness_signature))

pub witness_ack-Writes :
    (ack : WitnessActivationAck) (include_signature : Bool)
    → Writes (witness_ack_into ack include_signature) (witness_ack_fields ack include_signature)
unfolding witness_ack_into
witness_ack-Writes ack include_signature =
    context-Writes ack.context
    ⊕ bytes-Writes (id_bytes ack.plan_hash)
    ⊕ bytes-Writes (id_bytes ack.activation_certificate_hash)
    ⊕ u16-Writes ack.witness_id
    ⊕ u64-Writes ack.predecessor_epoch
    ⊕ bytes-Writes (id_bytes ack.predecessor_capsule_hash)
    ⊕ u64-Writes ack.successor_epoch
    ⊕ bytes-Writes (id_bytes ack.successor_capsule_hash)
    ⊕ bytes-Writes (id_bytes ack.witness_public_key)
    ⊕ optional-Writes include_signature ack.witness_signature

abbrev pub signer_rotation_activate_vote_items : SignerRotationActivateVote → List Item
signer_rotation_activate_vote_items value = plain (activate_vote_fields value false) ∷ []

abbrev pub signer_rotation_activate_vote_layout : List Piece
signer_rotation_activate_vote_layout =
    Piece.plain (context_shapes ++ (b ∷ b ∷ b ∷ w2 ∷ b ∷ b ∷ [])) ∷ []

pub signer_rotation_activate_vote-IsDescribed :
    (value : SignerRotationActivateVote)
    → IsDescribed
        (signer_rotation_activate_vote value)
        (ascii "gp/signer-rotation-activate-vote/v3")
        (signer_rotation_activate_vote_items value)
        signer_rotation_activate_vote_layout
unfolding signer_rotation_activate_vote flatten
signer_rotation_activate_vote-IsDescribed value =
    described (ascii "gp/signer-rotation-activate-vote/v3") (activate_vote-Writes value false)
      (refl, tt)

abbrev pub rotation_activate_certificate_items : RotationActivateCertificate → List Item
rotation_activate_certificate_items value =
    plain (
      (context_fields value.context
        ++ (block (id_bytes value.plan_hash)
            ∷ block (id_bytes value.ready_certificate_hash)
            ∷ (config_ref_fields value.successor
                ++ (block (id_bytes value.successor_capsule_hash) ∷ [])))))
    ∷ rows (length value.votes)
        (map (λ (vote : SignerRotationActivateVote). activate_vote_fields vote true) value.votes)
    ∷ []

abbrev pub rotation_activate_certificate_layout : List Piece
rotation_activate_certificate_layout =
    Piece.plain (context_shapes ++ (b ∷ b ∷ config_ref_shapes ++ (b ∷ [])))
    ∷ Piece.rows (context_shapes ++ (b ∷ b ∷ b ∷ w2 ∷ b ∷ b ∷ b ∷ []))
    ∷ []

pub rotation_activate_certificate-IsDescribed :
    (value : RotationActivateCertificate)
    → IsDescribed
        (rotation_activate_certificate value)
        (ascii "gp/rotation-activate-certificate/v3")
        (rotation_activate_certificate_items value)
        rotation_activate_certificate_layout
unfolding rotation_activate_certificate flatten
rotation_activate_certificate-IsDescribed value = after-IsDescribed _ (
    refused-IsDescribed _ (
      described (ascii "gp/rotation-activate-certificate/v3")
        (context-Writes value.context
          ⊕ bytes-Writes (id_bytes value.plan_hash)
          ⊕ bytes-Writes (id_bytes value.ready_certificate_hash)
          ⊕ config_ref-Writes value.successor
          ⊕ bytes-Writes (id_bytes value.successor_capsule_hash)
          ⊕ count-Writes (length value.votes) max_rotation_actors
          ⊕ ends (
              each-Writes (λ (vote : SignerRotationActivateVote). activate_vote_into vote true)
                (λ (vote : SignerRotationActivateVote). activate_vote_fields vote true) value.votes
                (λ vote. activate_vote-Writes vote true)))
        (
          refl,
          (
            length-map (λ (vote : SignerRotationActivateVote). activate_vote_fields vote true)
                value.votes,
            map-AllShaped (context_shapes ++ (b ∷ b ∷ b ∷ w2 ∷ b ∷ b ∷ b ∷ []))
                (λ (vote : SignerRotationActivateVote). activate_vote_fields vote true) value.votes
                (λ a. refl),
            tt,
          ),
        )))

abbrev pub witness_activation_ack_items : WitnessActivationAck → List Item
witness_activation_ack_items value = plain (witness_ack_fields value false) ∷ []

abbrev pub witness_activation_ack_layout : List Piece
witness_activation_ack_layout =
    Piece.plain (context_shapes ++ (b ∷ b ∷ w2 ∷ w8 ∷ b ∷ w8 ∷ b ∷ b ∷ [])) ∷ []

pub witness_activation_ack-IsDescribed :
    (value : WitnessActivationAck)
    → IsDescribed
        (witness_activation_ack value)
        (ascii "gp/witness-activation-ack/v3")
        (witness_activation_ack_items value)
        witness_activation_ack_layout
unfolding witness_activation_ack flatten
witness_activation_ack-IsDescribed value =
    described (ascii "gp/witness-activation-ack/v3") (witness_ack-Writes value false) (refl, tt)

abbrev pub witness_rotation_cancel_ack_items : WitnessRotationCancelAck → List Item
witness_rotation_cancel_ack_items value =
    plain (
      word 2 value.protocol_version
      ∷ block (id_bytes value.config_id)
      ∷ block (id_bytes value.rotation_id)
      ∷ block (id_bytes value.plan_hash)
      ∷ block (id_bytes value.cancel_certificate_hash)
      ∷ word 2 value.witness_id
      ∷ block (id_bytes value.witness_public_key)
      ∷ [])
    ∷ []

abbrev pub witness_rotation_cancel_ack_layout : List Piece
witness_rotation_cancel_ack_layout = Piece.plain (w2 ∷ b ∷ b ∷ b ∷ b ∷ w2 ∷ b ∷ []) ∷ []

pub witness_rotation_cancel_ack-IsDescribed :
    (value : WitnessRotationCancelAck)
    → IsDescribed
        (witness_rotation_cancel_ack value)
        (ascii "gp/witness-rotation-cancel-ack/v3")
        (witness_rotation_cancel_ack_items value)
        witness_rotation_cancel_ack_layout
unfolding witness_rotation_cancel_ack flatten
witness_rotation_cancel_ack-IsDescribed value = refused-IsDescribed _ (
    described (ascii "gp/witness-rotation-cancel-ack/v3")
      (u16-Writes value.protocol_version
        ⊕ bytes-Writes (id_bytes value.config_id)
        ⊕ bytes-Writes (id_bytes value.rotation_id)
        ⊕ bytes-Writes (id_bytes value.plan_hash)
        ⊕ bytes-Writes (id_bytes value.cancel_certificate_hash)
        ⊕ u16-Writes value.witness_id
        ⊕ bytes-Writes (id_bytes value.witness_public_key))
      (refl, tt))

abbrev pub epoch_activation_qc_items : EpochActivationQc → List Item
epoch_activation_qc_items value =
    plain (
      word 2 value.protocol_version
      ∷ block (id_bytes value.config_id)
      ∷ block (id_bytes value.rotation_id)
      ∷ word 8 value.predecessor_epoch
      ∷ block (id_bytes value.predecessor_capsule_hash)
      ∷ word 8 value.successor_epoch
      ∷ block (id_bytes value.successor_capsule_hash)
      ∷ block (id_bytes value.activation_certificate_hash)
      ∷ word 2 value.witness_fault_bound
      ∷ [])
    ∷ rows (length value.witness_acks)
        (map (λ (ack : WitnessActivationAck). witness_ack_fields ack true) value.witness_acks)
    ∷ []

abbrev pub epoch_activation_qc_layout : List Piece
epoch_activation_qc_layout =
    Piece.plain (w2 ∷ b ∷ b ∷ w8 ∷ b ∷ w8 ∷ b ∷ b ∷ w2 ∷ [])
    ∷ Piece.rows (context_shapes ++ (b ∷ b ∷ w2 ∷ w8 ∷ b ∷ w8 ∷ b ∷ b ∷ b ∷ []))
    ∷ []

pub epoch_activation_qc-IsDescribed :
    (value : EpochActivationQc)
    → IsDescribed
        (epoch_activation_qc value)
        (ascii "gp/epoch-activation-qc/v3")
        (epoch_activation_qc_items value)
        epoch_activation_qc_layout
unfolding epoch_activation_qc flatten
epoch_activation_qc-IsDescribed value = refused-IsDescribed _ (
    after-IsDescribed _ (
      refused-IsDescribed _ (
        refused-IsDescribed _ (
          described (ascii "gp/epoch-activation-qc/v3")
            (u16-Writes value.protocol_version
              ⊕ bytes-Writes (id_bytes value.config_id)
              ⊕ bytes-Writes (id_bytes value.rotation_id)
              ⊕ u64-Writes value.predecessor_epoch
              ⊕ bytes-Writes (id_bytes value.predecessor_capsule_hash)
              ⊕ u64-Writes value.successor_epoch
              ⊕ bytes-Writes (id_bytes value.successor_capsule_hash)
              ⊕ bytes-Writes (id_bytes value.activation_certificate_hash)
              ⊕ u16-Writes value.witness_fault_bound
              ⊕ count-Writes (length value.witness_acks) max_config_witnesses
              ⊕ ends (
                  each-Writes (λ (ack : WitnessActivationAck). witness_ack_into ack true)
                    (λ (ack : WitnessActivationAck). witness_ack_fields ack true) value.witness_acks
                    (λ ack. witness_ack-Writes ack true)))
            (
              refl,
              (
                length-map (λ (ack : WitnessActivationAck). witness_ack_fields ack true)
                    value.witness_acks,
                map-AllShaped (context_shapes ++ (b ∷ b ∷ w2 ∷ w8 ∷ b ∷ w8 ∷ b ∷ b ∷ b ∷ []))
                    (λ (ack : WitnessActivationAck). witness_ack_fields ack true) value.witness_acks
                    (λ a. refl),
                tt,
              ),
            )))))

abbrev pub epoch_read_challenge_items : EpochReadChallenge → List Item
epoch_read_challenge_items value =
    plain (
      word 2 value.protocol_version
      ∷ block (id_bytes value.config_id)
      ∷ block (id_bytes value.client_nonce)
      ∷ block value.response_recipient_key
      ∷ word 8 value.issued_at
      ∷ word 8 value.expiry
      ∷ [])
    ∷ []

abbrev pub epoch_read_challenge_layout : List Piece
epoch_read_challenge_layout = Piece.plain (w2 ∷ b ∷ b ∷ b ∷ w8 ∷ w8 ∷ []) ∷ []

pub epoch_read_challenge-IsDescribed :
    (value : EpochReadChallenge)
    → IsDescribed
        (epoch_read_challenge value)
        (ascii "gp/epoch-read-challenge/v3")
        (epoch_read_challenge_items value)
        epoch_read_challenge_layout
unfolding epoch_read_challenge flatten
epoch_read_challenge-IsDescribed value = refused-IsDescribed _ (
    described (ascii "gp/epoch-read-challenge/v3")
      (u16-Writes value.protocol_version
        ⊕ bytes-Writes (id_bytes value.config_id)
        ⊕ bytes-Writes (id_bytes value.client_nonce)
        ⊕ bytes-Writes value.response_recipient_key
        ⊕ u64-Writes value.issued_at
        ⊕ u64-Writes value.expiry)
      (refl, tt))

abbrev pub witness_epoch_read_response_items : WitnessEpochReadResponse → List Item
witness_epoch_read_response_items value =
    plain (
      word 2 value.protocol_version
      ∷ block (id_bytes value.config_id)
      ∷ block (id_bytes value.client_nonce)
      ∷ word 2 value.witness_id
      ∷ word 8 value.highest_guardian_epoch
      ∷ block (id_bytes value.capsule_hash)
      ∷ block (id_bytes value.witness_public_key)
      ∷ [])
    ∷ []

abbrev pub witness_epoch_read_response_layout : List Piece
witness_epoch_read_response_layout = Piece.plain (w2 ∷ b ∷ b ∷ w2 ∷ w8 ∷ b ∷ b ∷ []) ∷ []

pub witness_epoch_read_response-IsDescribed :
    (value : WitnessEpochReadResponse)
    → IsDescribed
        (witness_epoch_read_response value)
        (ascii "gp/witness-epoch-read-response/v3")
        (witness_epoch_read_response_items value)
        witness_epoch_read_response_layout
unfolding witness_epoch_read_response flatten
witness_epoch_read_response-IsDescribed value = refused-IsDescribed _ (
    described (ascii "gp/witness-epoch-read-response/v3")
      (u16-Writes value.protocol_version
        ⊕ bytes-Writes (id_bytes value.config_id)
        ⊕ bytes-Writes (id_bytes value.client_nonce)
        ⊕ u16-Writes value.witness_id
        ⊕ u64-Writes value.highest_guardian_epoch
        ⊕ bytes-Writes (id_bytes value.capsule_hash)
        ⊕ bytes-Writes (id_bytes value.witness_public_key))
      (refl, tt))
