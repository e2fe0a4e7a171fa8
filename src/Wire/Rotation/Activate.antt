-- ===== src/Wire/Rotation/Activate.antt =====
-- crates/gp-wire/src/rotation.rs: the activation, and the witnesses' answers.
use master_recovery.Prelude.{
  ◌+◌, ◌*◌, Bool, true, false, ◌||◌, not, map, length, ltb, leb, ◌==◌, ◌!=◌, saturating_add, Result,
}
use master_recovery.Types.Basic.{Bytes, protocol_version_v3}
use master_recovery.Types.Epoch.{WitnessActivationAck, EpochActivationQc}
use master_recovery.Types.Activation.{
  SignerRotationActivateVote, RotationActivateCertificate, WitnessRotationCancelAck,
  EpochReadChallenge, WitnessEpochReadResponse,
}
use master_recovery.Wire.Bytes.{ascii}
use master_recovery.Wire.Frame.{WireError}
use master_recovery.Wire.Transcript.{Writer, ◌>>◌, bytes, domain, u16, u64, id_bytes, transcript}
use master_recovery.Wire.Rotation.{
  max_rotation_actors, max_config_witnesses, refuse_if, after, each, any, optional_bytes,
  config_ref_into, context_into, same_rotation, bounded_count, unique_ids,
}

-- The test of a vote by the certificate that holds it.
unfoldable pub other_activation : RotationActivateCertificate → SignerRotationActivateVote → Bool
other_activation value vote =
    not (same_rotation value.context vote.context)
    || (vote.plan_hash != value.plan_hash
        || (vote.ready_certificate_hash != value.ready_certificate_hash
            || vote.successor_capsule_hash != value.successor_capsule_hash))

-- The test of a witness's answer by the quorum certificate that holds it.
unfoldable pub other_witness : EpochActivationQc → WitnessActivationAck → Bool
other_witness value ack =
    ack.context.protocol_version != value.protocol_version
    || (ack.context.config_ref.config_id != value.config_id
        || (ack.context.rotation_id != value.rotation_id
            || (ack.predecessor_epoch != value.predecessor_epoch
                || (ack.predecessor_capsule_hash != value.predecessor_capsule_hash
                    || (ack.successor_epoch != value.successor_epoch
                        || (ack.successor_capsule_hash != value.successor_capsule_hash
                            || ack.activation_certificate_hash
                              != value.activation_certificate_hash))))))

unfoldable pub activate_vote_into : SignerRotationActivateVote → Bool → Writer
activate_vote_into vote include_signature =
    context_into vote.context
    >> bytes (id_bytes vote.plan_hash)
    >> bytes (id_bytes vote.ready_certificate_hash)
    >> bytes (id_bytes vote.successor_capsule_hash)
    >> u16 vote.signer_id
    >> bytes (id_bytes vote.signer_public_key)
    >> bytes vote.signer_membership_proof
    >> optional_bytes include_signature vote.signer_signature

unfoldable pub witness_ack_into : WitnessActivationAck → Bool → Writer
witness_ack_into ack include_signature =
    context_into ack.context
    >> bytes (id_bytes ack.plan_hash)
    >> bytes (id_bytes ack.activation_certificate_hash)
    >> u16 ack.witness_id
    >> u64 ack.predecessor_epoch
    >> bytes (id_bytes ack.predecessor_capsule_hash)
    >> u64 ack.successor_epoch
    >> bytes (id_bytes ack.successor_capsule_hash)
    >> bytes (id_bytes ack.witness_public_key)
    >> optional_bytes include_signature ack.witness_signature

unfoldable pub signer_rotation_activate_vote : SignerRotationActivateVote → Result WireError Bytes
signer_rotation_activate_vote value =
    transcript
      (domain (ascii "gp/signer-rotation-activate-vote/v3") >> activate_vote_into value false)

unfoldable pub rotation_activate_certificate : RotationActivateCertificate → Result WireError Bytes
rotation_activate_certificate value =
    after (unique_ids (map (λ vote. vote.signer_id) value.votes)) (
      refuse_if (any (other_activation value) value.votes) (
        transcript (
          domain (ascii "gp/rotation-activate-certificate/v3")
          >> context_into value.context
          >> bytes (id_bytes value.plan_hash)
          >> bytes (id_bytes value.ready_certificate_hash)
          >> config_ref_into value.successor
          >> bytes (id_bytes value.successor_capsule_hash)
          >> bounded_count (length value.votes) max_rotation_actors
          >> each (λ (vote : SignerRotationActivateVote). activate_vote_into vote true)
              value.votes)))

unfoldable pub witness_activation_ack : WitnessActivationAck → Result WireError Bytes
witness_activation_ack value =
    transcript (domain (ascii "gp/witness-activation-ack/v3") >> witness_ack_into value false)

unfoldable pub witness_rotation_cancel_ack : WitnessRotationCancelAck → Result WireError Bytes
witness_rotation_cancel_ack value =
    refuse_if (value.protocol_version != protocol_version_v3 || value.witness_id == 0) (
      transcript (
        domain (ascii "gp/witness-rotation-cancel-ack/v3")
        >> u16 value.protocol_version
        >> bytes (id_bytes value.config_id)
        >> bytes (id_bytes value.rotation_id)
        >> bytes (id_bytes value.plan_hash)
        >> bytes (id_bytes value.cancel_certificate_hash)
        >> u16 value.witness_id
        >> bytes (id_bytes value.witness_public_key)))

unfoldable pub epoch_activation_qc : EpochActivationQc → Result WireError Bytes
epoch_activation_qc value =
    refuse_if
      (value.protocol_version != protocol_version_v3
        || (value.successor_epoch != saturating_add value.predecessor_epoch 1
            || ltb max_config_witnesses value.witness_fault_bound))
      (after (unique_ids (map (λ ack. ack.witness_id) value.witness_acks)) (
        refuse_if (ltb (length value.witness_acks) (value.witness_fault_bound * 2 + 1)) (
          refuse_if (any (other_witness value) value.witness_acks) (
            transcript (
              domain (ascii "gp/epoch-activation-qc/v3")
              >> u16 value.protocol_version
              >> bytes (id_bytes value.config_id)
              >> bytes (id_bytes value.rotation_id)
              >> u64 value.predecessor_epoch
              >> bytes (id_bytes value.predecessor_capsule_hash)
              >> u64 value.successor_epoch
              >> bytes (id_bytes value.successor_capsule_hash)
              >> bytes (id_bytes value.activation_certificate_hash)
              >> u16 value.witness_fault_bound
              >> bounded_count (length value.witness_acks) max_config_witnesses
              >> each (λ (ack : WitnessActivationAck). witness_ack_into ack true)
                  value.witness_acks)))))

unfoldable pub epoch_read_challenge : EpochReadChallenge → Result WireError Bytes
epoch_read_challenge value =
    refuse_if (value.protocol_version != protocol_version_v3 || leb value.expiry value.issued_at) (
      transcript (
        domain (ascii "gp/epoch-read-challenge/v3")
        >> u16 value.protocol_version
        >> bytes (id_bytes value.config_id)
        >> bytes (id_bytes value.client_nonce)
        >> bytes value.response_recipient_key
        >> u64 value.issued_at
        >> u64 value.expiry))

unfoldable pub witness_epoch_read_response : WitnessEpochReadResponse → Result WireError Bytes
witness_epoch_read_response value = refuse_if (value.protocol_version != protocol_version_v3) (
    transcript (
      domain (ascii "gp/witness-epoch-read-response/v3")
      >> u16 value.protocol_version
      >> bytes (id_bytes value.config_id)
      >> bytes (id_bytes value.client_nonce)
      >> u16 value.witness_id
      >> u64 value.highest_guardian_epoch
      >> bytes (id_bytes value.capsule_hash)
      >> bytes (id_bytes value.witness_public_key)))
