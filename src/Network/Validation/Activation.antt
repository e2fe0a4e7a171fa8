-- ===== src/Network/Validation/Activation.antt =====
-- crates/gp-network/src/rotation_protocol.rs: whether a capsule is the genesis of its configuration or the
-- activated successor of another.
use master_recovery.Prelude.{
  Bool, true, false, ◌||◌, not, Option, none, some, List, [], ◌∷◌, ltb, ◌==◌, ◌!=◌, if◌then◌else◌,
  saturating_add, Result, ok, err, ok_or, ◌>>=◌, ◌>>◌,
}
use master_recovery.Collections.Set
use master_recovery.Collections.Set.{Set}
use master_recovery.Collections.Map
use master_recovery.Collections.Map.{Map}
use master_recovery.Types.Basic.{Id32, protocol_version_v3}
use master_recovery.Types.Rotation.{same_config_ref}
use master_recovery.Types.Epoch.{WitnessActivationAck, EpochActivationQc}
use master_recovery.Types.Activation.{RotationActivateCertificate, SignerRotationActivateVote}
use master_recovery.Types.RecoveryV3.{ConfigCapsuleV3, RecoveryCardV3}
use master_recovery.Wire.Rotation.Activate
use master_recovery.Wire.Rotation.Contexts
use master_recovery.Network.Validation.{
  ProtocolError, invalid_vote, no_threshold, mismatched_activation, mismatched_capsule,
  invalid_genesis, no_activation, mismatched_qc, unpinned_witness, invalid_witness,
  no_witness_quorum, Crypto, bail_if, written, verify_signature, verify_membership,
  required_witness_quorum, witness_pins, validate_recovery_card_v3,
}

-- The tests of an activation certificate against the capsule that it activates.
unfoldable pub other_successor : ConfigCapsuleV3 → RotationActivateCertificate → Bool
other_successor capsule certificate =
    not (same_config_ref certificate.successor capsule.config_ref)
    || (certificate.successor_capsule_hash != capsule.capsule_hash
        || (certificate.context.config_ref.config_id != capsule.config_ref.config_id
            || (certificate.context.config_ref.payload_generation
                  != capsule.config_ref.payload_generation
                || (certificate.context.config_ref.authorization_epoch
                      != capsule.config_ref.authorization_epoch
                    || (saturating_add certificate.context.config_ref.guardian_epoch 1
                          != capsule.config_ref.guardian_epoch
                        || certificate.context.predecessor_capsule_hash
                          != capsule.predecessor_capsule_hash)))))

-- The tests of a quorum certificate against the card, the capsule and its activation certificate.
unfoldable pub other_qc :
    RecoveryCardV3 → ConfigCapsuleV3 → RotationActivateCertificate → Id32 → EpochActivationQc → Bool
other_qc card capsule certificate certificate_hash qc =
    qc.protocol_version != protocol_version_v3
    || (qc.config_id != card.config_id
        || (qc.rotation_id != certificate.context.rotation_id
            || (qc.predecessor_epoch != certificate.context.config_ref.guardian_epoch
                || (qc.predecessor_capsule_hash != capsule.predecessor_capsule_hash
                    || (qc.successor_epoch != capsule.config_ref.guardian_epoch
                        || (qc.successor_capsule_hash != capsule.capsule_hash
                            || (qc.activation_certificate_hash != certificate_hash
                                || qc.witness_fault_bound != card.witness_fault_bound)))))))

abbrev pub is_some {ℓ} : {A : Type ℓ} → Option A → Bool
is_some none = false
is_some (some a) = true

module _ (c : Crypto) where
  -- The body of the loop over the signers' votes, after the tests on identifiers.
  unfoldable pub check_activate_vote :
      ConfigCapsuleV3 → SignerRotationActivateVote → Result ProtocolError (Unit {0})
  check_activate_vote capsule vote = do
    verify_membership c vote.signer_id vote.signer_public_key vote.signer_membership_proof capsule
    transcript ← written (Activate.signer_rotation_activate_vote vote)
    verify_signature c vote.signer_public_key transcript vote.signer_signature

  unfoldable pub check_activate_votes :
      ConfigCapsuleV3 → Set → List SignerRotationActivateVote → Result ProtocolError Set
  check_activate_votes capsule signer_ids [] = ok signer_ids
  check_activate_votes capsule signer_ids (vote ∷ votes) =
      let rest = check_activate_votes capsule (Set.insert signer_ids vote.signer_id) votes in
      if Set.contains signer_ids vote.signer_id
        || (vote.signer_id == 0 || ltb capsule.signer_count vote.signer_id)
      then err invalid_vote
      else check_activate_vote capsule vote >> rest

  unfoldable pub validate_activate_certificate :
      ConfigCapsuleV3 → RotationActivateCertificate → Result ProtocolError Id32
  validate_activate_certificate capsule certificate = do
    bail_if (other_successor capsule certificate) mismatched_activation
    transcript ← written (Activate.rotation_activate_certificate certificate)
    signer_ids ← check_activate_votes capsule Set.empty certificate.votes
    bail_if (ltb (Set.size signer_ids) capsule.signer_threshold) no_threshold
    ok (c.sha256 transcript)

  -- The body of the loop over the answers of the witnesses.
  unfoldable pub check_witness :
      RecoveryCardV3 → Id32 → Set → WitnessActivationAck → Result ProtocolError (Unit {0})
  check_witness card certificate_hash witness_ids ack = do
    pin ← ok_or (Map.get (witness_pins card) ack.witness_id) unpinned_witness
    bail_if
        (Set.contains witness_ids ack.witness_id
          || (ack.witness_public_key != pin.public_key
              || ack.activation_certificate_hash != certificate_hash))
        invalid_witness
    transcript ← written (Activate.witness_activation_ack ack)
    verify_signature c pin.public_key transcript ack.witness_signature

  unfoldable pub check_witnesses :
      RecoveryCardV3 → Id32 → Set → List WitnessActivationAck → Result ProtocolError Set
  check_witnesses card certificate_hash witness_ids [] = ok witness_ids
  check_witnesses card certificate_hash witness_ids (ack ∷ acks) =
      check_witness card certificate_hash witness_ids ack
      >> check_witnesses card certificate_hash (Set.insert witness_ids ack.witness_id) acks

  -- A capsule of epoch 1 has no predecessor and no proof of activation.
  unfoldable pub validate_genesis : ConfigCapsuleV3 → Result ProtocolError (Unit {0})
  validate_genesis capsule =
      bail_if
        (capsule.predecessor_capsule_hash != 0
          || (is_some capsule.activation_certificate || is_some capsule.activation_qc))
        invalid_genesis

  unfoldable pub validate_successor :
      RecoveryCardV3 → ConfigCapsuleV3 → Result ProtocolError (Unit {0})
  validate_successor card capsule = do
    certificate ← ok_or capsule.activation_certificate no_activation
    certificate_hash ← validate_activate_certificate capsule certificate
    qc ← ok_or capsule.activation_qc no_activation
    written (Activate.epoch_activation_qc qc)
    bail_if (other_qc card capsule certificate certificate_hash qc) mismatched_qc
    witness_ids ← check_witnesses card certificate_hash Set.empty qc.witness_acks
    quorum ← required_witness_quorum card.witness_fault_bound
    bail_if (ltb (Set.size witness_ids) quorum) no_witness_quorum

  unfoldable pub validate_activated_capsule_v3 :
      RecoveryCardV3 → ConfigCapsuleV3 → Result ProtocolError (Unit {0})
  validate_activated_capsule_v3 card capsule = do
    validate_recovery_card_v3 card
    body ← written (Contexts.config_capsule_body_v3 capsule)
    bail_if
        (capsule.protocol_version != protocol_version_v3
          || (capsule.config_ref.config_id != card.config_id
              || (capsule.signer_set_commitment != card.signer_set_commitment
                  || (capsule.owner_cancel_public_key != card.owner_cancel_public_key
                      || capsule.capsule_hash != c.sha256 body))))
        mismatched_capsule
    if capsule.config_ref.guardian_epoch == 1
        then validate_genesis capsule
        else validate_successor card capsule
