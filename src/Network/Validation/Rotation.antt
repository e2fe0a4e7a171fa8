-- ===== src/Network/Validation/Rotation.antt =====
-- crates/gp-network/src/rotation_protocol.rs: the certificates that begin, release, abort and cancel a
-- rotation.
use master_recovery.Prelude.{
  ℕ, Bool, true, false, ◌||◌, not, List, [], ◌∷◌, map, length, ltb, leb, ◌!=◌, saturating_add,
  Result, ok, ok_or, ◌>>=◌, ◌>>◌,
}
use master_recovery.Collections.Set
use master_recovery.Collections.Set.{Set}
use master_recovery.Collections.Map
use master_recovery.Collections.Map.{Map}
use master_recovery.Types.Basic.{Id32, protocol_version_v3}
use master_recovery.Types.Rotation.{RotationState}
use master_recovery.Types.Ceremony.{
  RotationPlan, BeginRotationCertificate, SignerRotationBeginVote, RotationReleaseCertificate,
  SignerRotationReleaseVote, OwnerRotationCancelCertificate,
}
use master_recovery.Types.Activation.{
  AbortRotationCertificate, SignerRotationAbortVote, WitnessRotationCancelAck,
}
use master_recovery.Types.RecoveryV3.{ConfigCapsuleV3, RecoveryCardV3, WitnessPin}
use master_recovery.Wire.Rotation.{state_id}
use master_recovery.Wire.Rotation.Plan as Transcripts
use master_recovery.Wire.Rotation.Votes
use master_recovery.Wire.Rotation.Retire
use master_recovery.Wire.Rotation.Activate
use master_recovery.Network.Validation.{
  ProtocolError, mismatched_begin, mismatched_release, mismatched_abort, mismatched_cancellation,
  unpinned_witness, invalid_witness, no_witness_quorum, Crypto, SignedVote, bail_if, written,
  same_context, verify_signature, check_threshold, required_witness_quorum, witness_pins,
  validate_recovery_card_v3,
}
use master_recovery.Network.Validation.Plan.{validate_rotation_plan_v3}
use master_recovery.Network.Validation.Recovery.{xwing_public_key_len}

abbrev pub signed_begin : SignerRotationBeginVote → SignedVote
signed_begin vote = record {
  mismatched = false;
  signer_id = vote.signer_id;
  signer_public_key = vote.signer_public_key;
  signer_membership_proof = vote.signer_membership_proof;
  transcript = Votes.signer_rotation_begin_vote vote;
  signer_signature = vote.signer_signature;
}

abbrev pub signed_rotation_release : SignerRotationReleaseVote → SignedVote
signed_rotation_release vote = record {
  mismatched = false;
  signer_id = vote.signer_id;
  signer_public_key = vote.signer_public_key;
  signer_membership_proof = vote.signer_membership_proof;
  transcript = Votes.signer_rotation_release_vote vote;
  signer_signature = vote.signer_signature;
}

abbrev pub signed_abort : AbortRotationCertificate → SignerRotationAbortVote → SignedVote
signed_abort certificate vote = record {
  mismatched =
      not (same_context vote.context certificate.context)
      || (vote.plan_hash != certificate.plan_hash
          || (state_id vote.state_at_abort != state_id certificate.state_at_abort
              || vote.reason_code != certificate.reason_code));
  signer_id = vote.signer_id;
  signer_public_key = vote.signer_public_key;
  signer_membership_proof = vote.signer_membership_proof;
  transcript = Retire.signer_rotation_abort_vote vote;
  signer_signature = vote.signer_signature;
}

-- The states from which a rotation may abort.
abbrev pub aborts_from : RotationState → Bool
aborts_from RotationState.proposed = true
aborts_from RotationState.delay_pending = true
aborts_from RotationState.preparing = true
aborts_from RotationState.ready = true
aborts_from RotationState.activating = true
aborts_from RotationState.active = false
aborts_from RotationState.draining = false
aborts_from RotationState.retired = false
aborts_from RotationState.aborted = false

-- The test of a witness's veto against the card, the plan and the cancellation.
unfoldable pub other_veto :
    RecoveryCardV3 → RotationPlan → Id32 → Id32 → WitnessPin → WitnessRotationCancelAck → Bool
other_veto card plan plan_hash cancel_hash pin ack =
    ack.protocol_version != protocol_version_v3
    || (ack.config_id != card.config_id
        || (ack.rotation_id != plan.context.rotation_id
            || (ack.plan_hash != plan_hash
                || (ack.cancel_certificate_hash != cancel_hash
                    || ack.witness_public_key != pin.public_key))))

module _ (c : Crypto) where
  unfoldable pub validate_begin_rotation_certificate_v3 :
      BeginRotationCertificate → RotationPlan → ConfigCapsuleV3 → ℕ → Result ProtocolError Id32
  validate_begin_rotation_certificate_v3 certificate plan predecessor now = do
    plan_hash ← validate_rotation_plan_v3 c plan predecessor now
    transcript ← written (Votes.begin_rotation_certificate certificate)
    bail_if
        (not (same_context certificate.context plan.context)
          || (certificate.intent_hash != plan.intent_hash
              || (certificate.plan_hash != plan_hash
                  || (certificate.old_roster_commitment != plan.old_roster_commitment
                      || (certificate.new_roster_commitment != plan.new_roster_commitment
                          || (leb plan.preparation_deadline now
                              || ltb certificate.not_before_wall (
                                  saturating_add certificate.context.issued_at
                                    plan.minimum_delay_secs)))))))
        mismatched_begin
    check_threshold c predecessor (map signed_begin certificate.votes)
    ok (c.sha256 transcript)

  unfoldable pub validate_rotation_release_certificate_v3 :
      RotationReleaseCertificate
      → BeginRotationCertificate
      → RotationPlan
      → ConfigCapsuleV3
      → ℕ
      → Result ProtocolError Id32
  validate_rotation_release_certificate_v3 release begin plan predecessor now = do
    begin_hash ← validate_begin_rotation_certificate_v3 begin plan predecessor now
    transcript ← written (Votes.rotation_release_certificate release)
    plan_transcript ← written (Transcripts.rotation_plan plan)
    bail_if
        (not (same_context release.context plan.context)
          || (release.plan_hash != c.sha256 plan_transcript
              || (release.begin_certificate_hash != begin_hash
                  || (ltb now begin.not_before_wall || leb plan.preparation_deadline now))))
        mismatched_release
    check_threshold c predecessor (map signed_rotation_release release.votes)
    ok (c.sha256 transcript)

  unfoldable pub validate_abort_rotation_certificate_v3 :
      AbortRotationCertificate → RotationPlan → ConfigCapsuleV3 → ℕ → Result ProtocolError Id32
  validate_abort_rotation_certificate_v3 certificate plan predecessor now = do
    plan_hash ← validate_rotation_plan_v3 c plan predecessor now
    transcript ← written (Retire.abort_rotation_certificate certificate)
    bail_if
        (not (same_context certificate.context plan.context)
          || (certificate.plan_hash != plan_hash || not (aborts_from certificate.state_at_abort)))
        mismatched_abort
    check_threshold c predecessor (map (signed_abort certificate) certificate.votes)
    ok (c.sha256 transcript)

  -- The body of the loop over the vetoes of the witnesses.
  unfoldable pub check_veto :
      RecoveryCardV3
      → RotationPlan
      → Id32
      → Id32
      → Set
      → WitnessRotationCancelAck
      → Result ProtocolError (Unit {0})
  check_veto card plan plan_hash cancel_hash witness_ids ack = do
    pin ← ok_or (Map.get (witness_pins card) ack.witness_id) unpinned_witness
    bail_if
        (other_veto card plan plan_hash cancel_hash pin ack
          || Set.contains witness_ids ack.witness_id)
        invalid_witness
    transcript ← written (Activate.witness_rotation_cancel_ack ack)
    verify_signature c pin.public_key transcript ack.witness_signature

  unfoldable pub check_vetoes :
      RecoveryCardV3
      → RotationPlan
      → Id32
      → Id32
      → Set
      → List WitnessRotationCancelAck
      → Result ProtocolError Set
  check_vetoes card plan plan_hash cancel_hash witness_ids [] = ok witness_ids
  check_vetoes card plan plan_hash cancel_hash witness_ids (ack ∷ acks) =
      check_veto card plan plan_hash cancel_hash witness_ids ack
      >> check_vetoes card plan plan_hash cancel_hash (Set.insert witness_ids ack.witness_id) acks

  unfoldable pub validate_owner_rotation_cancel_witness_quorum_v3 :
      OwnerRotationCancelCertificate
      → List WitnessRotationCancelAck
      → RecoveryCardV3
      → RotationPlan
      → ConfigCapsuleV3
      → ℕ
      → Result ProtocolError Id32
  validate_owner_rotation_cancel_witness_quorum_v3 certificate witness_acks card plan predecessor
        now =
      do
        validate_recovery_card_v3 card
        plan_hash ← validate_rotation_plan_v3 c plan predecessor now
        bail_if
            (card.config_id != predecessor.config_ref.config_id
              || (card.owner_cancel_public_key != predecessor.owner_cancel_public_key
                  || (not (same_context certificate.context plan.context)
                      || (certificate.plan_hash != plan_hash
                          || (certificate.owner_cancel_public_key
                                != predecessor.owner_cancel_public_key
                              || length certificate.cancel_response_recipient_key
                                != xwing_public_key_len)))))
            mismatched_cancellation
        transcript ← written (Votes.owner_rotation_cancel_certificate certificate)
        verify_signature c certificate.owner_cancel_public_key transcript
            certificate.owner_signature
        let cancel_hash = c.sha256 transcript
        witness_ids ← check_vetoes card plan plan_hash cancel_hash Set.empty witness_acks
        quorum ← required_witness_quorum card.witness_fault_bound
        bail_if (ltb (Set.size witness_ids) quorum) no_witness_quorum
        ok cancel_hash
