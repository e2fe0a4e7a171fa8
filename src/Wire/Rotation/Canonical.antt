-- ===== src/Wire/Rotation/Canonical.antt =====
-- The fifty transcripts of protocol v3 as one type of messages.
pub mod Body
pub mod Separation
use master_recovery.Prelude.{ℕ, Bool, List, [], ◌∷◌, Result}
use master_recovery.Types.Basic.{Bytes, Id32}
use master_recovery.Types.Rotation.{ConfigRef, RecoveryRequestV3}
use master_recovery.Types.Epoch.{
  RotationContext, RotationIntent, WitnessActivationAck, EpochActivationQc, GuardianPolicyV3,
}
use master_recovery.Types.Ceremony.{
  PreparedRecordLeaf, GuardianRouteV3, SignerRotationIntentContribution, RotationPlan,
  SignerRotationBeginVote, BeginRotationCertificate, OwnerRotationCancelCertificate,
  OwnerRotationCancelAck, SignerRotationReleaseVote, RotationReleaseCertificate,
  OldShareUnlockGrant, NewShareWrapGrant, DpssProtocolMessage, CiphertextFragmentContribution,
}
use master_recovery.Types.Activation.{
  NewGuardianPreparedAck, OldGuardianHandoffAck, RotationReadyCertificate,
  SignerRotationActivateVote, RotationActivateCertificate, WitnessRotationCancelAck,
  EpochReadChallenge, WitnessEpochReadResponse, RetirementNotice, RetirementAck,
  SignerRotationAbortVote, AbortRotationCertificate,
}
use master_recovery.Types.RecoveryV3.{
  SignerRecoveryContributionV3, BeginRecoveryCertificateV3, SignerRecoveryReleaseVoteV3,
  RecoveryReleaseCertificateV3, OwnerRecoveryCancelCertificateV3, OwnerRecoveryCancelAckV3,
  GuardianRecoveryContributionV3, RecoveryDescriptorV3, ConfigCapsuleV3, WitnessPin, RecoveryCardV3,
  CustodyChallenge, CustodyBlockProof, CustodyResponse, GuardianHealthRecord,
}
use master_recovery.Wire.Bytes.{ascii}
use master_recovery.Wire.Frame.{WireError}
use master_recovery.Wire.Rotation.Plan
use master_recovery.Wire.Rotation.Votes
use master_recovery.Wire.Rotation.Grants
use master_recovery.Wire.Rotation.Prepare
use master_recovery.Wire.Rotation.Activate
use master_recovery.Wire.Rotation.Retire
use master_recovery.Wire.Rotation.Recover
use master_recovery.Wire.Rotation.Contexts

pub data Kind : Type 0 where
  guardian_roster_v3 : Kind
  rotation_intent : Kind
  signer_rotation_intent_contribution : Kind
  rotation_intent_share_context_v3 : Kind
  rotation_plan : Kind
  signer_rotation_begin_vote : Kind
  begin_rotation_certificate : Kind
  owner_rotation_cancel_certificate : Kind
  owner_rotation_cancel_ack : Kind
  signer_rotation_release_vote : Kind
  rotation_release_certificate : Kind
  old_share_unlock_grant : Kind
  old_share_unlock_grant_payload_context : Kind
  new_share_wrap_grant : Kind
  new_share_wrap_grant_payload_context : Kind
  dpss_protocol_message : Kind
  ciphertext_fragment_contribution : Kind
  prepared_record_leaf_v3 : Kind
  new_guardian_prepared_ack : Kind
  old_guardian_handoff_ack : Kind
  rotation_ready_certificate : Kind
  signer_rotation_activate_vote : Kind
  rotation_activate_certificate : Kind
  witness_activation_ack : Kind
  witness_rotation_cancel_ack : Kind
  epoch_activation_qc : Kind
  epoch_read_challenge : Kind
  witness_epoch_read_response : Kind
  retirement_notice : Kind
  retirement_ack : Kind
  abort_rotation_certificate : Kind
  signer_rotation_abort_vote : Kind
  recovery_request_v3 : Kind
  recovery_request_digest_v3 : Kind
  recovery_authorization_share_context_v3 : Kind
  signer_recovery_contribution_v3 : Kind
  begin_recovery_certificate_v3 : Kind
  signer_recovery_release_vote_v3 : Kind
  recovery_release_certificate_v3 : Kind
  owner_recovery_cancel_certificate_v3 : Kind
  owner_recovery_cancel_ack_v3 : Kind
  guardian_recovery_contribution_v3 : Kind
  guardian_share_context_v3 : Kind
  guardian_fragment_context_v3 : Kind
  descriptor_context_v3 : Kind
  config_capsule_body_v3 : Kind
  guardian_policy_body_v3 : Kind
  payload_context_v3 : Kind
  custody_challenge : Kind
  custody_response : Kind

-- The domain string that a kind of message begins with.
unfoldable pub domain_of : Kind → Bytes
domain_of Kind.guardian_roster_v3 = ascii "gp/private-guardian-roster/v3"
domain_of Kind.rotation_intent = ascii "gp/rotation-intent/v3"
domain_of Kind.signer_rotation_intent_contribution =
    ascii "gp/signer-rotation-intent-contribution/v3"
domain_of Kind.rotation_intent_share_context_v3 = ascii "gp/rotation-intent-a-share-context/v3"
domain_of Kind.rotation_plan = ascii "gp/rotation-plan/v3"
domain_of Kind.signer_rotation_begin_vote = ascii "gp/signer-rotation-begin-vote/v3"
domain_of Kind.begin_rotation_certificate = ascii "gp/begin-rotation-certificate/v3"
domain_of Kind.owner_rotation_cancel_certificate = ascii "gp/owner-rotation-cancel/v3"
domain_of Kind.owner_rotation_cancel_ack = ascii "gp/owner-rotation-cancel-ack/v3"
domain_of Kind.signer_rotation_release_vote = ascii "gp/signer-rotation-release-vote/v3"
domain_of Kind.rotation_release_certificate = ascii "gp/rotation-release-certificate/v3"
domain_of Kind.old_share_unlock_grant = ascii "gp/old-share-unlock-grant/v3"
domain_of Kind.old_share_unlock_grant_payload_context = ascii "gp/old-share-unlock-grant-payload/v3"
domain_of Kind.new_share_wrap_grant = ascii "gp/new-share-wrap-grant/v3"
domain_of Kind.new_share_wrap_grant_payload_context = ascii "gp/new-share-wrap-grant-payload/v3"
domain_of Kind.dpss_protocol_message = ascii "gp/dpss-protocol-message/v3"
domain_of Kind.ciphertext_fragment_contribution = ascii "gp/ciphertext-fragment-contribution/v3"
domain_of Kind.prepared_record_leaf_v3 = ascii "gp/prepared-record-leaf/v3"
domain_of Kind.new_guardian_prepared_ack = ascii "gp/new-guardian-prepared-ack/v3"
domain_of Kind.old_guardian_handoff_ack = ascii "gp/old-guardian-handoff-ack/v3"
domain_of Kind.rotation_ready_certificate = ascii "gp/rotation-ready-certificate/v3"
domain_of Kind.signer_rotation_activate_vote = ascii "gp/signer-rotation-activate-vote/v3"
domain_of Kind.rotation_activate_certificate = ascii "gp/rotation-activate-certificate/v3"
domain_of Kind.witness_activation_ack = ascii "gp/witness-activation-ack/v3"
domain_of Kind.witness_rotation_cancel_ack = ascii "gp/witness-rotation-cancel-ack/v3"
domain_of Kind.epoch_activation_qc = ascii "gp/epoch-activation-qc/v3"
domain_of Kind.epoch_read_challenge = ascii "gp/epoch-read-challenge/v3"
domain_of Kind.witness_epoch_read_response = ascii "gp/witness-epoch-read-response/v3"
domain_of Kind.retirement_notice = ascii "gp/retirement-notice/v3"
domain_of Kind.retirement_ack = ascii "gp/retirement-ack/v3"
domain_of Kind.abort_rotation_certificate = ascii "gp/abort-rotation-certificate/v3"
domain_of Kind.signer_rotation_abort_vote = ascii "gp/signer-rotation-abort-vote/v3"
domain_of Kind.recovery_request_v3 = ascii "gp/recovery-request/v3"
domain_of Kind.recovery_request_digest_v3 = ascii "gp/recovery-request-digest/v3"
domain_of Kind.recovery_authorization_share_context_v3 = ascii "gp/recovery-a-share-context/v3"
domain_of Kind.signer_recovery_contribution_v3 = ascii "gp/signer-recovery-contribution/v3"
domain_of Kind.begin_recovery_certificate_v3 = ascii "gp/begin-recovery-certificate/v3"
domain_of Kind.signer_recovery_release_vote_v3 = ascii "gp/signer-recovery-release-vote/v3"
domain_of Kind.recovery_release_certificate_v3 = ascii "gp/recovery-release-certificate/v3"
domain_of Kind.owner_recovery_cancel_certificate_v3 = ascii "gp/owner-recovery-cancel/v3"
domain_of Kind.owner_recovery_cancel_ack_v3 = ascii "gp/owner-recovery-cancel-ack/v3"
domain_of Kind.guardian_recovery_contribution_v3 = ascii "gp/guardian-recovery-contribution/v3"
domain_of Kind.guardian_share_context_v3 = ascii "gp/guardian-dek-share-context/v3"
domain_of Kind.guardian_fragment_context_v3 = ascii "gp/guardian-ciphertext-fragment-context/v3"
domain_of Kind.descriptor_context_v3 = ascii "gp/recovery-descriptor-context/v3"
domain_of Kind.config_capsule_body_v3 = ascii "gp/config-capsule-body/v3"
domain_of Kind.guardian_policy_body_v3 = ascii "gp/guardian-policy-body/v3"
domain_of Kind.payload_context_v3 = ascii "gp/payload-context/v3"
domain_of Kind.custody_challenge = ascii "gp/custody-challenge/v3"
domain_of Kind.custody_response = ascii "gp/custody-response/v3"

pub data Message : Type 0 where
  guardian_roster_v3 : (List GuardianRouteV3) → Message
  rotation_intent : RotationIntent → Message
  signer_rotation_intent_contribution : SignerRotationIntentContribution → Message
  rotation_intent_share_context_v3 : RotationContext → Id32 → ℕ → Message
  rotation_plan : RotationPlan → Message
  signer_rotation_begin_vote : SignerRotationBeginVote → Message
  begin_rotation_certificate : BeginRotationCertificate → Message
  owner_rotation_cancel_certificate : OwnerRotationCancelCertificate → Message
  owner_rotation_cancel_ack : OwnerRotationCancelAck → Message
  signer_rotation_release_vote : SignerRotationReleaseVote → Message
  rotation_release_certificate : RotationReleaseCertificate → Message
  old_share_unlock_grant : OldShareUnlockGrant → Message
  old_share_unlock_grant_payload_context : OldShareUnlockGrant → Bool → Message
  new_share_wrap_grant : NewShareWrapGrant → Message
  new_share_wrap_grant_payload_context : NewShareWrapGrant → Bool → Message
  dpss_protocol_message : DpssProtocolMessage → Message
  ciphertext_fragment_contribution : CiphertextFragmentContribution → Message
  prepared_record_leaf_v3 : PreparedRecordLeaf → Message
  new_guardian_prepared_ack : NewGuardianPreparedAck → Message
  old_guardian_handoff_ack : OldGuardianHandoffAck → Message
  rotation_ready_certificate : RotationReadyCertificate → Message
  signer_rotation_activate_vote : SignerRotationActivateVote → Message
  rotation_activate_certificate : RotationActivateCertificate → Message
  witness_activation_ack : WitnessActivationAck → Message
  witness_rotation_cancel_ack : WitnessRotationCancelAck → Message
  epoch_activation_qc : EpochActivationQc → Message
  epoch_read_challenge : EpochReadChallenge → Message
  witness_epoch_read_response : WitnessEpochReadResponse → Message
  retirement_notice : RetirementNotice → Message
  retirement_ack : RetirementAck → Message
  abort_rotation_certificate : AbortRotationCertificate → Message
  signer_rotation_abort_vote : SignerRotationAbortVote → Message
  recovery_request_v3 : RecoveryRequestV3 → Message
  recovery_request_digest_v3 : RecoveryRequestV3 → Message
  recovery_authorization_share_context_v3 : RecoveryRequestV3 → ℕ → Message
  signer_recovery_contribution_v3 : SignerRecoveryContributionV3 → Message
  begin_recovery_certificate_v3 : BeginRecoveryCertificateV3 → Message
  signer_recovery_release_vote_v3 : SignerRecoveryReleaseVoteV3 → Message
  recovery_release_certificate_v3 : RecoveryReleaseCertificateV3 → Message
  owner_recovery_cancel_certificate_v3 : OwnerRecoveryCancelCertificateV3 → Message
  owner_recovery_cancel_ack_v3 : OwnerRecoveryCancelAckV3 → Message
  guardian_recovery_contribution_v3 : GuardianRecoveryContributionV3 → Message
  guardian_share_context_v3 : ConfigRef → ℕ → Message
  guardian_fragment_context_v3 : ConfigRef → ℕ → ℕ → Message
  descriptor_context_v3 : ConfigRef → Message
  config_capsule_body_v3 : ConfigCapsuleV3 → Message
  guardian_policy_body_v3 : GuardianPolicyV3 → Message
  payload_context_v3 : Id32 → ℕ → Message
  custody_challenge : CustodyChallenge → Message
  custody_response : CustodyResponse → Message

unfoldable pub kind : Message → Kind
kind (Message.guardian_roster_v3 _) = Kind.guardian_roster_v3
kind (Message.rotation_intent _) = Kind.rotation_intent
kind (Message.signer_rotation_intent_contribution _) = Kind.signer_rotation_intent_contribution
kind (Message.rotation_intent_share_context_v3 _ _ _) = Kind.rotation_intent_share_context_v3
kind (Message.rotation_plan _) = Kind.rotation_plan
kind (Message.signer_rotation_begin_vote _) = Kind.signer_rotation_begin_vote
kind (Message.begin_rotation_certificate _) = Kind.begin_rotation_certificate
kind (Message.owner_rotation_cancel_certificate _) = Kind.owner_rotation_cancel_certificate
kind (Message.owner_rotation_cancel_ack _) = Kind.owner_rotation_cancel_ack
kind (Message.signer_rotation_release_vote _) = Kind.signer_rotation_release_vote
kind (Message.rotation_release_certificate _) = Kind.rotation_release_certificate
kind (Message.old_share_unlock_grant _) = Kind.old_share_unlock_grant
kind (Message.old_share_unlock_grant_payload_context _ _) =
    Kind.old_share_unlock_grant_payload_context
kind (Message.new_share_wrap_grant _) = Kind.new_share_wrap_grant
kind (Message.new_share_wrap_grant_payload_context _ _) = Kind.new_share_wrap_grant_payload_context
kind (Message.dpss_protocol_message _) = Kind.dpss_protocol_message
kind (Message.ciphertext_fragment_contribution _) = Kind.ciphertext_fragment_contribution
kind (Message.prepared_record_leaf_v3 _) = Kind.prepared_record_leaf_v3
kind (Message.new_guardian_prepared_ack _) = Kind.new_guardian_prepared_ack
kind (Message.old_guardian_handoff_ack _) = Kind.old_guardian_handoff_ack
kind (Message.rotation_ready_certificate _) = Kind.rotation_ready_certificate
kind (Message.signer_rotation_activate_vote _) = Kind.signer_rotation_activate_vote
kind (Message.rotation_activate_certificate _) = Kind.rotation_activate_certificate
kind (Message.witness_activation_ack _) = Kind.witness_activation_ack
kind (Message.witness_rotation_cancel_ack _) = Kind.witness_rotation_cancel_ack
kind (Message.epoch_activation_qc _) = Kind.epoch_activation_qc
kind (Message.epoch_read_challenge _) = Kind.epoch_read_challenge
kind (Message.witness_epoch_read_response _) = Kind.witness_epoch_read_response
kind (Message.retirement_notice _) = Kind.retirement_notice
kind (Message.retirement_ack _) = Kind.retirement_ack
kind (Message.abort_rotation_certificate _) = Kind.abort_rotation_certificate
kind (Message.signer_rotation_abort_vote _) = Kind.signer_rotation_abort_vote
kind (Message.recovery_request_v3 _) = Kind.recovery_request_v3
kind (Message.recovery_request_digest_v3 _) = Kind.recovery_request_digest_v3
kind (Message.recovery_authorization_share_context_v3 _ _) =
    Kind.recovery_authorization_share_context_v3
kind (Message.signer_recovery_contribution_v3 _) = Kind.signer_recovery_contribution_v3
kind (Message.begin_recovery_certificate_v3 _) = Kind.begin_recovery_certificate_v3
kind (Message.signer_recovery_release_vote_v3 _) = Kind.signer_recovery_release_vote_v3
kind (Message.recovery_release_certificate_v3 _) = Kind.recovery_release_certificate_v3
kind (Message.owner_recovery_cancel_certificate_v3 _) = Kind.owner_recovery_cancel_certificate_v3
kind (Message.owner_recovery_cancel_ack_v3 _) = Kind.owner_recovery_cancel_ack_v3
kind (Message.guardian_recovery_contribution_v3 _) = Kind.guardian_recovery_contribution_v3
kind (Message.guardian_share_context_v3 _ _) = Kind.guardian_share_context_v3
kind (Message.guardian_fragment_context_v3 _ _ _) = Kind.guardian_fragment_context_v3
kind (Message.descriptor_context_v3 _) = Kind.descriptor_context_v3
kind (Message.config_capsule_body_v3 _) = Kind.config_capsule_body_v3
kind (Message.guardian_policy_body_v3 _) = Kind.guardian_policy_body_v3
kind (Message.payload_context_v3 _ _) = Kind.payload_context_v3
kind (Message.custody_challenge _) = Kind.custody_challenge
kind (Message.custody_response _) = Kind.custody_response

-- The bytes that are signed, hashed or authenticated for a message.
unfoldable pub write : Message → Result WireError Bytes
write (Message.guardian_roster_v3 routes) = Plan.guardian_roster_v3 routes
write (Message.rotation_intent value) = Plan.rotation_intent value
write (Message.signer_rotation_intent_contribution value) =
    Plan.signer_rotation_intent_contribution value
write (Message.rotation_intent_share_context_v3 context intent_hash signer_id) =
    Plan.rotation_intent_share_context_v3 context intent_hash signer_id
write (Message.rotation_plan value) = Plan.rotation_plan value
write (Message.signer_rotation_begin_vote value) = Votes.signer_rotation_begin_vote value
write (Message.begin_rotation_certificate value) = Votes.begin_rotation_certificate value
write (Message.owner_rotation_cancel_certificate value) =
    Votes.owner_rotation_cancel_certificate value
write (Message.owner_rotation_cancel_ack value) = Votes.owner_rotation_cancel_ack value
write (Message.signer_rotation_release_vote value) = Votes.signer_rotation_release_vote value
write (Message.rotation_release_certificate value) = Votes.rotation_release_certificate value
write (Message.old_share_unlock_grant value) = Grants.old_share_unlock_grant value
write (Message.old_share_unlock_grant_payload_context value fragment_key) =
    Grants.old_share_unlock_grant_payload_context value fragment_key
write (Message.new_share_wrap_grant value) = Grants.new_share_wrap_grant value
write (Message.new_share_wrap_grant_payload_context value fragment_key) =
    Grants.new_share_wrap_grant_payload_context value fragment_key
write (Message.dpss_protocol_message value) = Grants.dpss_protocol_message value
write (Message.ciphertext_fragment_contribution value) =
    Grants.ciphertext_fragment_contribution value
write (Message.prepared_record_leaf_v3 value) = Prepare.prepared_record_leaf_v3 value
write (Message.new_guardian_prepared_ack value) = Prepare.new_guardian_prepared_ack value
write (Message.old_guardian_handoff_ack value) = Prepare.old_guardian_handoff_ack value
write (Message.rotation_ready_certificate value) = Prepare.rotation_ready_certificate value
write (Message.signer_rotation_activate_vote value) = Activate.signer_rotation_activate_vote value
write (Message.rotation_activate_certificate value) = Activate.rotation_activate_certificate value
write (Message.witness_activation_ack value) = Activate.witness_activation_ack value
write (Message.witness_rotation_cancel_ack value) = Activate.witness_rotation_cancel_ack value
write (Message.epoch_activation_qc value) = Activate.epoch_activation_qc value
write (Message.epoch_read_challenge value) = Activate.epoch_read_challenge value
write (Message.witness_epoch_read_response value) = Activate.witness_epoch_read_response value
write (Message.retirement_notice value) = Retire.retirement_notice value
write (Message.retirement_ack value) = Retire.retirement_ack value
write (Message.abort_rotation_certificate value) = Retire.abort_rotation_certificate value
write (Message.signer_rotation_abort_vote value) = Retire.signer_rotation_abort_vote value
write (Message.recovery_request_v3 value) = Recover.recovery_request_v3 value
write (Message.recovery_request_digest_v3 value) = Recover.recovery_request_digest_v3 value
write (Message.recovery_authorization_share_context_v3 request signer_id) =
    Recover.recovery_authorization_share_context_v3 request signer_id
write (Message.signer_recovery_contribution_v3 value) =
    Recover.signer_recovery_contribution_v3 value
write (Message.begin_recovery_certificate_v3 value) = Recover.begin_recovery_certificate_v3 value
write (Message.signer_recovery_release_vote_v3 value) =
    Recover.signer_recovery_release_vote_v3 value
write (Message.recovery_release_certificate_v3 value) =
    Recover.recovery_release_certificate_v3 value
write (Message.owner_recovery_cancel_certificate_v3 value) =
    Recover.owner_recovery_cancel_certificate_v3 value
write (Message.owner_recovery_cancel_ack_v3 value) = Recover.owner_recovery_cancel_ack_v3 value
write (Message.guardian_recovery_contribution_v3 value) =
    Recover.guardian_recovery_contribution_v3 value
write (Message.guardian_share_context_v3 config_ref guardian_index) =
    Contexts.guardian_share_context_v3 config_ref guardian_index
write (Message.guardian_fragment_context_v3 config_ref guardian_index fragment_index) =
    Contexts.guardian_fragment_context_v3 config_ref guardian_index fragment_index
write (Message.descriptor_context_v3 config_ref) = Contexts.descriptor_context_v3 config_ref
write (Message.config_capsule_body_v3 value) = Contexts.config_capsule_body_v3 value
write (Message.guardian_policy_body_v3 value) = Contexts.guardian_policy_body_v3 value
write (Message.payload_context_v3 config_id payload_generation) =
    Contexts.payload_context_v3 config_id payload_generation
write (Message.custody_challenge value) = Contexts.custody_challenge value
write (Message.custody_response value) = Contexts.custody_response value
