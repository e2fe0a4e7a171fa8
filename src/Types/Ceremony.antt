-- ===== src/Types/Ceremony.antt =====
-- crates/gp-types/src/rotation.rs: the messages of a rotation up to its preparation.
use master_recovery.Prelude.{ℕ, List}
use master_recovery.Types.Basic.{Id32, Bytes, SealedMessage}
use master_recovery.Types.Rotation.{ConfigRef}
use master_recovery.Types.Epoch.{RotationContext, DpssSuiteId}

pub data DpssPhase : Type 0 where
  repair_round1 repair_round2 repair_round3 refresh_round1 refresh_round2 finalize : DpssPhase

pub record PreparedRecordLeaf : Type 0 where
  pub guardian_index : ℕ
  pub fragment_index : ℕ
  pub opaque_slot_id : Id32
  pub encrypted_share_hash : Id32
  pub fragment_hash : Id32
  pub policy_hash : Id32

pub record GuardianRouteV3 : Type 0 where
  pub guardian_index : ℕ
  pub opaque_slot_id : Id32
  pub mailbox : Bytes
  pub guardian_public_key : Id32
  pub session_recipient_key : Bytes
  pub operator_domain_commitment : Id32

pub record SignerRotationIntentContribution : Type 0 where
  pub context : RotationContext
  pub intent_hash : Id32
  pub signer_id : ℕ
  pub signer_public_key : Id32
  pub signer_membership_proof : Bytes
  pub encrypted_authorization_share : SealedMessage
  pub signer_signature : Bytes

pub record RotationPlan : Type 0 where
  pub context : RotationContext
  pub intent_hash : Id32
  pub predecessor : ConfigRef
  pub successor : ConfigRef
  pub old_roster : List GuardianRouteV3
  pub new_roster : List GuardianRouteV3
  pub old_roster_commitment : Id32
  pub new_roster_commitment : Id32
  pub old_guardian_threshold : ℕ
  pub new_guardian_threshold : ℕ
  pub data_shards : ℕ
  pub total_shards : ℕ
  pub dpss_suite : DpssSuiteId
  pub dpss_session_id : Id32
  pub dpss_qualified_set_commitment : Id32
  pub minimum_delay_secs : ℕ
  pub preparation_deadline : ℕ
  pub drain_deadline : ℕ

pub record SignerRotationBeginVote : Type 0 where
  pub context : RotationContext
  pub intent_hash : Id32
  pub plan_hash : Id32
  pub old_roster_commitment : Id32
  pub new_roster_commitment : Id32
  pub signer_id : ℕ
  pub signer_public_key : Id32
  pub signer_membership_proof : Bytes
  pub signer_signature : Bytes

pub record BeginRotationCertificate : Type 0 where
  pub context : RotationContext
  pub intent_hash : Id32
  pub plan_hash : Id32
  pub old_roster_commitment : Id32
  pub new_roster_commitment : Id32
  pub not_before_wall : ℕ
  pub votes : List SignerRotationBeginVote

pub record OwnerRotationCancelCertificate : Type 0 where
  pub context : RotationContext
  pub plan_hash : Id32
  pub reason_code : ℕ
  pub cancel_response_recipient_key : Bytes
  pub owner_cancel_public_key : Id32
  pub owner_signature : Bytes

pub record OwnerRotationCancelAck : Type 0 where
  pub context : RotationContext
  pub plan_hash : Id32
  pub cancel_certificate_hash : Id32
  pub guardian_index : ℕ
  pub guardian_signature : Bytes

pub record SignerRotationReleaseVote : Type 0 where
  pub context : RotationContext
  pub plan_hash : Id32
  pub begin_certificate_hash : Id32
  pub signer_id : ℕ
  pub signer_public_key : Id32
  pub signer_membership_proof : Bytes
  pub signer_signature : Bytes

pub record RotationReleaseCertificate : Type 0 where
  pub context : RotationContext
  pub plan_hash : Id32
  pub begin_certificate_hash : Id32
  pub votes : List SignerRotationReleaseVote

pub record OldShareUnlockGrant : Type 0 where
  pub context : RotationContext
  pub plan_hash : Id32
  pub release_certificate_hash : Id32
  pub old_guardian_index : ℕ
  pub encrypted_unwrap_key : SealedMessage
  pub encrypted_fragment_key : SealedMessage

pub record NewShareWrapGrant : Type 0 where
  pub context : RotationContext
  pub plan_hash : Id32
  pub release_certificate_hash : Id32
  pub new_guardian_index : ℕ
  pub encrypted_wrap_key : SealedMessage
  pub encrypted_fragment_key : SealedMessage

pub record DpssProtocolMessage : Type 0 where
  pub context : RotationContext
  pub plan_hash : Id32
  pub dpss_suite : DpssSuiteId
  pub dpss_session_id : Id32
  pub qualified_set_commitment : Id32
  pub phase : DpssPhase
  pub sender_index : ℕ
  pub recipient_index : ℕ
  pub sequence : ℕ
  pub provider_payload : Bytes
  pub sender_signature : Bytes

pub record CiphertextFragmentContribution : Type 0 where
  pub context : RotationContext
  pub plan_hash : Id32
  pub release_certificate_hash : Id32
  pub old_guardian_index : ℕ
  pub fragment_index : ℕ
  pub ciphertext_fragment : Bytes
  pub fragment_commitment : Id32
  pub prepared_record_leaf : PreparedRecordLeaf
  pub merkle_path_proof : Bytes
  pub guardian_signature : Bytes
