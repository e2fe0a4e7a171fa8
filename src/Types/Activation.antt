-- ===== src/Types/Activation.antt =====
-- crates/gp-types/src/rotation.rs: the messages that prepare, activate, end and retire an epoch.
use master_recovery.Prelude.{ℕ, List}
use master_recovery.Types.Basic.{Id32, Bytes}
use master_recovery.Types.Rotation.{ConfigRef, RotationState}
use master_recovery.Types.Epoch.{RotationContext}
use master_recovery.Types.Ceremony.{PreparedRecordLeaf}

pub record NewGuardianPreparedAck : Type 0 where
  pub context : RotationContext
  pub plan_hash : Id32
  pub dpss_result_commitment : Id32
  pub guardian_material_root : Id32
  pub new_guardian_index : ℕ
  pub prepared_record_leaf : PreparedRecordLeaf
  pub durable_write_generation : ℕ
  pub guardian_signature : Bytes

pub record OldGuardianHandoffAck : Type 0 where
  pub context : RotationContext
  pub plan_hash : Id32
  pub dpss_result_commitment : Id32
  pub qualified_set_commitment : Id32
  pub old_guardian_index : ℕ
  pub guardian_signature : Bytes

pub record RotationReadyCertificate : Type 0 where
  pub context : RotationContext
  pub plan_hash : Id32
  pub successor : ConfigRef
  pub dpss_result_commitment : Id32
  pub guardian_material_root : Id32
  pub encrypted_descriptor_hash : Id32
  pub prepared_acks : List NewGuardianPreparedAck
  pub old_handoff_acks : List OldGuardianHandoffAck

pub record SignerRotationActivateVote : Type 0 where
  pub context : RotationContext
  pub plan_hash : Id32
  pub ready_certificate_hash : Id32
  pub successor_capsule_hash : Id32
  pub signer_id : ℕ
  pub signer_public_key : Id32
  pub signer_membership_proof : Bytes
  pub signer_signature : Bytes

pub record RotationActivateCertificate : Type 0 where
  pub context : RotationContext
  pub plan_hash : Id32
  pub ready_certificate_hash : Id32
  pub successor : ConfigRef
  pub successor_capsule_hash : Id32
  pub votes : List SignerRotationActivateVote

pub record WitnessRotationCancelAck : Type 0 where
  pub protocol_version : ℕ
  pub config_id : Id32
  pub rotation_id : Id32
  pub plan_hash : Id32
  pub cancel_certificate_hash : Id32
  pub witness_id : ℕ
  pub witness_public_key : Id32
  pub witness_signature : Bytes

pub record EpochReadChallenge : Type 0 where
  pub protocol_version : ℕ
  pub config_id : Id32
  pub client_nonce : Id32
  pub response_recipient_key : Bytes
  pub issued_at : ℕ
  pub expiry : ℕ

pub record WitnessEpochReadResponse : Type 0 where
  pub protocol_version : ℕ
  pub config_id : Id32
  pub client_nonce : Id32
  pub witness_id : ℕ
  pub highest_guardian_epoch : ℕ
  pub capsule_hash : Id32
  pub witness_public_key : Id32
  pub witness_signature : Bytes

pub record RetirementNotice : Type 0 where
  pub context : RotationContext
  pub plan_hash : Id32
  pub activation_qc_hash : Id32
  pub retired_epoch : ℕ
  pub drain_deadline : ℕ

pub record RetirementAck : Type 0 where
  pub context : RotationContext
  pub plan_hash : Id32
  pub activation_qc_hash : Id32
  pub guardian_index : ℕ
  pub retired_epoch : ℕ
  pub tombstone_hash : Id32
  pub guardian_signature : Bytes

pub record SignerRotationAbortVote : Type 0 where
  pub context : RotationContext
  pub plan_hash : Id32
  pub state_at_abort : RotationState
  pub reason_code : ℕ
  pub signer_id : ℕ
  pub signer_public_key : Id32
  pub signer_membership_proof : Bytes
  pub signer_signature : Bytes

pub record AbortRotationCertificate : Type 0 where
  pub context : RotationContext
  pub plan_hash : Id32
  pub state_at_abort : RotationState
  pub reason_code : ℕ
  pub votes : List SignerRotationAbortVote
