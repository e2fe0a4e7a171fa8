-- ===== src/Types/Epoch.antt =====
-- crates/gp-types/src/rotation.rs: what a guardian keeps for an epoch, the intent to rotate, and the
-- proof that activates the next epoch.
use master_recovery.Prelude.{ℕ, Option, List}
use master_recovery.Types.Basic.{Id32, Bytes, AeadCiphertext}
use master_recovery.Types.Rotation.{ConfigRef}

pub data GuardianEpochState : Type 0 where
  prepared active draining retired : GuardianEpochState

pub data DpssSuiteId : Type 0 where
  zf_frost_ristretto255_rts_refresh_v1 : DpssSuiteId

pub record GuardianPolicyV3 : Type 0 where
  pub config_ref : ConfigRef
  pub epoch_state : GuardianEpochState
  pub signer_set_commitment : Id32
  pub signer_count : ℕ
  pub signer_threshold : ℕ
  pub owner_cancel_public_key : Id32
  pub minimum_recovery_delay : ℕ
  pub guardian_material_root : Id32
  pub dpss_suite : DpssSuiteId
  pub dpss_public_commitment : Id32
  pub predecessor_capsule_hash : Id32
  pub activation_qc_hash : Option Id32
  pub drain_deadline : Option ℕ

pub record GuardianRecordV3 : Type 0 where
  pub opaque_slot_id : Id32
  pub guardian_index : ℕ
  pub fragment_index : ℕ
  pub encrypted_ciphertext_fragment : AeadCiphertext
  pub encrypted_dek_share : AeadCiphertext
  pub merkle_path_proof : Bytes
  pub custody_root : Id32
  pub policy : GuardianPolicyV3

pub record RotationContext : Type 0 where
  pub protocol_version : ℕ
  pub config_ref : ConfigRef
  pub rotation_id : Id32
  pub predecessor_capsule_hash : Id32
  pub recipient_key : Bytes
  pub nonce : Id32
  pub issued_at : ℕ
  pub expiry : ℕ

pub data RotationReason : Type 0 where
  planned_exit custody_failure unavailable suspected_compromise : RotationReason
  diversity_policy proactive_refresh security_upgrade owner_assisted_migration : RotationReason

pub record RotationIntent : Type 0 where
  pub context : RotationContext
  pub reason : RotationReason
  pub old_guardian_count : ℕ
  pub old_guardian_threshold : ℕ
  pub allowed_new_guardian_count : List ℕ
  pub allowed_new_guardian_threshold : List ℕ
  pub allowed_dpss_suites : List DpssSuiteId
  pub selection_constraints_commitment : Id32
  pub witness_read_qc_hash : Id32

pub record WitnessActivationAck : Type 0 where
  pub context : RotationContext
  pub plan_hash : Id32
  pub activation_certificate_hash : Id32
  pub witness_id : ℕ
  pub predecessor_epoch : ℕ
  pub predecessor_capsule_hash : Id32
  pub successor_epoch : ℕ
  pub successor_capsule_hash : Id32
  pub witness_public_key : Id32
  pub witness_signature : Bytes

pub record EpochActivationQc : Type 0 where
  pub protocol_version : ℕ
  pub config_id : Id32
  pub rotation_id : Id32
  pub predecessor_epoch : ℕ
  pub predecessor_capsule_hash : Id32
  pub successor_epoch : ℕ
  pub successor_capsule_hash : Id32
  pub activation_certificate_hash : Id32
  pub witness_fault_bound : ℕ
  pub witness_acks : List WitnessActivationAck
