-- ===== src/Types/RecoveryV3.antt =====
-- crates/gp-types/src/rotation.rs: recovery, capsules and custody in protocol v3.
use master_recovery.Prelude.{ℕ, List, Option}
use master_recovery.Types.Basic.{Id32, Bytes, AeadCiphertext, SealedMessage}
use master_recovery.Types.Rotation.{ConfigRef, RecoveryRequestV3}
use master_recovery.Types.Epoch.{DpssSuiteId, EpochActivationQc}
use master_recovery.Types.Ceremony.{GuardianRouteV3}
use master_recovery.Types.Activation.{RotationActivateCertificate}

pub data GuardianHealthState : Type 0 where
  unknown healthy degraded failed : GuardianHealthState

pub record SignerRecoveryContributionV3 : Type 0 where
  pub request : RecoveryRequestV3
  pub signer_id : ℕ
  pub signer_public_key : Id32
  pub signer_membership_proof : Bytes
  pub encrypted_authorization_share : SealedMessage
  pub signer_signature : Bytes

pub record BeginRecoveryCertificateV3 : Type 0 where
  pub request : RecoveryRequestV3
  pub request_digest : Id32
  pub signer_contributions : List SignerRecoveryContributionV3

pub record SignerRecoveryReleaseVoteV3 : Type 0 where
  pub request : RecoveryRequestV3
  pub request_digest : Id32
  pub signer_id : ℕ
  pub signer_public_key : Id32
  pub signer_membership_proof : Bytes
  pub signer_signature : Bytes

pub record RecoveryReleaseCertificateV3 : Type 0 where
  pub request : RecoveryRequestV3
  pub request_digest : Id32
  pub votes : List SignerRecoveryReleaseVoteV3

pub record OwnerRecoveryCancelCertificateV3 : Type 0 where
  pub request : RecoveryRequestV3
  pub request_digest : Id32
  pub reason_code : ℕ
  pub cancel_response_recipient_key : Bytes
  pub owner_cancel_public_key : Id32
  pub owner_signature : Bytes

pub record OwnerRecoveryCancelAckV3 : Type 0 where
  pub config_ref : ConfigRef
  pub request_id : Id32
  pub request_digest : Id32
  pub cancel_certificate_hash : Id32
  pub guardian_index : ℕ
  pub guardian_signature : Bytes

pub record GuardianRecoveryContributionV3 : Type 0 where
  pub config_ref : ConfigRef
  pub request_id : Id32
  pub request_digest : Id32
  pub recovery_recipient_key : Bytes
  pub nonce : Id32
  pub guardian_index : ℕ
  pub fragment_index : ℕ
  pub encrypted_ciphertext_fragment : AeadCiphertext
  pub encrypted_dek_share : AeadCiphertext
  pub merkle_path_proof : Bytes
  pub guardian_signature : Bytes

pub record RecoveryDescriptorV3 : Type 0 where
  pub config_ref : ConfigRef
  pub guardians : List GuardianRouteV3
  pub guardian_material_root : Id32
  pub data_shards : ℕ
  pub total_shards : ℕ
  pub ciphertext_len : ℕ
  pub payload_nonce : Bytes
  pub dpss_suite : DpssSuiteId
  pub dpss_public_package : Bytes
  pub dpss_public_commitment : Id32

pub record ConfigCapsuleV3 : Type 0 where
  pub protocol_version : ℕ
  pub config_ref : ConfigRef
  pub capsule_hash : Id32
  pub predecessor_capsule_hash : Id32
  pub signer_count : ℕ
  pub signer_threshold : ℕ
  pub guardian_count : ℕ
  pub guardian_threshold : ℕ
  pub minimum_recovery_delay : ℕ
  pub max_request_lifetime : ℕ
  pub signer_set_commitment : Id32
  pub owner_cancel_public_key : Id32
  pub dpss_suite : DpssSuiteId
  pub dpss_public_commitment : Id32
  pub ciphertext_fragment_root : Id32
  pub guardian_material_root : Id32
  pub encrypted_recovery_descriptor : AeadCiphertext
  pub activation_certificate : Option RotationActivateCertificate
  pub activation_qc : Option EpochActivationQc

pub record WitnessPin : Type 0 where
  pub witness_id : ℕ
  pub mailbox : Bytes
  pub public_key : Id32

pub record RecoveryCardV3 : Type 0 where
  pub protocol_version : ℕ
  pub config_id : Id32
  pub signer_mailboxes : List Bytes
  pub signer_set_commitment : Id32
  pub owner_cancel_public_key : Id32
  pub witness_fault_bound : ℕ
  pub witnesses : List WitnessPin
  pub relay_bases : List Bytes

pub record CustodyChallenge : Type 0 where
  pub protocol_version : ℕ
  pub config_ref : ConfigRef
  pub opaque_slot_id : Id32
  pub challenge_id : Id32
  pub block_indices : List ℕ
  pub nonce : Id32
  pub response_recipient_key : Bytes
  pub expiry : ℕ

pub record CustodyBlockProof : Type 0 where
  pub block_index : ℕ
  pub block : Bytes
  pub merkle_path : Bytes

pub record CustodyResponse : Type 0 where
  pub protocol_version : ℕ
  pub config_ref : ConfigRef
  pub opaque_slot_id : Id32
  pub challenge_id : Id32
  pub nonce : Id32
  pub guardian_index : ℕ
  pub proofs : List CustodyBlockProof
  pub guardian_signature : Bytes

pub record GuardianHealthRecord : Type 0 where
  pub config_ref : ConfigRef
  pub guardian_index : ℕ
  pub state : GuardianHealthState
  pub consecutive_failures : ℕ
  pub last_challenge_id : Option Id32
  pub last_success_at : Option ℕ
  pub evidence_hashes : List Id32
