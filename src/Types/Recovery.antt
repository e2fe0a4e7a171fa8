-- ===== src/Types/Recovery.antt =====
-- crates/gp-types/src/lib.rs: the messages of a protocol-v2 recovery.
use master_recovery.Prelude.{ℕ}
use master_recovery.Types.Basic.{Id32, Bytes, CryptoSuite, AeadCiphertext}

pub data RecoveryState : Type 0 where
  created awaiting_approvals authorized delay_pending : RecoveryState
  cancelled releasing completed expired : RecoveryState

pub record RecoveryRequest : Type 0 where
  pub protocol_version : ℕ
  pub crypto_suite : CryptoSuite
  pub config_id : Id32
  pub config_version : ℕ
  pub request_id : Id32
  pub recovery_recipient_key : Bytes
  pub requested_at : ℕ
  pub nonce : Id32
  pub expiry : ℕ

pub record PendingRecovery : Type 0 where
  pub request_id : Id32
  pub config_id : Id32
  pub config_version : ℕ
  pub recipient : Bytes
  pub started_at_monotonic : ℕ
  pub not_before : ℕ
  pub state : RecoveryState

pub record OwnerCancelCertificate : Type 0 where
  pub protocol_version : ℕ
  pub config_id : Id32
  pub config_version : ℕ
  pub request_id : Id32
  pub request_digest : Id32
  pub recovery_recipient_key : Bytes
  pub cancel_response_recipient_key : Bytes
  pub reason_code : ℕ
  pub nonce : Id32
  pub issued_at : ℕ
  pub owner_cancel_public_key : Id32
  pub owner_signature : Bytes

pub record OwnerCancelAck : Type 0 where
  pub protocol_version : ℕ
  pub config_id : Id32
  pub config_version : ℕ
  pub request_id : Id32
  pub request_digest : Id32
  pub owner_cancel_transcript_digest : Id32
  pub guardian_index : ℕ
  pub guardian_signature : Bytes

pub record ReleaseVote : Type 0 where
  pub protocol_version : ℕ
  pub config_id : Id32
  pub config_version : ℕ
  pub request_id : Id32
  pub request_digest : Id32
  pub recovery_recipient_key : Bytes
  pub nonce : Id32
  pub signer_id : ℕ
  pub signer_public_key : Id32
  pub signer_membership_proof : Bytes
  pub signer_signature : Bytes

pub record GuardianContribution : Type 0 where
  pub protocol_version : ℕ
  pub config_id : Id32
  pub config_version : ℕ
  pub request_id : Id32
  pub request_digest : Id32
  pub guardian_index : ℕ
  pub ciphertext_fragment : Bytes
  pub encrypted_dek_share : AeadCiphertext
  pub merkle_path_proof : Bytes
  pub guardian_signature : Bytes
