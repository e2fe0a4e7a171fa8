-- ===== src/Types/Config.antt =====
-- crates/gp-types/src/lib.rs: the configuration of protocol v2 and a signer's share in it.
use master_recovery.Prelude.{ℕ}
use master_recovery.Types.Basic.{Id32, CryptoSuite, AeadCiphertext}

pub record ConfigCapsule : Type 0 where
  pub protocol_version : ℕ
  pub crypto_suite : CryptoSuite
  pub config_id : Id32
  pub config_version : ℕ
  pub signer_count : ℕ
  pub signer_threshold : ℕ
  pub guardian_count : ℕ
  pub guardian_threshold : ℕ
  pub minimum_recovery_delay : ℕ
  pub signer_set_commitment : Id32
  pub owner_cancel_public_key : Id32
  pub guardian_material_commitment : Id32
  pub encrypted_recovery_descriptor : AeadCiphertext
  pub max_request_lifetime : ℕ

pub record SignerPolicy : Type 0 where
  pub config_id : Id32
  pub config_version : ℕ
  pub signer_set_commitment : Id32
  pub signer_threshold : ℕ
