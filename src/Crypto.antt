-- ===== src/Crypto.antt =====
-- crates/gp-crypto/src/lib.rs: the checks around the third-party ciphers, hashes and codes. The libraries
-- are parameters: what the source takes from a crate is an argument of the definitions that use it.
pub mod Secret
mod Tests
use master_recovery.Prelude.{ℕ}

pub data CryptoError : Type 0 where
  authentication invalid_threshold invalid_secret_length insufficient_shares : CryptoError
  invalid_share duplicate_share invalid_fragments invalid_signature : CryptoError
  invalid_kem_data invalid_merkle_proof kdf invalid_frost invalid_frost_participant : CryptoError
