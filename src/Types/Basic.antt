-- ===== src/Types/Basic.antt =====
-- crates/gp-types/src/lib.rs: the protocol versions, identifiers and ciphertexts.
use master_recovery.Prelude.{ℕ, List}

abbrev pub protocol_version_v2 : ℕ
protocol_version_v2 = 2

abbrev pub protocol_version_v3 : ℕ
protocol_version_v3 = 3

abbrev pub current_protocol_version : ℕ
current_protocol_version = protocol_version_v2

abbrev pub Id32 : Type 0
Id32 = ℕ

abbrev pub Bytes : Type 0
Bytes = List ℕ

pub data CryptoSuite : Type 0 where
  x_wing_x_cha_cha20_poly1305_ed25519 : CryptoSuite

-- The nonce is an array of 24 bytes.
pub record AeadCiphertext : Type 0 where
  pub nonce : Bytes
  pub ciphertext : Bytes

pub record SealedMessage : Type 0 where
  pub kem_ciphertext : Bytes
  pub payload : AeadCiphertext
