-- ===== src/Types/Rotation.antt =====
-- crates/gp-types/src/rotation.rs: configuration references, rotation states and the
-- protocol-v3 recovery request.
use master_recovery.Prelude.{ℕ, ◌≡◌, ◌↔◌, Bool, true, ◌&&◌, arith, ◌==◌, ◌!=◌, saturating_add}
use master_recovery.Types.Basic.{Id32, Bytes}

pub record ConfigRef : Type 0 where
  pub config_id : Id32
  pub payload_generation : ℕ
  pub authorization_epoch : ℕ
  pub guardian_epoch : ℕ
  pub epoch_binding : Id32

-- The derived `==` of `ConfigRef`.
unfoldable pub same_config_ref : ConfigRef → ConfigRef → Bool
same_config_ref a b =
    a.config_id == b.config_id
    && (a.payload_generation == b.payload_generation
        && (a.authorization_epoch == b.authorization_epoch
            && (a.guardian_epoch == b.guardian_epoch && a.epoch_binding == b.epoch_binding)))

pub same_config_ref_iff : (a b : ConfigRef) → (same_config_ref a b ≡ true) ↔ (a ≡ b)
unfolding same_config_ref
same_config_ref_iff a b = ground arith

unfoldable pub is_direct_successor_of : ConfigRef → ConfigRef → Bool
is_direct_successor_of self predecessor =
    self.config_id == predecessor.config_id
    && (self.payload_generation == predecessor.payload_generation
        && (self.authorization_epoch == predecessor.authorization_epoch
            && (self.guardian_epoch == saturating_add predecessor.guardian_epoch 1
                && self.epoch_binding != predecessor.epoch_binding)))

pub data RotationState : Type 0 where
  proposed delay_pending preparing ready activating active draining retired aborted : RotationState

pub record RecoveryRequestV3 : Type 0 where
  pub protocol_version : ℕ
  pub config_ref : ConfigRef
  pub request_id : Id32
  pub recovery_recipient_key : Bytes
  pub requested_at : ℕ
  pub nonce : Id32
  pub expiry : ℕ
