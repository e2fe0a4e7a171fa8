-- ===== src/Storage/Epoch.antt =====
-- crates/gp-storage/src/rotation.rs: `GuardianEpochStore`, the prepared, active and draining records
-- of one guardian. An operation returns the store as it leaves it beside its result, so that what a
-- failure leaves behind can be stated.
pub mod Rotate
pub mod Drain
pub mod Calls
pub mod Invariant
pub mod Keeps
pub mod Course
use master_recovery.Prelude.{
  ℕ, ◌||◌, ◌&&◌, not, Bool, true, false, Option, none, some, ◌==◌, ◌!=◌, ltb, if◌then◌else◌,
  saturating_add, Result, ok, err,
}
use master_recovery.Collections.Map
use master_recovery.Collections.Map.{Map}
use master_recovery.Collections.Set
use master_recovery.Collections.Set.{Set}
use master_recovery.Types.Basic.{Id32, Bytes, AeadCiphertext}
use master_recovery.Types.Rotation.{ConfigRef, is_direct_successor_of, RotationState}
use master_recovery.Types.Epoch.{GuardianEpochState, GuardianRecordV3, EpochActivationQc}
use master_recovery.Storage.{
  StorageError, not_found, conflict, invalid_epoch, replay, no_prepared_successor, not_durable,
  already_activated, injected_failure,
}

pub record RotationTombstone : Type 0 where
  pub rotation_id : Id32
  pub plan_hash : Id32
  pub predecessor_capsule_hash : Id32
  pub terminal_state : RotationState

pub record DpssSessionJournal : Type 0 where
  pub rotation_id : Id32
  pub plan_hash : Id32
  pub session_id : Id32
  pub qualified_set_digest : Id32
  pub phase : ℕ
  pub next_sequence : ℕ
  pub provider_public_journal : Bytes
  pub encrypted_provider_secret_journal : AeadCiphertext

pub record PreparedGuardianEpoch : Type 0 where
  pub rotation_id : Id32
  pub plan_hash : Id32
  pub record_v3 : GuardianRecordV3
  pub durable_write_generation : ℕ

pub record DrainingGuardianEpoch : Type 0 where
  pub record_v3 : GuardianRecordV3
  pub capsule_hash : Id32
  pub drain_deadline : ℕ
  pub pending_request_ids : Set

pub record GuardianEpochStore : Type 0 where
  pub config_id : Id32
  pub expected_predecessor : ConfigRef
  pub expected_predecessor_capsule_hash : Id32
  pub active : Option GuardianRecordV3
  pub active_capsule_hash : Option Id32
  pub prepared : Option PreparedGuardianEpoch
  pub draining : Map DrainingGuardianEpoch
  pub dpss_journal : Option DpssSessionJournal
  pub rotation_tombstones : Map RotationTombstone
  pub recovery_cancellation_tombstones : Map Id32
  pub activation_qc : Option EpochActivationQc
  pub next_write_generation : ℕ

-- `record.policy.epoch_state = state`
abbrev pub with_epoch_state : GuardianRecordV3 → GuardianEpochState → GuardianRecordV3
with_epoch_state r state = record r { policy = record r.policy { epoch_state = state } }

-- What both constructors write alike.
unfoldable pub empty_store : ConfigRef → Id32 → GuardianEpochStore
empty_store predecessor predecessor_capsule_hash = record {
  config_id = predecessor.config_id;
  expected_predecessor = predecessor;
  expected_predecessor_capsule_hash = predecessor_capsule_hash;
  active = none;
  active_capsule_hash = none;
  prepared = none;
  draining = Map.empty;
  dpss_journal = none;
  rotation_tombstones = Map.empty;
  recovery_cancellation_tombstones = Map.empty;
  activation_qc = none;
  next_write_generation = 1;
}

unfoldable pub new : GuardianRecordV3 → Id32 → GuardianEpochStore
new active active_capsule_hash = record (empty_store active.policy.config_ref active_capsule_hash) {
  active = some (with_epoch_state active GuardianEpochState.active);
  active_capsule_hash = some active_capsule_hash;
}

unfoldable pub new_candidate : ConfigRef → Id32 → GuardianEpochStore
new_candidate predecessor predecessor_capsule_hash =
    empty_store predecessor predecessor_capsule_hash

abbrev pub Outcome : Type 0 → Type 0
Outcome T = GuardianEpochStore × Result StorageError T

-- The closure works on a copy, which replaces the store only where nothing fails.
unfoldable pub transaction :
    {T : Type 0} → GuardianEpochStore → Bool → (GuardianEpochStore → Outcome T) → Outcome T
transaction s inject_failure mutate = elim ((mutate s).1) [
  | err e ↦ (s, err e)
  | ok result ↦ if inject_failure then (s, err injected_failure) else ((mutate s).0, ok result)
]
