-- ===== src/Core/Witness.antt =====
-- crates/gp-core/src/rotation.rs: `EpochWitnessMachine`, one witness of the active guardian epoch.
pub mod Register
mod Tests
use master_recovery.Prelude.{
  ℕ, Bool, true, false, ◌||◌, ◌&&◌, not, none, some, ◌==◌, ◌!=◌, ltb, leb, if◌then◌else◌, Result,
  ok, err,
}
use master_recovery.Collections.Map
use master_recovery.Collections.Map.{Map}
use master_recovery.Collections.Set
use master_recovery.Collections.Set.{Set}
use master_recovery.Types.Basic.{Id32}
use master_recovery.Types.Rotation.{ConfigRef, is_direct_successor_of}
use master_recovery.Core.Rotation.{
  RotationError, invalid_evidence, invalid_successor, predecessor_locked, replay,
}

pub data WitnessAction : Type 0 where
  -- predecessor_epoch, predecessor_hash, successor_epoch, successor_hash
  persist_successor_before_ack : ℕ → Id32 → ℕ → Id32 → WitnessAction
  -- client_nonce, highest_guardian_epoch, capsule_hash
  sign_fresh_read : Id32 → ℕ → Id32 → WitnessAction
  fail_closed : WitnessAction

pub record EpochWitnessMachine : Type 0 where
  pub config_id : Id32
  pub highest_epoch : ℕ
  pub highest_capsule_hash : Id32
  pub predecessor_locks : Map Id32
  pub seen_read_nonces : Set
  pub ambiguous : Bool

unfoldable pub new : Id32 → ℕ → Id32 → EpochWitnessMachine
new config_id highest_epoch highest_capsule_hash = record {
  config_id = config_id;
  highest_epoch = highest_epoch;
  highest_capsule_hash = highest_capsule_hash;
  predecessor_locks = Map.empty;
  seen_read_nonces = Set.empty;
  ambiguous = false;
}

abbrev pub Outcome : Type 0
Outcome = EpochWitnessMachine × Result RotationError WitnessAction

abbrev persist : ConfigRef → Id32 → ConfigRef → Id32 → WitnessAction
persist predecessor predecessor_hash successor successor_hash =
    persist_successor_before_ack predecessor.guardian_epoch predecessor_hash
      successor.guardian_epoch successor_hash

unfoldable pub accept_successor :
    EpochWitnessMachine → ConfigRef → Id32 → ConfigRef → Id32 → Bool → Outcome
accept_successor m predecessor predecessor_hash successor successor_hash certificate_valid =
    if m.ambiguous
    then (m, err RotationError.fail_closed)
    else if not certificate_valid
    then (m, err invalid_evidence)
    else if predecessor.config_id != m.config_id
        || (predecessor.guardian_epoch != m.highest_epoch
            || (predecessor_hash != m.highest_capsule_hash
                || not (is_direct_successor_of successor predecessor)))
    then (m, err invalid_successor)
    else elim (Map.get m.predecessor_locks predecessor_hash) [
      | some locked_hash ↦
          if locked_hash == successor_hash
          then (m, ok (persist predecessor predecessor_hash successor successor_hash))
          else (m, err predecessor_locked)
      | none ↦ (
        record m {
          predecessor_locks = Map.insert m.predecessor_locks predecessor_hash successor_hash;
          highest_epoch = successor.guardian_epoch;
          highest_capsule_hash = successor_hash;
        },
        ok (persist predecessor predecessor_hash successor successor_hash),
      )
    ]

-- The nonce is inserted, and its novelty tested, only if the tests before it fail.
pub fresh_read : EpochWitnessMachine → Id32 → Id32 → ℕ → ℕ → ℕ → Outcome
fresh_read m config_id client_nonce issued_at expiry now =
    if m.ambiguous
    then (m, err RotationError.fail_closed)
    else if config_id != m.config_id || (ltb now issued_at || leb expiry now)
    then (m, err replay)
    else if Set.contains m.seen_read_nonces client_nonce
    then (m, err replay)
    else (
      record m { seen_read_nonces = Set.insert m.seen_read_nonces client_nonce },
      ok (sign_fresh_read client_nonce m.highest_epoch m.highest_capsule_hash),
    )

pub observe_same_epoch_conflict : EpochWitnessMachine → ℕ → Id32 → Outcome
observe_same_epoch_conflict m guardian_epoch capsule_hash =
    if guardian_epoch == m.highest_epoch && capsule_hash != m.highest_capsule_hash
    then (record m { ambiguous = true }, ok WitnessAction.fail_closed)
    else (m, err invalid_evidence)

pub highest : EpochWitnessMachine → ℕ × Id32
highest m = (m.highest_epoch, m.highest_capsule_hash)
