-- ===== src/Storage/Witness.antt =====
-- crates/gp-storage/src/rotation.rs: `WitnessEpochStore`, what a witness keeps. A key that the
-- source spells in hexadecimal is the identifier itself.
pub mod Lock
use master_recovery.Prelude.{
  ℕ, ◌||◌, not, Bool, true, false, Option, none, some, ◌==◌, ◌!=◌, if◌then◌else◌, saturating_add,
  Result, ok, err,
}
use master_recovery.Collections.Map
use master_recovery.Collections.Map.{Map}
use master_recovery.Collections.Set
use master_recovery.Collections.Set.{Set}
use master_recovery.Types.Basic.{Id32}
use master_recovery.Types.Rotation.{ConfigRef, is_direct_successor_of}
use master_recovery.Storage.{StorageError, conflict, invalid_epoch, replay}

pub record WitnessEpochStore : Type 0 where
  pub config_id : Id32
  pub highest_guardian_epoch : ℕ
  pub highest_capsule_hash : Id32
  pub predecessor_locks : Map Id32
  pub seen_read_nonces : Set

unfoldable pub new : ConfigRef → Id32 → WitnessEpochStore
new config_ref capsule_hash = record {
  config_id = config_ref.config_id;
  highest_guardian_epoch = config_ref.guardian_epoch;
  highest_capsule_hash = capsule_hash;
  predecessor_locks = Map.empty;
  seen_read_nonces = Set.empty;
}

abbrev pub Outcome : Type 0
Outcome = WitnessEpochStore × Result StorageError (Unit {0})

unfoldable pub persist_successor_before_ack :
    WitnessEpochStore → ConfigRef → Id32 → ConfigRef → Id32 → Outcome
persist_successor_before_ack m predecessor predecessor_hash successor successor_hash =
    if not (is_direct_successor_of successor predecessor)
    then (m, err invalid_epoch)
    else elim (Map.get m.predecessor_locks predecessor_hash) [
      | some existing ↦ if existing == successor_hash then (m, ok tt) else (m, err conflict)
      | none ↦
          if predecessor.config_id != m.config_id
            || (predecessor.guardian_epoch != m.highest_guardian_epoch
                || predecessor_hash != m.highest_capsule_hash)
          then (m, err invalid_epoch)
          else (
            record m {
              predecessor_locks = Map.insert m.predecessor_locks predecessor_hash successor_hash;
              highest_guardian_epoch = successor.guardian_epoch;
              highest_capsule_hash = successor_hash;
            },
            ok tt,
          )
    ]

-- `get(key) == Some(&hash)`
abbrev locked_to : WitnessEpochStore → Id32 → Id32 → Bool
locked_to m predecessor_hash successor_hash = elim (Map.get m.predecessor_locks predecessor_hash) [
  | some existing ↦ existing == successor_hash
  | none ↦ false
]

unfoldable pub cancel_pending_successor : WitnessEpochStore → ℕ → Id32 → ℕ → Id32 → Outcome
cancel_pending_successor m predecessor_epoch predecessor_hash successor_epoch successor_hash =
    if successor_epoch != saturating_add predecessor_epoch 1
      || (m.highest_guardian_epoch != successor_epoch
          || (m.highest_capsule_hash != successor_hash
              || not (locked_to m predecessor_hash successor_hash)))
    then (m, err conflict)
    else (
      record m {
        predecessor_locks = Map.remove m.predecessor_locks predecessor_hash;
        highest_guardian_epoch = predecessor_epoch;
        highest_capsule_hash = predecessor_hash;
      },
      ok tt,
    )

unfoldable pub observe_read_nonce : WitnessEpochStore → Id32 → Outcome
observe_read_nonce m nonce =
    if Set.contains m.seen_read_nonces nonce
    then (m, err replay)
    else (record m { seen_read_nonces = Set.insert m.seen_read_nonces nonce }, ok tt)
