-- ===== src/Storage/Epoch/Drain.antt =====
-- crates/gp-storage/src/rotation.rs: the draining epochs of `GuardianEpochStore`.
use master_recovery.Prelude.{ℕ, ◌||◌, not, none, some, ltb, if◌then◌else◌, ok, err}
use master_recovery.Collections.Map
use master_recovery.Collections.Map.{Map}
use master_recovery.Collections.Set
use master_recovery.Collections.Set.{Set}
use master_recovery.Types.Basic.{Id32}
use master_recovery.Storage.{not_found, not_durable}
use master_recovery.Storage.Epoch.{GuardianEpochStore, Outcome}

unfoldable pub finish_draining_request : GuardianEpochStore → ℕ → Id32 → Outcome (Unit {0})
finish_draining_request s guardian_epoch request_id = elim (Map.get s.draining guardian_epoch) [
  | none ↦ (s, err not_found)
  | some d ↦ (
    record s {
      draining =
          Map.insert s.draining guardian_epoch
            (record d { pending_request_ids = Set.remove d.pending_request_ids request_id });
    },
    ok tt,
  )
]

unfoldable pub retire_epoch : GuardianEpochStore → ℕ → ℕ → Outcome Id32
retire_epoch s guardian_epoch monotonic_now = elim (Map.get s.draining guardian_epoch) [
  | none ↦ (s, err not_found)
  | some d ↦
      if ltb monotonic_now d.drain_deadline || not (Set.is_empty d.pending_request_ids)
      then (s, err not_durable)
      else (record s { draining = Map.remove s.draining guardian_epoch }, ok d.capsule_hash)
]
