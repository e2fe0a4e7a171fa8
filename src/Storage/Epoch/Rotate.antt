-- ===== src/Storage/Epoch/Rotate.antt =====
-- crates/gp-storage/src/rotation.rs: the operations of a rotation on `GuardianEpochStore`.
use master_recovery.Prelude.{
  ℕ, ◌||◌, not, Bool, false, Option, none, some, ◌==◌, ◌!=◌, if◌then◌else◌, saturating_add, Result,
  ok, err,
}
use master_recovery.Collections.Map
use master_recovery.Collections.Map.{Map}
use master_recovery.Collections.Set
use master_recovery.Collections.Set.{Set}
use master_recovery.Types.Basic.{Id32}
use master_recovery.Types.Rotation.{is_direct_successor_of, RotationState}
use master_recovery.Types.Epoch.{GuardianEpochState, GuardianRecordV3, EpochActivationQc}
use master_recovery.Storage.{
  StorageError, conflict, invalid_epoch, replay, no_prepared_successor, not_durable,
  already_activated,
}
use master_recovery.Storage.Epoch.{
  RotationTombstone, DpssSessionJournal, PreparedGuardianEpoch, DrainingGuardianEpoch,
  GuardianEpochStore, with_epoch_state, Outcome,
}

unfoldable pub prepare_successor :
    GuardianEpochStore → Id32 → Id32 → GuardianRecordV3 → DpssSessionJournal → Outcome ℕ
prepare_successor s rotation_id plan_hash r journal =
    if Map.contains_key s.rotation_tombstones rotation_id
    then (s, err replay)
    else elim s.prepared [
      | some p ↦ (s, err conflict)
      | none ↦
          if not (is_direct_successor_of r.policy.config_ref s.expected_predecessor)
            || (r.policy.predecessor_capsule_hash != s.expected_predecessor_capsule_hash
                || (journal.rotation_id != rotation_id || journal.plan_hash != plan_hash))
          then (s, err invalid_epoch)
          else (
            record s {
              next_write_generation = saturating_add s.next_write_generation 1;
              prepared = some (record {
                rotation_id = rotation_id;
                plan_hash = plan_hash;
                record_v3 = with_epoch_state r GuardianEpochState.prepared;
                durable_write_generation = s.next_write_generation;
              });
              dpss_journal = some journal;
            },
            ok s.next_write_generation,
          )
    ]

unfoldable pub prepared_ack_generation : GuardianEpochStore → Id32 → Id32 → Result StorageError ℕ
prepared_ack_generation s rotation_id plan_hash = elim s.prepared [
  | none ↦ err no_prepared_successor
  | some p ↦
      if p.rotation_id != rotation_id || p.plan_hash != plan_hash
      then err conflict
      else if p.durable_write_generation == 0
      then err not_durable
      else ok p.durable_write_generation
]

abbrev pub rotation_tombstone : Id32 → Id32 → Id32 → RotationState → RotationTombstone
rotation_tombstone rotation_id plan_hash predecessor_capsule_hash terminal_state = record {
  rotation_id = rotation_id;
  plan_hash = plan_hash;
  predecessor_capsule_hash = predecessor_capsule_hash;
  terminal_state = terminal_state;
}

abbrev tombstone : GuardianEpochStore → Id32 → Id32 → Id32 → RotationState → Map RotationTombstone
tombstone s rotation_id plan_hash predecessor_capsule_hash terminal_state =
    Map.insert s.rotation_tombstones rotation_id
      (rotation_tombstone rotation_id plan_hash predecessor_capsule_hash terminal_state)

-- The entry of an old record that drains; `activation_qc_hash` is what becomes of that field of it.
abbrev pub draining_entry : GuardianRecordV3 → Id32 → Option Id32 → ℕ → Set → DrainingGuardianEpoch
draining_entry old capsule_hash activation_qc_hash drain_deadline pending_old_requests = record {
  record_v3 = record old {
    policy = record old.policy {
      epoch_state = GuardianEpochState.draining;
      drain_deadline = some drain_deadline;
      activation_qc_hash = activation_qc_hash;
    };
  };
  capsule_hash = capsule_hash;
  drain_deadline = drain_deadline;
  pending_request_ids = pending_old_requests;
}

-- The end of `activate_successor`, once the predecessor drains.
unfoldable pub install :
    GuardianEpochStore
    → PreparedGuardianEpoch
    → Id32
    → Id32
    → EpochActivationQc
    → Id32
    → GuardianEpochStore
install s p rotation_id plan_hash qc activation_qc_hash = record s {
  expected_predecessor = p.record_v3.policy.config_ref;
  expected_predecessor_capsule_hash = qc.successor_capsule_hash;
  active = some (record p.record_v3 {
    policy = record p.record_v3.policy {
      epoch_state = GuardianEpochState.active;
      activation_qc_hash = some activation_qc_hash;
    };
  });
  active_capsule_hash = some qc.successor_capsule_hash;
  prepared = none;
  activation_qc = some qc;
  dpss_journal = none;
  rotation_tombstones =
      tombstone s rotation_id plan_hash s.expected_predecessor_capsule_hash RotationState.active;
}

-- Where the active record has no hash, the failure leaves both it and the prepared record taken.
unfoldable pub activate_successor :
    GuardianEpochStore → Id32 → Id32 → EpochActivationQc → Id32 → ℕ → Set → Outcome (Unit {0})
unfolding install
activate_successor s rotation_id plan_hash qc activation_qc_hash drain_deadline
      pending_old_requests =
    elim s.prepared [
      | none ↦ (s, err no_prepared_successor)
      | some p ↦
          if p.rotation_id != rotation_id
            || (p.plan_hash != plan_hash
                || (qc.rotation_id != rotation_id
                    || (qc.predecessor_epoch != s.expected_predecessor.guardian_epoch
                        || (qc.predecessor_capsule_hash != s.expected_predecessor_capsule_hash
                            || qc.successor_epoch
                              != p.record_v3.policy.config_ref.guardian_epoch))))
          then (s, err invalid_epoch)
          else elim s.active [
            | some old ↦ elim s.active_capsule_hash [
              | none ↦ (record s { prepared = none; active = none }, err invalid_epoch)
              | some old_capsule_hash ↦ (
                install
                    (record s {
                      draining = Map.insert s.draining old.policy.config_ref.guardian_epoch (
                          draining_entry old old_capsule_hash old.policy.activation_qc_hash
                            drain_deadline pending_old_requests);
                    })
                    p rotation_id plan_hash qc activation_qc_hash,
                ok tt,
              )
            ]
            | none ↦
                if not (Set.is_empty pending_old_requests)
                then (s, err invalid_epoch)
                else (install s p rotation_id plan_hash qc activation_qc_hash, ok tt)
          ]
    ]

-- `activation_qc.as_ref().map(|qc| qc.rotation_id) == Some(rotation_id)`
abbrev is_activated : GuardianEpochStore → Id32 → Bool
is_activated s rotation_id = elim s.activation_qc [
  | some qc ↦ qc.rotation_id == rotation_id
  | none ↦ false
]

-- Whether another rotation, or another plan of this one, is prepared.
abbrev is_other_prepared : GuardianEpochStore → Id32 → Id32 → Bool
is_other_prepared s rotation_id plan_hash = elim s.prepared [
  | some p ↦ p.rotation_id != rotation_id || p.plan_hash != plan_hash
  | none ↦ false
]

unfoldable pub abort_prepared : GuardianEpochStore → Id32 → Id32 → Outcome (Unit {0})
abort_prepared s rotation_id plan_hash =
    if is_activated s rotation_id
    then (s, err already_activated)
    else if is_other_prepared s rotation_id plan_hash
    then (s, err conflict)
    else (
      record s {
        prepared = none;
        dpss_journal = none;
        rotation_tombstones =
            tombstone s rotation_id plan_hash s.expected_predecessor_capsule_hash
              RotationState.aborted;
      },
      ok tt,
    )

-- Where the active record has no hash, the failure leaves it taken.
unfoldable pub observe_replacement_activation :
    GuardianEpochStore → Id32 → Id32 → EpochActivationQc → Id32 → ℕ → Set → Outcome (Unit {0})
observe_replacement_activation s rotation_id plan_hash qc activation_qc_hash drain_deadline
      pending_old_requests =
    elim s.prepared [
      | some p ↦ (s, err conflict)
      | none ↦ elim s.active [
        | none ↦ (s, err conflict)
        | some old ↦
            if qc.rotation_id != rotation_id
              || (qc.predecessor_epoch != s.expected_predecessor.guardian_epoch
                  || (qc.predecessor_capsule_hash != s.expected_predecessor_capsule_hash
                      || qc.successor_epoch
                        != saturating_add s.expected_predecessor.guardian_epoch 1))
            then (s, err invalid_epoch)
            else elim s.active_capsule_hash [
              | none ↦ (record s { active = none }, err invalid_epoch)
              | some old_hash ↦ (
                record s {
                  active = none;
                  active_capsule_hash = none;
                  draining = Map.insert s.draining old.policy.config_ref.guardian_epoch (
                      draining_entry old old_hash (some activation_qc_hash) drain_deadline
                        pending_old_requests);
                  activation_qc = some qc;
                  dpss_journal = none;
                  rotation_tombstones =
                      tombstone s rotation_id plan_hash old_hash RotationState.draining;
                },
                ok tt,
              )
            ]
      ]
    ]
