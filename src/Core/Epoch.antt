-- ===== src/Core/Epoch.antt =====
-- crates/gp-core/src/rotation.rs: `EpochRecoveryMachine`, recovery requests bound to guardian
-- epochs: new ones only on the active epoch, old ones until their draining epoch is retired.
pub mod History
pub mod Agreement
pub mod Release
pub mod Retire
pub mod Permanence
mod Tests
use master_recovery.Prelude.{
  ℕ, Bool, true, false, ◌||◌, ◌&&◌, not, Option, none, some, ◌==◌, ◌!=◌, ltb, leb, if◌then◌else◌,
  saturating_add, Result, ok, err,
}
use master_recovery.Collections.Map
use master_recovery.Collections.Map.{Map}
use master_recovery.Collections.Set
use master_recovery.Collections.Set.{Set}
use master_recovery.Types.Basic.{Id32}
use master_recovery.Types.Recovery.{RecoveryState}
use master_recovery.Types.Rotation.{
  ConfigRef, same_config_ref, is_direct_successor_of, RecoveryRequestV3,
}
use master_recovery.Core.Rotation.{
  RotationError, invalid_evidence, delay_not_elapsed, invalid_successor, replay, stale_epoch,
  unknown_request, request_mismatch,
}

pub record PendingEpochRecovery : Type 0 where
  pub config_ref : ConfigRef
  pub request_digest : Id32
  pub nonce : Id32
  pub not_before : ℕ
  pub expiry : ℕ
  pub state : RecoveryState

pub record EpochRecoveryMachine : Type 0 where
  pub active : ConfigRef
  pub draining : Map ℕ
  pub pending : Map PendingEpochRecovery
  pub seen_request_ids : Set
  pub seen_nonces : Set
  pub cancelled : Map Id32

pub record EpochReleaseAuthorization : Type 0 where
  pub request_id : Id32
  pub request_digest : Id32
  pub config_ref : ConfigRef
  pub wall_now : ℕ
  pub monotonic_now : ℕ
  pub certificate_valid : Bool
  pub state_unambiguous : Bool

pub new : ConfigRef → EpochRecoveryMachine
new active = record {
  active = active;
  draining = Map.empty;
  pending = Map.empty;
  seen_request_ids = Set.empty;
  seen_nonces = Set.empty;
  cancelled = Map.empty;
}

-- A request that was cancelled before: the same digest, or another.
abbrev pub tombstone_error : Id32 → Id32 → RotationError
tombstone_error cancelled_digest request_digest =
    if cancelled_digest == request_digest then RotationError.cancelled else request_mismatch

-- The entry that `begin` stores.
pub new_entry : RecoveryRequestV3 → Id32 → ℕ → PendingEpochRecovery
new_entry request request_digest not_before = record {
  config_ref = request.config_ref;
  request_digest = request_digest;
  nonce = request.nonce;
  not_before = not_before;
  expiry = request.expiry;
  state = RecoveryState.delay_pending;
}

-- The identifier is inserted before the nonce is looked at, and stays if the nonce is old.
pub begin :
    EpochRecoveryMachine
    → RecoveryRequestV3
    → Id32
    → ℕ
    → ℕ
    → ℕ
    → Bool
    → EpochRecoveryMachine × Result RotationError ℕ
unfolding new_entry
begin m request request_digest wall_now monotonic_now delay_secs certificate_valid =
    if not certificate_valid
    then (m, err invalid_evidence)
    else if not (same_config_ref request.config_ref m.active)
    then (m, err stale_epoch)
    else if ltb wall_now request.requested_at || leb request.expiry wall_now
    then (m, err RotationError.expired)
    else elim (Map.get m.cancelled request.request_id) [
      | some cancelled_digest ↦ (m, err (tombstone_error cancelled_digest request_digest))
      | none ↦
          if Set.contains m.seen_request_ids request.request_id
          then (m, err replay)
          else let m₁ = record m {
            seen_request_ids = Set.insert m.seen_request_ids request.request_id;
          } in
            if Set.contains m.seen_nonces request.nonce
            then (m₁, err replay)
            else let not_before = saturating_add monotonic_now delay_secs in
              (
                record m₁ {
                  seen_nonces = Set.insert m.seen_nonces request.nonce;
                  pending =
                      Map.insert m.pending request.request_id
                        (new_entry request request_digest not_before);
                },
                ok not_before,
              )
    ]

pub activate_successor :
    EpochRecoveryMachine
    → ConfigRef
    → ℕ
    → Bool
    → EpochRecoveryMachine × Result RotationError (Unit {0})
activate_successor m successor drain_deadline qc_valid =
    if not qc_valid
    then (m, err invalid_evidence)
    else if not (is_direct_successor_of successor m.active)
    then (m, err invalid_successor)
    else (
      record m {
        draining = Map.insert m.draining m.active.guardian_epoch drain_deadline;
        active = successor;
      },
      ok tt,
    )

abbrev pub with_state : PendingEpochRecovery → RecoveryState → PendingEpochRecovery
with_state p s = record p { state = s }

pub authorize_release :
    EpochRecoveryMachine
    → EpochReleaseAuthorization
    → EpochRecoveryMachine × Result RotationError (Unit {0})
authorize_release m a =
    if not a.certificate_valid || not a.state_unambiguous
    then (m, err invalid_evidence)
    else elim (Map.get m.cancelled a.request_id) [
      | some cancelled_digest ↦ (m, err (tombstone_error cancelled_digest a.request_digest))
      | none ↦ elim (Map.get m.pending a.request_id) [
        | none ↦ (m, err unknown_request)
        | some p ↦
            if p.request_digest != a.request_digest
              || not (same_config_ref p.config_ref a.config_ref)
            then (m, err request_mismatch)
            else if not (same_config_ref a.config_ref m.active)
                && not (Map.contains_key m.draining a.config_ref.guardian_epoch)
            then (m, err stale_epoch)
            else if leb p.expiry a.wall_now
            then (
              record m {
                pending = Map.insert m.pending a.request_id (with_state p RecoveryState.expired);
              },
              err RotationError.expired,
            )
            else if ltb a.monotonic_now p.not_before
            then (m, err delay_not_elapsed)
            else (
              record m {
                pending = Map.insert m.pending a.request_id (with_state p RecoveryState.releasing);
              },
              ok tt,
            )
      ]
    ]

pub cancel :
    EpochRecoveryMachine
    → Id32
    → Id32
    → Bool
    → EpochRecoveryMachine × Result RotationError (Unit {0})
cancel m request_id request_digest certificate_valid =
    if not certificate_valid
    then (m, err invalid_evidence)
    else elim (Map.get m.cancelled request_id) [
      | some existing ↦ if existing == request_digest then (m, ok tt) else (m, err request_mismatch)
      | none ↦ elim (Map.get m.pending request_id) [
        | some p ↦ if p.request_digest != request_digest then (m, err request_mismatch) else (
          record m {
            pending = Map.insert m.pending request_id (with_state p RecoveryState.cancelled);
            cancelled = Map.insert m.cancelled request_id request_digest;
          },
          ok tt,
        )
        | none ↦ (record m { cancelled = Map.insert m.cancelled request_id request_digest }, ok tt)
      ]
    ]

-- The states that keep a draining epoch from being retired.
abbrev pub is_unfinished : RecoveryState → Bool
is_unfinished RecoveryState.delay_pending = true
is_unfinished RecoveryState.releasing = true
is_unfinished _ = false

abbrev pub holds_epoch : ℕ → PendingEpochRecovery → Bool
holds_epoch guardian_epoch p =
    p.config_ref.guardian_epoch == guardian_epoch && is_unfinished p.state

pub retire_draining_epoch :
    EpochRecoveryMachine → ℕ → ℕ → EpochRecoveryMachine × Result RotationError (Unit {0})
retire_draining_epoch m guardian_epoch monotonic_now = elim (Map.get m.draining guardian_epoch) [
  | none ↦ (m, err stale_epoch)
  | some deadline ↦
      if ltb monotonic_now deadline
      then (m, err delay_not_elapsed)
      else if Map.any_value (holds_epoch guardian_epoch) m.pending
      then (m, err RotationError.fail_closed)
      else (record m { draining = Map.remove m.draining guardian_epoch }, ok tt)
]

pub state : EpochRecoveryMachine → Id32 → Option RecoveryState
state m request_id =
    if Map.contains_key m.cancelled request_id
    then some RecoveryState.cancelled
    else elim (Map.get m.pending request_id) [ none ↦ none | some p ↦ some p.state ]

pub request_nonce : EpochRecoveryMachine → Id32 → Option Id32
request_nonce m request_id = elim (Map.get m.pending request_id) [
  | none ↦ none
  | some p ↦ some p.nonce
]
