-- ===== src/Core/Guardian.antt =====
-- crates/gp-core/src/lib.rs: `GuardianMachine`, one guardian's view of the recovery requests of
-- one configuration.
pub mod History
pub mod Agreement
pub mod Answers
pub mod Permanence
mod Tests
use master_recovery.Prelude.{
  ℕ, Bool, ◌||◌, ◌&&◌, not, Option, none, some, ◌==◌, ◌!=◌, leb, ltb, if◌then◌else◌, saturating_add,
  Result, ok, err,
}
use master_recovery.Collections.Map
use master_recovery.Collections.Map.{Map}
use master_recovery.Collections.Set
use master_recovery.Collections.Set.{Set}
use master_recovery.Types.Basic.{Id32, current_protocol_version}
use master_recovery.Types.Recovery.{
  RecoveryState, RecoveryRequest, PendingRecovery, delay_pending, releasing,
}
use master_recovery.Core.Recovery.{
  CoreError, stale_configuration, replay, unknown_request, delay_not_elapsed, fail_closed,
  request_mismatch, invalid_request,
}

pub record GuardianPending : Type 0 where
  pub pending : PendingRecovery
  pub request_digest : Id32
  pub expiry : ℕ

pub record GuardianMachine : Type 0 where
  pub config_id : Id32
  pub current_version : ℕ
  pub seen : Set
  pub seen_nonces : Set
  pub pending : Map GuardianPending
  pub cancelled : Map Id32

pub new : Id32 → ℕ → GuardianMachine
new config_id current_version = record {
  config_id = config_id;
  current_version = current_version;
  seen = Set.empty;
  seen_nonces = Set.empty;
  pending = Map.empty;
  cancelled = Map.empty;
}

-- `validate_request` as its test: true where it returns `StaleConfiguration`.
is_stale : GuardianMachine → RecoveryRequest → Bool
is_stale m request =
    request.protocol_version != current_protocol_version
    || (request.config_id != m.config_id || request.config_version != m.current_version)

pub validate_request : GuardianMachine → RecoveryRequest → Result CoreError (Unit {0})
unfolding is_stale
validate_request m request = if is_stale m request then err stale_configuration else ok tt

-- The entry that `begin_at` stores.
pub new_entry : RecoveryRequest → Id32 → ℕ → ℕ → GuardianPending
new_entry request request_digest monotonic_now not_before = record {
  pending = record {
    request_id = request.request_id;
    config_id = request.config_id;
    config_version = request.config_version;
    recipient = request.recovery_recipient_key;
    started_at_monotonic = monotonic_now;
    not_before = not_before;
    state = delay_pending;
  };
  request_digest = request_digest;
  expiry = request.expiry;
}

-- A request that was cancelled before: the same digest, or another.
abbrev pub tombstone_error : Id32 → Id32 → CoreError
tombstone_error cancelled_digest request_digest =
    if cancelled_digest == request_digest then CoreError.cancelled else request_mismatch

pub begin_at :
    GuardianMachine
    → RecoveryRequest
    → Id32
    → ℕ
    → ℕ
    → ℕ
    → Bool
    → GuardianMachine × Result CoreError ℕ
unfolding validate_request new_entry
begin_at m request request_digest wall_now monotonic_now delay certificate_valid =
    elim (validate_request m request) [
      | err e ↦ (m, err e)
      | ok _ ↦
          if not certificate_valid
          then (m, err fail_closed)
          else if ltb wall_now request.requested_at
          then (m, err invalid_request)
          else if leb request.expiry wall_now
          then (m, err CoreError.expired)
          else elim (Map.get m.cancelled request.request_id) [
            | some cancelled_digest ↦ (m, err (tombstone_error cancelled_digest request_digest))
            | none ↦
                if Set.contains m.seen request.request_id
                  || Set.contains m.seen_nonces request.nonce
                then (m, err replay)
                else let not_before = saturating_add monotonic_now delay in
                  (
                    record m {
                      seen = Set.insert m.seen request.request_id;
                      seen_nonces = Set.insert m.seen_nonces request.nonce;
                      pending =
                          Map.insert m.pending request.request_id
                            (new_entry request request_digest monotonic_now not_before);
                    },
                    ok not_before,
                  )
          ]
    ]

-- `begin`: one clock for both.
pub begin :
    GuardianMachine → RecoveryRequest → Id32 → ℕ → ℕ → Bool → GuardianMachine × Result CoreError ℕ
begin m request request_digest now delay certificate_valid =
    begin_at m request request_digest now now delay certificate_valid

-- The entry with another state, as `get_mut` writes it.
abbrev pub with_state : GuardianPending → RecoveryState → GuardianPending
with_state p s = record p { pending = record p.pending { state = s } }

pub cancel : GuardianMachine → Id32 → Id32 → Bool → GuardianMachine × Result CoreError (Unit {0})
cancel m request_id request_digest certificate_valid =
    if not certificate_valid then (m, err fail_closed) else elim (Map.get m.cancelled request_id) [
      | some cancelled_digest ↦
          if cancelled_digest == request_digest then (m, ok tt) else (m, err request_mismatch)
      | none ↦ elim (Map.get m.pending request_id) [
        | some p ↦ if p.request_digest != request_digest then (m, err request_mismatch) else (
          record m {
            pending = Map.insert m.pending request_id (with_state p RecoveryState.cancelled);
            cancelled = Map.insert m.cancelled request_id request_digest;
          },
          ok tt,
        )
        | none ↦ (record m { cancelled = Map.insert m.cancelled request_id request_digest }, ok tt)
      ]
    ]

pub authorize_release_at :
    GuardianMachine
    → Id32
    → Id32
    → ℕ
    → ℕ
    → Bool
    → Bool
    → GuardianMachine × Result CoreError (Unit {0})
authorize_release_at m request_id request_digest wall_now monotonic_now certificate_valid
      unambiguous =
    elim (Map.get m.cancelled request_id) [
      | some cancelled_digest ↦ (m, err (tombstone_error cancelled_digest request_digest))
      | none ↦
          if not certificate_valid || not unambiguous
          then (m, err fail_closed)
          else elim (Map.get m.pending request_id) [
            | none ↦ (m, err unknown_request)
            | some p ↦
                if p.request_digest != request_digest
                then (m, err request_mismatch)
                else if leb p.expiry wall_now
                then (
                  record m {
                    pending = Map.insert m.pending request_id (with_state p RecoveryState.expired);
                  },
                  err CoreError.expired,
                )
                else if ltb monotonic_now p.pending.not_before
                then (m, err delay_not_elapsed)
                else (
                  record m { pending = Map.insert m.pending request_id (with_state p releasing) },
                  ok tt,
                )
          ]
    ]

-- `authorize_release`: one clock for both.
pub authorize_release :
    GuardianMachine → Id32 → Id32 → ℕ → Bool → Bool → GuardianMachine × Result CoreError (Unit {0})
authorize_release m request_id request_digest now certificate_valid unambiguous =
    authorize_release_at m request_id request_digest now now certificate_valid unambiguous

pub state : GuardianMachine → Id32 → Option RecoveryState
state m request_id =
    if Map.contains_key m.cancelled request_id
    then some RecoveryState.cancelled
    else elim (Map.get m.pending request_id) [ none ↦ none | some p ↦ some p.pending.state ]
