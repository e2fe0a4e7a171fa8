-- ===== src/Core/Rotation.antt =====
-- crates/gp-core/src/rotation.rs: `RotationMachine`, the replacement of one guardian epoch by the
-- next.
pub mod Course
pub mod Safety
mod Tests
use master_recovery.Prelude.{
  ℕ, Bool, true, false, ◌||◌, not, Option, none, some, List, [], ◌∷◌, ◌==◌, ◌!=◌, ltb,
  if◌then◌else◌, u64_max, saturating_add, Result, ok, err,
}
use master_recovery.Types.Basic.{Id32}
use master_recovery.Types.Rotation.{ConfigRef, is_direct_successor_of, RotationState}

pub data RotationEvent : Type 0 where
  -- monotonic_now, delay_secs, certificate_valid
  begin_accepted : ℕ → ℕ → Bool → RotationEvent
  -- monotonic_now, certificate_valid, state_unambiguous
  release_accepted : ℕ → Bool → Bool → RotationEvent
  -- prepared_count, expected_count, dpss_result_valid, fragments_valid
  preparation_complete : ℕ → ℕ → Bool → Bool → RotationEvent
  -- certificate_valid, exact_capsule
  activation_authorized : Bool → Bool → RotationEvent
  -- qc_valid, exact_successor, drain_deadline
  witness_qc_observed : Bool → Bool → ℕ → RotationEvent
  drain_started : RotationEvent
  drain_deadline_reached : ℕ → RotationEvent
  owner_cancel_observed abort_observed : Bool → RotationEvent
  conflict_observed : RotationEvent

pub data RotationAction : Type 0 where
  persist_begin_and_wait_until : ℕ → RotationAction
  begin_dpss_and_fragment_repair assemble_ready_certificate : RotationAction
  request_signer_activation submit_to_witnesses : RotationAction
  activate_successor_and_drain_old : ℕ → RotationAction
  refuse_new_old_epoch_begins retire_old_epoch abort_and_erase_prepared_state : RotationAction
  fail_closed : RotationAction

pub data RotationError : Type 0 where
  invalid_transition : RotationState → RotationError
  invalid_evidence delay_not_elapsed incomplete_preparation aborted fail_closed : RotationError
  invalid_successor predecessor_locked replay stale_epoch unknown_request : RotationError
  request_mismatch cancelled expired : RotationError

pub record RotationMachine : Type 0 where
  pub rotation_id : Id32
  pub plan_hash : Id32
  pub predecessor : ConfigRef
  pub successor : ConfigRef
  pub state : RotationState
  pub not_before : Option ℕ
  pub drain_deadline : Option ℕ
  pub tombstoned : Bool
  pub ambiguous : Bool

pub new : Id32 → Id32 → ConfigRef → ConfigRef → Result RotationError RotationMachine
new rotation_id plan_hash predecessor successor =
    if not (is_direct_successor_of successor predecessor)
    then err invalid_successor
    else ok (record {
      rotation_id = rotation_id;
      plan_hash = plan_hash;
      predecessor = predecessor;
      successor = successor;
      state = RotationState.proposed;
      not_before = none;
      drain_deadline = none;
      tombstoned = false;
      ambiguous = false;
    })

-- `unwrap_or(u64::MAX)`
abbrev pub deadline : Option ℕ → ℕ
deadline none = u64_max
deadline (some t) = t

abbrev pub Outcome : Type 0
Outcome = RotationMachine × Result RotationError (List RotationAction)

-- The states in which the owner's cancellation or an abort is taken.
abbrev pub is_abortable : RotationState → Bool
is_abortable RotationState.proposed = true
is_abortable RotationState.delay_pending = true
is_abortable RotationState.preparing = true
is_abortable RotationState.ready = true
is_abortable RotationState.activating = true
is_abortable _ = false

abort : RotationState → RotationMachine → Outcome
abort from m =
    if is_abortable from
    then (
      record m { state = RotationState.aborted; tombstoned = true },
      ok (abort_and_erase_prepared_state ∷ []),
    )
    else (m, err (invalid_transition from))

-- The `match` of `apply`, in its order.
dispatch : RotationState → RotationEvent → RotationMachine → Outcome
unfolding abort
dispatch RotationState.proposed (begin_accepted now delay true) m =
    let not_before = saturating_add now delay in
    (
      record m { state = RotationState.delay_pending; not_before = some not_before },
      ok (persist_begin_and_wait_until not_before ∷ []),
    )
dispatch RotationState.delay_pending (release_accepted now true true) m =
    if ltb now (deadline m.not_before)
    then (m, err delay_not_elapsed)
    else (record m { state = RotationState.preparing }, ok (begin_dpss_and_fragment_repair ∷ []))
dispatch RotationState.preparing (preparation_complete prepared expected true true) m =
    if expected == 0 || prepared != expected then (m, err incomplete_preparation) else (
      record m { state = RotationState.ready },
      ok (assemble_ready_certificate ∷ request_signer_activation ∷ []),
    )
dispatch RotationState.ready (activation_authorized true true) m =
    (record m { state = RotationState.activating }, ok (submit_to_witnesses ∷ []))
dispatch RotationState.activating (witness_qc_observed true true drain_deadline) m = (
  record m { state = RotationState.active; drain_deadline = some drain_deadline },
  ok (activate_successor_and_drain_old drain_deadline ∷ []),
)
dispatch RotationState.active drain_started m =
    (record m { state = RotationState.draining }, ok (refuse_new_old_epoch_begins ∷ []))
dispatch RotationState.draining (drain_deadline_reached now) m =
    if ltb now (deadline m.drain_deadline)
    then (m, err delay_not_elapsed)
    else (record m { state = RotationState.retired }, ok (retire_old_epoch ∷ []))
dispatch from (owner_cancel_observed true) m = abort from m
dispatch from (abort_observed true) m = abort from m
dispatch _ (begin_accepted now delay false) m = (m, err invalid_evidence)
dispatch _ (release_accepted now false unambiguous) m = (m, err invalid_evidence)
dispatch _ (release_accepted now valid false) m = (m, err invalid_evidence)
dispatch _ (preparation_complete prepared expected false fragments) m = (m, err invalid_evidence)
dispatch _ (preparation_complete prepared expected dpss false) m = (m, err invalid_evidence)
dispatch _ (activation_authorized false exact) m = (m, err invalid_evidence)
dispatch _ (activation_authorized valid false) m = (m, err invalid_evidence)
dispatch _ (witness_qc_observed false exact drain_deadline) m = (m, err invalid_evidence)
dispatch _ (witness_qc_observed valid false drain_deadline) m = (m, err invalid_evidence)
dispatch _ (owner_cancel_observed false) m = (m, err invalid_evidence)
dispatch _ (abort_observed false) m = (m, err invalid_evidence)
dispatch from _ m = (m, err (invalid_transition from))

abbrev is_conflict : RotationEvent → Bool
is_conflict conflict_observed = true
is_conflict _ = false

pub apply : RotationMachine → RotationEvent → Outcome
unfolding dispatch
apply m event =
    if m.ambiguous
    then (m, err RotationError.fail_closed)
    else if m.tombstoned
    then (m, err RotationError.aborted)
    else if is_conflict event
    then (record m { ambiguous = true }, ok (RotationAction.fail_closed ∷ []))
    else dispatch m.state event m

pub run : RotationMachine → List RotationEvent → RotationMachine
run m [] = m
run m (e ∷ es) = run (apply m e).0 es
