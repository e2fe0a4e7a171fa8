-- ===== src/Core/Rotation/Tests.antt =====
-- Runs of a rotation, and the theorems about it at concrete inputs.
use master_recovery.Prelude.{
  ℕ, ◌≡◌, refl, inl, ◌^◌, ◌-◌, true, false, none, List, [], ◌∷◌, saturating_add, ok, err,
}
use master_recovery.Types.Rotation.{ConfigRef, is_direct_successor_of, RotationState}
use master_recovery.Core.Rotation.{
  RotationEvent, begin_accepted, release_accepted, preparation_complete, activation_authorized,
  witness_qc_observed, drain_started, drain_deadline_reached, owner_cancel_observed,
  conflict_observed, RotationError, invalid_transition, RotationMachine, new, apply, run,
}
use master_recovery.Core.Rotation.Course.{Course, reached-Course}
use master_recovery.Core.Rotation.Safety.{
  IsConsistent, SamePlan, run-new-IsConsistent, rotation_apply_refused, conflict_fails_closed,
  abort_final,
}

abbrev config : ℕ → ℕ → ConfigRef
config epoch marker = record {
  config_id = 1;
  payload_generation = 1;
  authorization_epoch = 1;
  guardian_epoch = epoch;
  epoch_binding = marker;
}

abbrev machine : RotationMachine
machine = record {
  rotation_id = 7;
  plan_hash = 8;
  predecessor = config 1 1;
  successor = config 2 2;
  state = RotationState.proposed;
  not_before = none;
  drain_deadline = none;
  tombstoned = false;
  ambiguous = false;
}

machine_is_new : new 7 8 (config 1 1) (config 2 2) ≡ ok machine
unfolding new is_direct_successor_of saturating_add
machine_is_new = refl

-- The source's `exact_rotation_transition_table_has_no_activation_shortcut`, its refused events
-- among the others.
abbrev table : List RotationEvent
table =
    activation_authorized true true
    ∷ begin_accepted 100 20 true
    ∷ release_accepted 119 true true
    ∷ release_accepted 120 true true
    ∷ preparation_complete 8 8 true true
    ∷ activation_authorized true true
    ∷ witness_qc_observed true true 200
    ∷ drain_started
    ∷ drain_deadline_reached 200
    ∷ []

table_retires : (run machine table).state ≡ RotationState.retired
unfolding run apply saturating_add
table_retires = refl

shortcut_refused :
    (apply machine (activation_authorized true true)).1
    ≡ err (invalid_transition RotationState.proposed)
unfolding apply
shortcut_refused = refl

reached-Course_example :
    Course RotationState.retired RotationState.proposed (2 ^ 64 - 1) (2 ^ 64 - 1) table
reached-Course_example = reached-Course machine table RotationState.retired (λ e. cc) table_retires

run-new-IsConsistent_example :
    IsConsistent (run machine table) × SamePlan machine (run machine table)
run-new-IsConsistent_example =
    run-new-IsConsistent 7 8 (config 1 1) (config 2 2) machine table machine_is_new

rotation_apply_refused_holds : (apply machine (activation_authorized true true)).0 ≡ machine
rotation_apply_refused_holds =
    rotation_apply_refused machine (activation_authorized true true)
      (invalid_transition RotationState.proposed) shortcut_refused

conflict_fails_closed_example :
    let m' = record machine { ambiguous = true } in
    (run (apply machine conflict_observed).0 table ≡ m')
    × (apply m' drain_started ≡ (m', err RotationError.fail_closed))
conflict_fails_closed_example = conflict_fails_closed machine table drain_started refl refl

abort_final_example :
    let m' = run (apply machine (owner_cancel_observed true)).0 table in
    (m'.state ≡ RotationState.aborted) × (apply m' drain_started ≡ (m', err RotationError.aborted))
abort_final_example =
    abort_final machine (owner_cancel_observed true) drain_started table (inl refl) refl refl refl
