-- ===== src/Core/Recovery/Tests.antt =====
-- Runs of the client's machine, and the theorems about it at concrete inputs.
use master_recovery.Prelude.{
  ◌≡◌, refl, inl, List, [], ◌∷◌, arith, some, ◌^◌, ◌-◌, saturating_add, err,
}
use master_recovery.Types.Recovery.{RecoveryState}
use master_recovery.Core.Recovery.{
  request_created, approval_threshold_reached, begin_accepted, release_certificate_ready,
  guardian_threshold_reached, owner_cancel_observed, expiry_reached, invalid_transition, CoreError,
  RecoveryMachine, default_machine, apply, Input, run,
}
use master_recovery.Core.Recovery.Path.{
  Course, completed-Course, recovery_apply_refused, terminal_absorbs, honest_run_completes,
}

-- The source's test `exact_state_sequence`, the release that comes too early among the inputs.
abbrev sequence : List Input
sequence =
    record { event = request_created; now = 0; delay = 10 }
    ∷ record { event = approval_threshold_reached; now = 1; delay = 10 }
    ∷ record { event = begin_accepted; now = 2; delay = 10 }
    ∷ record { event = release_certificate_ready; now = 11; delay = 10 }
    ∷ record { event = release_certificate_ready; now = 12; delay = 10 }
    ∷ record { event = guardian_threshold_reached; now = 13; delay = 10 }
    ∷ []

sequence_completes : (run default_machine sequence).state ≡ RecoveryState.completed
unfolding run apply saturating_add
sequence_completes = refl

completed-Course_example : Course RecoveryState.created (2 ^ 64 - 1) sequence
completed-Course_example = completed-Course default_machine sequence sequence_completes

honest_run_completes_example :
    (run default_machine (
      record { event = request_created; now = 0; delay = 10 }
      ∷ record { event = approval_threshold_reached; now = 1; delay = 10 }
      ∷ record { event = begin_accepted; now = 2; delay = 10 }
      ∷ record { event = release_certificate_ready; now = 12; delay = 10 }
      ∷ record { event = guardian_threshold_reached; now = 13; delay = 10 }
      ∷ [])).state
    ≡ RecoveryState.completed
unfolding saturating_add
honest_run_completes_example = honest_run_completes 0 1 2 10 12 13 10 10 10 10 (omega arith)

abbrev waiting : RecoveryMachine
waiting = record { state = RecoveryState.delay_pending; not_before = some 12 }

recovery_apply_refused_holds : (apply waiting release_certificate_ready 11 10).0 ≡ waiting
unfolding apply
recovery_apply_refused_holds =
    recovery_apply_refused waiting release_certificate_ready 11 10
      (invalid_transition RecoveryState.delay_pending) refl

abbrev stopped : RecoveryMachine
stopped = record { state = RecoveryState.cancelled; not_before = some 12 }

terminal_absorbs_holds :
    apply (run stopped sequence) expiry_reached 20 10 ≡ (stopped, err CoreError.cancelled)
terminal_absorbs_holds = terminal_absorbs stopped sequence expiry_reached 20 10 (inl refl)

-- A recovery that is complete still takes the expiry.
expiry_after_completion :
    (apply (run default_machine sequence) expiry_reached 100 10).0.state ≡ RecoveryState.expired
unfolding run apply saturating_add
expiry_after_completion = refl

cancel_waiting : (apply waiting owner_cancel_observed 3 10).0 ≡ stopped
unfolding apply
cancel_waiting = refl
