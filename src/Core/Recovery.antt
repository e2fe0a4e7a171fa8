-- ===== src/Core/Recovery.antt =====
-- crates/gp-core/src/lib.rs: `RecoveryMachine`, the state machine of the recovering client.
pub mod Path
mod Tests
use master_recovery.Prelude.{
  ℕ, Option, none, some, List, [], ◌∷◌, leb, if◌then◌else◌, u64_max, saturating_add, Result, ok,
  err, Bool,
}
use master_recovery.Types.Recovery.{RecoveryState}

pub data RecoveryEvent : Type 0 where
  request_created approval_threshold_reached begin_accepted : RecoveryEvent
  release_certificate_ready guardian_threshold_reached : RecoveryEvent
  owner_cancel_observed expiry_reached : RecoveryEvent

pub data Action : Type 0 where
  request_signer_approvals decrypt_recovery_descriptor send_begin_certificate : Action
  wait_until : ℕ → Action
  request_release_votes request_guardian_contributions reconstruct_locally : Action
  refuse_release zeroize_recovery_secrets : Action

pub data CoreError : Type 0 where
  invalid_transition : RecoveryState → CoreError
  stale_configuration replay unknown_request delay_not_elapsed expired cancelled : CoreError
  fail_closed request_mismatch invalid_request : CoreError

pub record RecoveryMachine : Type 0 where
  pub state : RecoveryState
  pub not_before : Option ℕ

-- `unwrap_or(u64::MAX)`
abbrev pub deadline : Option ℕ → ℕ
deadline none = u64_max
deadline (some t) = t

abbrev pub default_machine : RecoveryMachine
default_machine = record { state = RecoveryState.created; not_before = none }

abbrev Outcome : Type 0
Outcome = RecoveryMachine × Result CoreError (List Action)

-- The two early returns of `apply` are the first two clauses, its `match` the others.
transition : RecoveryState → RecoveryEvent → RecoveryMachine → ℕ → ℕ → Outcome
transition RecoveryState.cancelled _ m now delay = (m, err CoreError.cancelled)
transition RecoveryState.expired _ m now delay = (m, err CoreError.expired)
transition RecoveryState.created request_created m now delay =
    (record m { state = RecoveryState.awaiting_approvals }, ok (request_signer_approvals ∷ []))
transition RecoveryState.awaiting_approvals approval_threshold_reached m now delay = (
  record m { state = RecoveryState.authorized },
  ok (decrypt_recovery_descriptor ∷ send_begin_certificate ∷ []),
)
transition RecoveryState.authorized begin_accepted m now delay =
    let not_before = saturating_add now delay in
    (
      record m { not_before = some not_before; state = RecoveryState.delay_pending },
      ok (wait_until not_before ∷ request_release_votes ∷ []),
    )
transition RecoveryState.delay_pending release_certificate_ready m now delay =
    if leb (deadline m.not_before) now
    then (record m { state = RecoveryState.releasing }, ok (request_guardian_contributions ∷ []))
    else (m, err (invalid_transition RecoveryState.delay_pending))
transition RecoveryState.releasing guardian_threshold_reached m now delay = (
  record m { state = RecoveryState.completed },
  ok (reconstruct_locally ∷ zeroize_recovery_secrets ∷ []),
)
transition RecoveryState.awaiting_approvals owner_cancel_observed m now delay = (
  record m { state = RecoveryState.cancelled },
  ok (refuse_release ∷ zeroize_recovery_secrets ∷ []),
)
transition RecoveryState.authorized owner_cancel_observed m now delay = (
  record m { state = RecoveryState.cancelled },
  ok (refuse_release ∷ zeroize_recovery_secrets ∷ []),
)
transition RecoveryState.delay_pending owner_cancel_observed m now delay = (
  record m { state = RecoveryState.cancelled },
  ok (refuse_release ∷ zeroize_recovery_secrets ∷ []),
)
transition _ expiry_reached m now delay = (
  record m { state = RecoveryState.expired },
  ok (refuse_release ∷ zeroize_recovery_secrets ∷ []),
)
transition from _ m now delay = (m, err (invalid_transition from))

pub apply : RecoveryMachine → RecoveryEvent → ℕ → ℕ → Outcome
unfolding transition
apply m event now delay = transition m.state event m now delay

-- One call of `apply`.
pub record Input : Type 0 where
  pub event : RecoveryEvent
  pub now : ℕ
  pub delay : ℕ

pub run : RecoveryMachine → List Input → RecoveryMachine
run m [] = m
run m (i ∷ is) = run (apply m i.event i.now i.delay).0 is
