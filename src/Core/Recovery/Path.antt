-- ===== src/Core/Recovery/Path.antt =====
-- What a recovery has to go through: the client's machine against an abstract course of events.
use master_recovery.Prelude.{
  ℕ, ◌≡◌, refl, subst, ◌≤◌, ◌⊎◌, inl, inr, List, [], ◌∷◌, arith, saturating_add, err,
}
use master_recovery.Types.Recovery.{RecoveryState}
use master_recovery.Core.Recovery.{
  RecoveryEvent, request_created, approval_threshold_reached, begin_accepted,
  release_certificate_ready, guardian_threshold_reached, CoreError, RecoveryMachine, deadline,
  default_machine, apply, Input, run,
}

-- `Course s t is`: the inputs contain, in order, the events that lead from `s` to completion, the
-- release no earlier than `t`, or than the end of the delay if Begin is still to come.
pub data Course : RecoveryState → ℕ → List Input → Type 0 where
  arrived : {t : ℕ} {is : List Input} → Course RecoveryState.completed t is
  skips :
      {s : RecoveryState} {t : ℕ} {is : List Input} (i : Input)
      → Course s t is
      → Course s t (i ∷ is)
  requests :
      {t : ℕ} {is : List Input} (i : Input)
      → i.event ≡ request_created
      → Course RecoveryState.awaiting_approvals t is
      → Course RecoveryState.created t (i ∷ is)
  approves :
      {t : ℕ} {is : List Input} (i : Input)
      → i.event ≡ approval_threshold_reached
      → Course RecoveryState.authorized t is
      → Course RecoveryState.awaiting_approvals t (i ∷ is)
  begins :
      {t : ℕ} {is : List Input} (i : Input)
      → i.event ≡ begin_accepted
      → Course RecoveryState.delay_pending (saturating_add i.now i.delay) is
      → Course RecoveryState.authorized t (i ∷ is)
  releases :
      {t : ℕ} {is : List Input} (i : Input)
      → i.event ≡ release_certificate_ready
      → t ≤ i.now
      → Course RecoveryState.releasing t is
      → Course RecoveryState.delay_pending t (i ∷ is)
  completes :
      {t : ℕ} {is : List Input} (i : Input)
      → i.event ≡ guardian_threshold_reached
      → Course RecoveryState.completed t is
      → Course RecoveryState.releasing t (i ∷ is)

abbrev IsStopped : RecoveryState → Type 0
IsStopped s = (s ≡ RecoveryState.cancelled) ⊎ (s ≡ RecoveryState.expired)

-- The machine after a call, by the part of the course that the call makes.
abbrev Advance :
    RecoveryMachine
    → Input
    → RecoveryMachine
    → RecoveryState
    → RecoveryState
    → RecoveryEvent
    → Type 0
Advance m i m' s t e =
    (m.state ≡ s) × (i.event ≡ e) × (m'.state ≡ t) × (m'.not_before ≡ m.not_before)

abbrev Moves : RecoveryMachine → Input → RecoveryMachine → Type 0
Moves m i m' =
    (m' ≡ m)
    ⊎ (IsStopped m'.state
        ⊎ (Advance m i m' RecoveryState.created RecoveryState.awaiting_approvals request_created
            ⊎ (Advance m i m' RecoveryState.awaiting_approvals RecoveryState.authorized
                  approval_threshold_reached
                ⊎ ((m.state ≡ RecoveryState.authorized)
                      × (i.event ≡ begin_accepted)
                      × (m'.state ≡ RecoveryState.delay_pending)
                      × (deadline m'.not_before ≡ saturating_add i.now i.delay)
                    ⊎ ((deadline m.not_before ≤ i.now)
                          × Advance m i m' RecoveryState.delay_pending RecoveryState.releasing
                              release_certificate_ready
                        ⊎ Advance m i m' RecoveryState.releasing RecoveryState.completed
                            guardian_threshold_reached)))))

apply-Moves : (m : RecoveryMachine) (i : Input) → Moves m i (apply m i.event i.now i.delay).0
unfolding apply
apply-Moves m i = ground arith

-- A call that is refused leaves the machine as it was.
pub recovery_apply_refused :
    (m : RecoveryMachine) (e : RecoveryEvent) (now delay : ℕ) (x : CoreError)
    → (apply m e now delay).1 ≡ err x
    → (apply m e now delay).0 ≡ m
unfolding apply
recovery_apply_refused m e now delay x h = ground arith

-- One call puts its part, if any, before what the rest of the inputs makes of the course.
Course-apply :
    (m m' : RecoveryMachine) (i : Input) (is : List Input)
    → Moves m i m'
    → ¬ IsStopped m'.state
    → Course m'.state (deadline m'.not_before) is
    → Course m.state (deadline m.not_before) (i ∷ is)
Course-apply m m' i is (inl e) live c =
    skips i (subst (λ w. Course w.state (deadline w.not_before) is) e c)
Course-apply m m' i is (inr (inl stop)) live c = absurd (live stop)
Course-apply m m' i is (inr (inr (inl (s, e, t, d)))) live c =
    rw (s, ← d) (requests i e (rw t at c))
Course-apply m m' i is (inr (inr (inr (inl (s, e, t, d))))) live c =
    rw (s, ← d) (approves i e (rw t at c))
Course-apply m m' i is (inr (inr (inr (inr (inl (s, e, t, d)))))) live c =
    rw s (begins i e (rw (t, d) at c))
Course-apply m m' i is (inr (inr (inr (inr (inr (inl (late, (s, e, t, d)))))))) live c =
    rw s (releases i e late (rw (t, d) at c))
Course-apply m m' i is (inr (inr (inr (inr (inr (inr (s, e, t, d))))))) live c =
    rw (s, ← d) (completes i e (rw t at c))

stopped-apply :
    (m : RecoveryMachine) (i : Input) → IsStopped m.state → (apply m i.event i.now i.delay).0 ≡ m
unfolding apply
stopped-apply m i h = ground arith

run-IsStopped : (m : RecoveryMachine) (is : List Input) → IsStopped m.state → run m is ≡ m
unfolding run
run-IsStopped m [] h = refl
run-IsStopped m (i ∷ is) h = rw (stopped-apply m i h) (run-IsStopped m is h)

-- A recovery completes only by the whole course of events, in order: the request, the approval
-- threshold, Begin, a release no earlier than the end of Begin's delay, the guardian threshold.
pub completed-Course :
    (m : RecoveryMachine) (is : List Input)
    → (run m is).state ≡ RecoveryState.completed
    → Course m.state (deadline m.not_before) is
unfolding run
completed-Course m [] h = rw h arrived
completed-Course m (i ∷ is) h =
    Course-apply m m' i is (apply-Moves m i) live (completed-Course m' is h)
  where
    m' : RecoveryMachine
    m' = (apply m i.event i.now i.delay).0

    live : ¬ IsStopped m'.state
    live stop = ground (arith, run-IsStopped m' is stop)

abbrev pub stop_error : RecoveryState → CoreError
stop_error RecoveryState.cancelled = CoreError.cancelled
stop_error _ = CoreError.expired

-- Once a machine is cancelled or expired, every later event, after any others, is refused with
-- the error of that state and changes nothing.
pub terminal_absorbs :
    (m : RecoveryMachine) (is : List Input) (e : RecoveryEvent) (now delay : ℕ)
    → IsStopped m.state
    → apply (run m is) e now delay ≡ (m, err (stop_error m.state))
unfolding apply
terminal_absorbs m is e now delay h = rw (run-IsStopped m is h) (ground arith)

-- The five events in order, the release no earlier than the end of the delay, complete a recovery
-- from the start, whatever the other times.
pub honest_run_completes :
    (t₁ t₂ begun delay released t₃ d₁ d₂ d₃ d₄ : ℕ)
    → saturating_add begun delay ≤ released
    → (run default_machine (
        record { event = request_created; now = t₁; delay = d₁ }
        ∷ record { event = approval_threshold_reached; now = t₂; delay = d₂ }
        ∷ record { event = begin_accepted; now = begun; delay = delay }
        ∷ record { event = release_certificate_ready; now = released; delay = d₃ }
        ∷ record { event = guardian_threshold_reached; now = t₃; delay = d₄ }
        ∷ [])).state
      ≡ RecoveryState.completed
unfolding run apply
honest_run_completes t₁ t₂ begun delay released t₃ d₁ d₂ d₃ d₄ h = ground arith
