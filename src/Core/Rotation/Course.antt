-- ===== src/Core/Rotation/Course.antt =====
-- What a rotation has to go through, as an abstract course of events with valid evidence.
use master_recovery.Prelude.{
  ℕ, ◌≡◌, ◌≢◌, refl, sym, ap, ◌∙◌, ◌≤◌, ◌<◌, ◌⊎◌, inl, inr, true, List, [], ◌∷◌, arith,
  saturating_add,
}
use master_recovery.Types.Rotation.{RotationState}
use master_recovery.Core.Rotation.{
  owner_cancel_observed, abort_observed, conflict_observed, RotationEvent, begin_accepted,
  release_accepted, preparation_complete, activation_authorized, witness_qc_observed, drain_started,
  drain_deadline_reached, RotationMachine, deadline, apply, run,
}

-- `Course goal s t d es`: the events contain, in order, what leads from `s` to `goal`; a release
-- comes no earlier than `t`, or than the end of the delay if Begin is still to come, and the end
-- of draining no earlier than `d`, or than the deadline of the quorum certificate still to come.
pub data Course (goal : RotationState) : RotationState → ℕ → ℕ → List RotationEvent → Type 0 where
  arrived : {t d : ℕ} {es : List RotationEvent} → Course goal goal t d es
  skips :
      {s : RotationState} {t d : ℕ} {es : List RotationEvent} (e : RotationEvent)
      → Course goal s t d es
      → Course goal s t d (e ∷ es)
  begins :
      {t d : ℕ} {es : List RotationEvent} (now delay : ℕ)
      → Course goal RotationState.delay_pending (saturating_add now delay) d es
      → Course goal RotationState.proposed t d (begin_accepted now delay true ∷ es)
  releases :
      {t d : ℕ} {es : List RotationEvent} (now : ℕ)
      → t ≤ now
      → Course goal RotationState.preparing t d es
      → Course goal RotationState.delay_pending t d (release_accepted now true true ∷ es)
  prepares :
      {t d : ℕ} {es : List RotationEvent} (count : ℕ)
      → 0 < count
      → Course goal RotationState.ready t d es
      → Course goal RotationState.preparing t d (preparation_complete count count true true ∷ es)
  authorizes :
      {t d : ℕ} {es : List RotationEvent}
      → Course goal RotationState.activating t d es
      → Course goal RotationState.ready t d (activation_authorized true true ∷ es)
  activates :
      {t d : ℕ} {es : List RotationEvent} (drain : ℕ)
      → Course goal RotationState.active t drain es
      → Course goal RotationState.activating t d (witness_qc_observed true true drain ∷ es)
  drains :
      {t d : ℕ} {es : List RotationEvent}
      → Course goal RotationState.draining t d es
      → Course goal RotationState.active t d (drain_started ∷ es)
  retires :
      {t d : ℕ} {es : List RotationEvent} (now : ℕ)
      → d ≤ now
      → Course goal RotationState.retired t d es
      → Course goal RotationState.draining t d (drain_deadline_reached now ∷ es)

abbrev Turns : RotationMachine → RotationMachine → RotationState → RotationState → Type 0
Turns m m' s t = (m.state ≡ s) × (m'.state ≡ t)

abbrev KeepsStart : RotationMachine → RotationMachine → Type 0
KeepsStart m m' = m'.not_before ≡ m.not_before

abbrev KeepsDrain : RotationMachine → RotationMachine → Type 0
KeepsDrain m m' = m'.drain_deadline ≡ m.drain_deadline

abbrev Stays : RotationMachine → RotationMachine → Type 0
Stays m m' = (m'.state ≡ m.state) × KeepsStart m m' × KeepsDrain m m'

-- The part of the course that an event makes.
abbrev Makes : RotationEvent → RotationMachine → RotationMachine → Type 0
Makes (begin_accepted now delay valid) m m' =
    (valid ≡ true)
    × Turns m m' RotationState.proposed RotationState.delay_pending
    × (deadline m'.not_before ≡ saturating_add now delay)
    × KeepsDrain m m'
Makes (release_accepted now valid unambiguous) m m' =
    (valid ≡ true)
    × (unambiguous ≡ true)
    × Turns m m' RotationState.delay_pending RotationState.preparing
    × (deadline m.not_before ≤ now)
    × KeepsStart m m'
    × KeepsDrain m m'
Makes (preparation_complete prepared expected dpss fragments) m m' =
    (dpss ≡ true)
    × (fragments ≡ true)
    × (prepared ≡ expected)
    × (0 < expected)
    × Turns m m' RotationState.preparing RotationState.ready
    × KeepsStart m m'
    × KeepsDrain m m'
Makes (activation_authorized valid exact) m m' =
    (valid ≡ true)
    × (exact ≡ true)
    × Turns m m' RotationState.ready RotationState.activating
    × KeepsStart m m'
    × KeepsDrain m m'
Makes (witness_qc_observed valid exact drain) m m' =
    (valid ≡ true)
    × (exact ≡ true)
    × Turns m m' RotationState.activating RotationState.active
    × KeepsStart m m'
    × (deadline m'.drain_deadline ≡ drain)
Makes drain_started m m' =
    Turns m m' RotationState.active RotationState.draining × KeepsStart m m' × KeepsDrain m m'
Makes (drain_deadline_reached now) m m' =
    Turns m m' RotationState.draining RotationState.retired
    × (deadline m.drain_deadline ≤ now)
    × KeepsStart m m'
    × KeepsDrain m m'
Makes _ m m' = ⊥

abbrev IsAborted : RotationMachine → Type 0
IsAborted m = (m.state ≡ RotationState.aborted) × (m.tombstoned ≡ true)

abbrev Moves : RotationEvent → RotationMachine → RotationMachine → Type 0
Moves e m m' = Stays m m' ⊎ (IsAborted m' ⊎ Makes e m m')

apply-Moves : (m : RotationMachine) (e : RotationEvent) → Moves e m (apply m e).0
unfolding apply
apply-Moves m (begin_accepted now delay valid) = ground arith
apply-Moves m _ = ground arith

module _ {goal : RotationState} (m m' : RotationMachine) {es : List RotationEvent}
    (c : Course goal m'.state (deadline m'.not_before) (deadline m'.drain_deadline) es) where
  Course-Stays :
      (e : RotationEvent)
      → Stays m m'
      → Course goal m.state (deadline m.not_before) (deadline m.drain_deadline) (e ∷ es)
  Course-Stays e (s, t, d) = skips e (rw (s, t, d) at c)

  -- The event that makes a part of the course comes before the rest of it.
  Course-Makes :
      (e : RotationEvent)
      → Makes e m m'
      → Course goal m.state (deadline m.not_before) (deadline m.drain_deadline) (e ∷ es)
  Course-Makes (begin_accepted now delay valid) (v, (s, s'), t, d) =
      rw (s, v) (begins now delay (rw (s', t, d) at c))
  Course-Makes (release_accepted now valid unambiguous) (v, u, (s, s'), late, t, d) =
      rw (s, v, u) (releases now late (rw (s', t, d) at c))
  Course-Makes (preparation_complete prepared expected dpss fragments)
        (v, u, n, pos, (s, s'), t, d) =
      rw (s, v, u, n) (prepares expected pos (rw (s', t, d) at c))
  Course-Makes (activation_authorized valid exact) (v, u, (s, s'), t, d) =
      rw (s, v, u) (authorizes (rw (s', t, d) at c))
  Course-Makes (witness_qc_observed valid exact drain) (v, u, (s, s'), t, d) =
      rw (s, v, u) (activates drain (rw (s', t, d) at c))
  Course-Makes drain_started ((s, s'), t, d) = rw s (drains (rw (s', t, d) at c))
  Course-Makes (drain_deadline_reached now) ((s, s'), late, t, d) =
      rw s (retires now late (rw (s', t, d) at c))
  Course-Makes (owner_cancel_observed valid) h = absurd h
  Course-Makes (abort_observed valid) h = absurd h
  Course-Makes conflict_observed h = absurd h

tombstoned-apply :
    (m : RotationMachine) (e : RotationEvent) → m.tombstoned ≡ true → (apply m e).0 ≡ m
unfolding apply
tombstoned-apply m e h = ground arith

pub run_tombstoned :
    (m : RotationMachine) (es : List RotationEvent) → m.tombstoned ≡ true → run m es ≡ m
unfolding run
run_tombstoned m [] h = refl
run_tombstoned m (e ∷ es) h = rw (tombstoned-apply m e h) (run_tombstoned m es h)

Course-Moves :
    {goal : RotationState} (m m' : RotationMachine) (e : RotationEvent) (es : List RotationEvent)
    → goal ≢ RotationState.aborted
    → (run m' es).state ≡ goal
    → (m'.tombstoned ≡ true → run m' es ≡ m')
    → Moves e m m'
    → Course goal m'.state (deadline m'.not_before) (deadline m'.drain_deadline) es
    → Course goal m.state (deadline m.not_before) (deadline m.drain_deadline) (e ∷ es)
Course-Moves m m' e es live h kept (inl same) rest = Course-Stays m m' rest e same
Course-Moves m m' e es live h kept (inr (inl (dead, buried))) rest =
    absurd (live (sym h ∙ ap (λ w. w.state) (kept buried) ∙ dead))
Course-Moves m m' e es live h kept (inr (inr part)) rest = Course-Makes m m' rest e part

-- A rotation comes to a state other than Aborted only by the whole course of events that leads
-- there, in order and each with valid evidence: Begin, a release after its delay, the preparation
-- of a positive number of records, all those expected, the activation, the witnesses' quorum
-- certificate, draining, and the drain deadline.
pub reached-Course :
    (m : RotationMachine) (es : List RotationEvent) (goal : RotationState)
    → goal ≢ RotationState.aborted
    → (run m es).state ≡ goal
    → Course goal m.state (deadline m.not_before) (deadline m.drain_deadline) es
unfolding run
reached-Course m [] goal live h = rw h arrived
reached-Course m (e ∷ es) goal live h =
    Course-Moves m (apply m e).0 e es live h (run_tombstoned (apply m e).0 es) (apply-Moves m e)
      (reached-Course (apply m e).0 es goal live h)
