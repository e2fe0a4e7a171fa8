-- ===== src/Core/Rotation/Safety.antt =====
-- Failing closed, tombstones, refusals, and the invariant of the rotation machine.
use master_recovery.Prelude.{
  ℕ, ◌≡◌, refl, ap, ◌∙◌, ◌⊎◌, Bool, true, false, Option, none, some, List, [], ◌∷◌, arith, ok, err,
}
use master_recovery.Types.Basic.{Id32}
use master_recovery.Types.Rotation.{ConfigRef, is_direct_successor_of, RotationState}
use master_recovery.Core.Rotation.{
  RotationEvent, owner_cancel_observed, abort_observed, conflict_observed, RotationError,
  RotationMachine, new, is_abortable, apply, run,
}
use master_recovery.Core.Rotation.Course.{run_tombstoned}

abbrev pub is_some : Option ℕ → Bool
is_some none = false
is_some (some t) = true

abbrev pub is_aborted : RotationState → Bool
is_aborted RotationState.aborted = true
is_aborted _ = false

-- The states after the witnesses' quorum certificate.
abbrev pub is_activated : RotationState → Bool
is_activated RotationState.active = true
is_activated RotationState.draining = true
is_activated RotationState.retired = true
is_activated _ = false

-- The states that lie behind an accepted Begin for certain; an abort may come before it.
abbrev pub is_begun : RotationState → Bool
is_begun RotationState.proposed = false
is_begun RotationState.aborted = false
is_begun _ = true

pub record IsConsistent (m : RotationMachine) : Type 0 where
  pub tombstone_exact : m.tombstoned ≡ is_aborted m.state
  pub drain_exact : is_some m.drain_deadline ≡ is_activated m.state
  pub start_known : is_begun m.state ≡ true → is_some m.not_before ≡ true
  pub start_unknown : m.state ≡ RotationState.proposed → m.not_before ≡ none
  pub successor_direct : is_direct_successor_of m.successor m.predecessor ≡ true

new-IsConsistent :
    (rotation_id plan_hash : Id32) (predecessor successor : ConfigRef) {m : RotationMachine}
    → new rotation_id plan_hash predecessor successor ≡ ok m
    → IsConsistent m
unfolding new
new-IsConsistent rotation_id plan_hash predecessor successor h = ground arith

apply-IsConsistent :
    (m : RotationMachine) (e : RotationEvent) → IsConsistent m → IsConsistent (apply m e).0
unfolding apply
apply-IsConsistent m (owner_cancel_observed valid) h = ground arith
apply-IsConsistent m _ h = ground arith

run-IsConsistent :
    (m : RotationMachine) (es : List RotationEvent) → IsConsistent m → IsConsistent (run m es)
unfolding run
run-IsConsistent m [] h = h
run-IsConsistent m (e ∷ es) h = run-IsConsistent (apply m e).0 es (apply-IsConsistent m e h)

-- The plan of a rotation, which no event changes.
abbrev pub SamePlan : RotationMachine → RotationMachine → Type 0
SamePlan m m' =
    (m'.rotation_id ≡ m.rotation_id)
    × (m'.plan_hash ≡ m.plan_hash)
    × (m'.predecessor ≡ m.predecessor)
    × (m'.successor ≡ m.successor)

SamePlan-apply : (m : RotationMachine) (e : RotationEvent) → SamePlan m (apply m e).0
unfolding apply
SamePlan-apply m (owner_cancel_observed valid) = ground arith
SamePlan-apply m _ = ground arith

SamePlan-trans : (a b c : RotationMachine) → SamePlan a b → SamePlan b c → SamePlan a c
SamePlan-trans a b c (p, q, r, s) (p', q', r', s') = (p' ∙ p, q' ∙ q, r' ∙ r, s' ∙ s)

SamePlan-run : (m : RotationMachine) (es : List RotationEvent) → SamePlan m (run m es)
unfolding run
SamePlan-run m [] = (refl, refl, refl, refl)
SamePlan-run m (e ∷ es) =
    SamePlan-trans m (apply m e).0 (run (apply m e).0 es) (SamePlan-apply m e)
      (SamePlan-run (apply m e).0 es)

-- After any events, a machine that `new` made keeps its plan, is tombstoned exactly when Aborted,
-- has a drain deadline exactly from the activation on, and has a start of the release window once
-- it is past Begin.
pub run-new-IsConsistent :
    (rotation_id plan_hash : Id32) (predecessor successor : ConfigRef) (m : RotationMachine)
    (es : List RotationEvent)
    → new rotation_id plan_hash predecessor successor ≡ ok m
    → IsConsistent (run m es) × SamePlan m (run m es)
run-new-IsConsistent rotation_id plan_hash predecessor successor m es h = (
  run-IsConsistent m es (new-IsConsistent rotation_id plan_hash predecessor successor h),
  SamePlan-run m es,
)

-- A refused event leaves the machine as it was.
pub rotation_apply_refused :
    (m : RotationMachine) (e : RotationEvent) (x : RotationError)
    → (apply m e).1 ≡ err x
    → (apply m e).0 ≡ m
unfolding apply
rotation_apply_refused m (owner_cancel_observed valid) x h = ground arith
rotation_apply_refused m _ x h = ground arith

ambiguous-apply :
    (m : RotationMachine) (e : RotationEvent)
    → m.ambiguous ≡ true
    → apply m e ≡ (m, err RotationError.fail_closed)
unfolding apply
ambiguous-apply m e h = ground arith

run_ambiguous : (m : RotationMachine) (es : List RotationEvent) → m.ambiguous ≡ true → run m es ≡ m
unfolding run
run_ambiguous m [] h = refl
run_ambiguous m (e ∷ es) h = rw (ap (λ r. r.0) (ambiguous-apply m e h)) (run_ambiguous m es h)

-- A conflict observed by a machine that is neither ambiguous nor tombstoned closes it for good:
-- every later event, after any others, is refused with FailClosed and changes nothing.
pub conflict_fails_closed :
    (m : RotationMachine) (es : List RotationEvent) (e : RotationEvent)
    → m.ambiguous ≡ false
    → m.tombstoned ≡ false
    → let m' = record m { ambiguous = true } in
      (run (apply m conflict_observed).0 es ≡ m')
      × (apply m' e ≡ (m', err RotationError.fail_closed))
unfolding apply
conflict_fails_closed m es e a t = (rw (conflict_ambiguous m a t) (run_ambiguous _ es refl), refl)
  where
    conflict_ambiguous :
        (w : RotationMachine)
        → w.ambiguous ≡ false
        → w.tombstoned ≡ false
        → (apply w conflict_observed).0 ≡ record w { ambiguous = true }
    conflict_ambiguous w a t = ground arith

abbrev pub IsAbort : RotationEvent → Type 0
IsAbort e = (e ≡ owner_cancel_observed true) ⊎ (e ≡ abort_observed true)

abort-apply :
    (m : RotationMachine) (a : RotationEvent)
    → IsAbort a
    → m.ambiguous ≡ false
    → m.tombstoned ≡ false
    → is_abortable m.state ≡ true
    → let m' = (apply m a).0 in
      (m'.state ≡ RotationState.aborted) × (m'.tombstoned ≡ true) × (m'.ambiguous ≡ false)
unfolding apply
abort-apply m a i b t s = ground arith

tombstoned-apply :
    (m : RotationMachine) (e : RotationEvent)
    → m.ambiguous ≡ false
    → m.tombstoned ≡ true
    → apply m e ≡ (m, err RotationError.aborted)
unfolding apply
tombstoned-apply m e b t = ground arith

-- When a machine is not ambiguous, has no tombstone and is in a state that can abort, an owner
-- cancellation or an abort with a valid certificate is final: the machine is Aborted after any later
-- events, and refuses the next with Aborted.
pub abort_final :
    (m : RotationMachine) (a e : RotationEvent) (es : List RotationEvent)
    → IsAbort a
    → m.ambiguous ≡ false
    → m.tombstoned ≡ false
    → is_abortable m.state ≡ true
    → let m' = run (apply m a).0 es in
      (m'.state ≡ RotationState.aborted) × (apply m' e ≡ (m', err RotationError.aborted))
abort_final m a e es i b t s =
    let (dead, buried, clear) = abort-apply m a i b t s in
    rw (run_tombstoned (apply m a).0 es buried)
      (dead, tombstoned-apply (apply m a).0 e clear buried)
