-- ===== src/Core/Guardian/Permanence.antt =====
-- What no later call undoes, and what a refused call leaves.
use master_recovery.Prelude.{
  ℕ, ◌≡◌, ◌≤◌, ◌⊎◌, inl, inr, Option-cases, ap, Bool, false, some, List, [], ◌∷◌, arith, ok, err,
  is_ok,
}
use master_recovery.Collections.Map
use master_recovery.Types.Basic.{Id32}
use master_recovery.Types.Recovery.{RecoveryState, RecoveryRequest}
use master_recovery.Core.Guardian.{
  GuardianPending, GuardianMachine, with_state, begin_at, cancel, tombstone_error,
  authorize_release_at, state,
}
use master_recovery.Core.Guardian.History.{Call, begins, cancels, authorizes, perform, run, logged}

perform-cancelled :
    (m : GuardianMachine) (c : Call) (k d : Id32)
    → Map.get m.cancelled k ≡ some d
    → Map.get (perform m c).0.cancelled k ≡ some d
unfolding perform begin_at cancel authorize_release_at
perform-cancelled m (begins request digest wall mono delay valid) k d h = ground arith
perform-cancelled m (cancels id digest valid) k d h =
    ground (arith, Map.get-insert m.cancelled id k digest)
perform-cancelled m (authorizes id digest wall mono valid unambiguous) k d h = ground arith

run-cancelled :
    (m : GuardianMachine) (log cs : List Call) (k d : Id32)
    → Map.get m.cancelled k ≡ some d
    → Map.get (run m log cs).0.cancelled k ≡ some d
unfolding run
run-cancelled m log [] k d h = h
run-cancelled m log (c ∷ cs) k d h =
    run-cancelled (perform m c).0 (logged log c (perform m c).1) cs k d
      (perform-cancelled m c k d h)

cancel-cancelled :
    (m : GuardianMachine) (id digest : Id32) (valid : Bool)
    → (cancel m id digest valid).1 ≡ ok tt
    → Map.get (cancel m id digest valid).0.cancelled id ≡ some digest
unfolding cancel
cancel-cancelled m id digest valid h = ground (arith, Map.get-insert m.cancelled id id digest)

module _ (m : GuardianMachine) (request : RecoveryRequest) (digest : Id32)
    (tombstone : Map.get m.cancelled request.request_id ≡ some digest) where
  state_of_tombstone : state m request.request_id ≡ some RecoveryState.cancelled
  unfolding state
  state_of_tombstone = ground arith

  authorize_of_tombstone :
      (other : Id32) (wall mono : ℕ) (valid unambiguous : Bool)
      → authorize_release_at m request.request_id other wall mono valid unambiguous
        ≡ (m, err (tombstone_error digest other))
  unfolding authorize_release_at
  authorize_of_tombstone other wall mono valid unambiguous = ground arith

  begin_of_tombstone :
      (other : Id32) (wall mono delay : ℕ) (valid : Bool)
      → is_ok (begin_at m request other wall mono delay valid).1 ≡ false
  unfolding begin_at
  begin_of_tombstone other wall mono delay valid = ground arith

-- After an accepted cancellation, and any calls that follow it, the request's state is Cancelled,
-- no Begin for it succeeds, and every release is refused: as cancelled under the same digest, as a
-- mismatch under another.
pub cancellation_permanent :
    (m : GuardianMachine) (request : RecoveryRequest) (digest other : Id32) (valid : Bool)
    (cs : List Call) (wall mono delay : ℕ) (valid' unambiguous : Bool)
    → (cancel m request.request_id digest valid).1 ≡ ok tt
    → let m' = (run (cancel m request.request_id digest valid).0 [] cs).0 in
      (state m' request.request_id ≡ some RecoveryState.cancelled)
      × (is_ok (begin_at m' request other wall mono delay valid').1 ≡ false)
      × ((authorize_release_at m' request.request_id other wall mono valid' unambiguous).1
          ≡ err (tombstone_error digest other))
cancellation_permanent m request digest other valid cs wall mono delay valid' unambiguous h = (
  state_of_tombstone m' request digest kept,
  begin_of_tombstone m' request digest kept other wall mono delay valid',
  ap (λ r. r.1) (authorize_of_tombstone m' request digest kept other wall mono valid' unambiguous),
)
  where
    m' : GuardianMachine
    m' = (run (cancel m request.request_id digest valid).0 [] cs).0

    kept : Map.get m'.cancelled request.request_id ≡ some digest
    kept =
        run-cancelled _ [] cs request.request_id digest
          (cancel-cancelled m request.request_id digest valid h)

-- The machine after a refused release of a request that is past its expiry.
abbrev pub Expires : GuardianMachine → Call → GuardianMachine → Type 0
Expires m (begins request digest wall mono delay valid) m' = ⊥
Expires m (cancels id digest valid) m' = ⊥
Expires m (authorizes id digest wall mono valid unambiguous) m' =
    (p : GuardianPending) × (Map.get m.pending id ≡ some p)
    × (p.expiry ≤ wall)
    × (m' ≡ record m { pending = Map.insert m.pending id (with_state p RecoveryState.expired) })

refused_release :
    (m : GuardianMachine) (id digest : Id32) (wall mono : ℕ) (valid unambiguous : Bool)
    (p : GuardianPending)
    → Map.get m.pending id ≡ some p
    → is_ok (authorize_release_at m id digest wall mono valid unambiguous).1 ≡ false
    → let m' = (authorize_release_at m id digest wall mono valid unambiguous).0 in
      (m' ≡ m)
      ⊎ ((p.expiry ≤ wall)
          × (m' ≡ record m {
            pending = Map.insert m.pending id (with_state p RecoveryState.expired);
          }))
unfolding authorize_release_at
refused_release m id digest wall mono valid unambiguous p e h = ground arith

-- A refused call leaves the machine as it was, except that a release refused after the expiry of
-- its request marks that request Expired.
pub refused_unchanged :
    (m : GuardianMachine) (c : Call)
    → (perform m c).1 ≡ false
    → ((perform m c).0 ≡ m) ⊎ Expires m c (perform m c).0
unfolding perform begin_at cancel
refused_unchanged m (begins request digest wall mono delay valid) h = inl (ground arith)
refused_unchanged m (cancels id digest valid) h = inl (ground arith)
refused_unchanged m (authorizes id digest wall mono valid unambiguous) h =
    elim (Option-cases (Map.get m.pending id)) [
      | inl e ↦ inl (unfold authorize_release_at in ground arith)
      | inr (p, e) ↦ elim (refused_release m id digest wall mono valid unambiguous p e h) [
        | inl same ↦ inl same
        | inr (late, expires) ↦ inr (p, e, late, expires)
      ]
    ]
