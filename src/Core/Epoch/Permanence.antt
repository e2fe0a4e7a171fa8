-- ===== src/Core/Epoch/Permanence.antt =====
-- What no later call of the epoch-bound machine undoes.
use master_recovery.Prelude.{
  ℕ, ◌≡◌, refl, ◌≤◌, ◌<◌, Bool, true, false, ◌&&◌, none, some, List, [], ◌∷◌, arith, err, is_ok,
  if◌then◌else◌,
}
use master_recovery.Collections.Map
use master_recovery.Collections.Set
use master_recovery.Types.Basic.{Id32}
use master_recovery.Types.Recovery.{RecoveryState}
use master_recovery.Types.Rotation.{RecoveryRequestV3, same_config_ref_iff}
use master_recovery.Core.Rotation.{RotationError, invalid_evidence, replay}
use master_recovery.Core.Epoch.{
  EpochRecoveryMachine, EpochReleaseAuthorization, tombstone_error, begin, activate_successor,
  authorize_release, cancel, retire_draining_epoch, state,
}
use master_recovery.Core.Epoch.History.{Call, begins, cancels, perform, logged, run}

-- Tombstones and identifiers seen stay.
record Extends (m m' : EpochRecoveryMachine) : Type 0 where
  tombstones : (k d : Id32) → Map.get m.cancelled k ≡ some d → Map.get m'.cancelled k ≡ some d
  ids :
      (k : Id32)
      → Set.contains m.seen_request_ids k ≡ true
      → Set.contains m'.seen_request_ids k ≡ true

Extends-perform : (m : EpochRecoveryMachine) (c : Call) → Extends m (perform m c).0
unfolding perform begin activate_successor authorize_release cancel retire_draining_epoch
Extends-perform m (begins request digest wall mono delay valid) = record {
  tombstones = λ k d h. ground arith;
  ids = λ k h. ground (arith, Set.contains-insert m.seen_request_ids request.request_id k);
}
Extends-perform m (cancels id digest valid) = record {
  tombstones = λ k d h. ground (arith, Map.get-insert m.cancelled id k digest);
  ids = λ k h. ground arith;
}
Extends-perform m _ = record { tombstones = λ k d h. ground arith; ids = λ k h. ground arith }

Extends-run : (m : EpochRecoveryMachine) (log cs : List Call) → Extends m (run m log cs).0
unfolding run
Extends-run m log [] = record { tombstones = λ k d h. h; ids = λ k h. h }
Extends-run m log (c ∷ cs) =
    let first = Extends-perform m c in
    let rest = Extends-run (perform m c).0 (logged log c (perform m c).1) cs in
    record {
      tombstones = λ k d h. rest.tombstones k d (first.tombstones k d h);
      ids = λ k h. rest.ids k (first.ids k h);
    }

cancel-tombstone :
    (m : EpochRecoveryMachine) (id digest : Id32) (valid : Bool)
    → is_ok (cancel m id digest valid).1 ≡ true
    → Map.get (cancel m id digest valid).0.cancelled id ≡ some digest
unfolding cancel
cancel-tombstone m id digest valid h = ground (arith, Map.get-insert m.cancelled id id digest)

-- The error of a release of a cancelled request: bad evidence comes first.
abbrev pub cancelled_error : Id32 → EpochReleaseAuthorization → RotationError
cancelled_error digest a =
    if a.certificate_valid && a.state_unambiguous
    then tombstone_error digest a.request_digest
    else invalid_evidence

module _ (m : EpochRecoveryMachine) (id digest : Id32)
    (tombstone : Map.get m.cancelled id ≡ some digest) where
  state_of_tombstone : state m id ≡ some RecoveryState.cancelled
  unfolding state
  state_of_tombstone = ground arith

  authorize_of_tombstone :
      (a : EpochReleaseAuthorization)
      → a.request_id ≡ id
      → authorize_release m a ≡ (m, err (cancelled_error digest a))
  unfolding authorize_release
  authorize_of_tombstone a e =
      let here : Map.get m.cancelled a.request_id ≡ some digest = rw e tombstone in
      ground (arith, here)

  begin_of_tombstone :
      (request : RecoveryRequestV3) (other : Id32) (wall mono delay : ℕ) (valid : Bool)
      → request.request_id ≡ id
      → is_ok (begin m request other wall mono delay valid).1 ≡ false
  unfolding begin
  begin_of_tombstone request other wall mono delay valid e =
      let here : Map.get m.cancelled request.request_id ≡ some digest = rw e tombstone in
      ground (arith, here)

-- After an accepted cancellation, and any calls that follow it, the request's state is Cancelled,
-- no Begin for it succeeds, and a release of it with good evidence is refused as cancelled under
-- the same digest and as a mismatch under another; without good evidence, as invalid evidence.
pub epoch_cancellation_permanent :
    (m : EpochRecoveryMachine) (request : RecoveryRequestV3) (a : EpochReleaseAuthorization)
    (digest other : Id32) (valid valid' : Bool) (cs : List Call) (wall mono delay : ℕ)
    → request.request_id ≡ a.request_id
    → is_ok (cancel m a.request_id digest valid).1 ≡ true
    → let m' = (run (cancel m a.request_id digest valid).0 [] cs).0 in
      (state m' a.request_id ≡ some RecoveryState.cancelled)
      × (is_ok (begin m' request other wall mono delay valid').1 ≡ false)
      × (authorize_release m' a ≡ (m', err (cancelled_error digest a)))
epoch_cancellation_permanent m request a digest other valid valid' cs wall mono delay same h =
    let m₁ = (cancel m a.request_id digest valid).0 in
    let m' = (run m₁ [] cs).0 in
    let kept : Map.get m'.cancelled a.request_id ≡ some digest =
      (Extends-run m₁ [] cs).tombstones a.request_id digest
        (cancel-tombstone m a.request_id digest valid h) in
    (
      state_of_tombstone m' a.request_id digest kept,
      begin_of_tombstone m' a.request_id digest kept request other wall mono delay valid' same,
      authorize_of_tombstone m' a.request_id digest kept a refl,
    )

begin-seen :
    (m : EpochRecoveryMachine) (request : RecoveryRequestV3) (digest : Id32) (wall mono delay : ℕ)
    (valid : Bool)
    → Set.contains m.seen_request_ids request.request_id ≡ true
    → is_ok (begin m request digest wall mono delay valid).1 ≡ false
unfolding begin
begin-seen m request digest wall mono delay valid h = ground arith

begin-nonce_clash :
    (m : EpochRecoveryMachine) (request : RecoveryRequestV3) (digest : Id32) (wall mono delay : ℕ)
    → request.config_ref ≡ m.active
    → request.requested_at ≤ wall
    → wall < request.expiry
    → Map.get m.cancelled request.request_id ≡ none
    → Set.contains m.seen_nonces request.nonce ≡ true
    → let (m', r) = begin m request digest wall mono delay true in
      (r ≡ err replay)
      × (m'.pending ≡ m.pending)
      × (Set.contains m'.seen_request_ids request.request_id ≡ true)
unfolding begin
begin-nonce_clash m request digest wall mono delay c early late free clash = ground (
  arith,
  same_config_ref_iff request.config_ref m.active,
  Set.contains-insert m.seen_request_ids request.request_id request.request_id,
)

-- A valid, current Begin that is refused because its nonce was used records no recovery, yet uses
-- its request identifier up: after any further calls, no Begin with that identifier succeeds.
pub nonce_clash_burns_id :
    (m : EpochRecoveryMachine) (request later : RecoveryRequestV3) (digest digest' : Id32)
    (wall mono delay wall' mono' delay' : ℕ) (valid : Bool) (cs : List Call)
    → request.config_ref ≡ m.active
    → request.requested_at ≤ wall
    → wall < request.expiry
    → Map.get m.cancelled request.request_id ≡ none
    → Set.contains m.seen_nonces request.nonce ≡ true
    → later.request_id ≡ request.request_id
    → let (m', r) = begin m request digest wall mono delay true in
      (r ≡ err replay)
      × (m'.pending ≡ m.pending)
      × (is_ok (begin (run m' [] cs).0 later digest' wall' mono' delay' valid).1 ≡ false)
nonce_clash_burns_id m request later digest digest' wall mono delay wall' mono' delay' valid cs c
      early late free clash same =
    let (refused, kept, seen) =
      begin-nonce_clash m request digest wall mono delay c early late free clash in
    let m₁ = (begin m request digest wall mono delay true).0 in
    (
      refused,
      kept,
      begin-seen (run m₁ [] cs).0 later digest' wall' mono' delay' valid
          (rw same ((Extends-run m₁ [] cs).ids request.request_id seen)),
    )
