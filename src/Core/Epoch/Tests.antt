-- ===== src/Core/Epoch/Tests.antt =====
-- Runs of the epoch-bound machine, and the theorems about it at concrete inputs.
use master_recovery.Prelude.{
  ℕ, ◌≡◌, refl, ◌↔◌, true, false, some, List, [], ◌∷◌, arith, saturating_add, ok, err, is_ok,
}
use master_recovery.Collections.Map
use master_recovery.Collections.Set
use master_recovery.Types.Basic.{protocol_version_v3}
use master_recovery.Types.Recovery.{RecoveryState}
use master_recovery.Types.Rotation.{
  ConfigRef, same_config_ref, is_direct_successor_of, RecoveryRequestV3,
}
use master_recovery.Core.Rotation.{RotationError, replay}
use master_recovery.Core.Epoch.{
  PendingEpochRecovery, EpochRecoveryMachine, EpochReleaseAuthorization, new, begin,
  activate_successor, authorize_release, cancel, is_unfinished, retire_draining_epoch, state,
}
use master_recovery.Core.Epoch.History.{cancels, Call, begins, activates, perform, run, Begun}
use master_recovery.Core.Epoch.Release.{
  MayRelease, HasBegun, epoch_release_authorized_iff, epoch_begin_accepted_only,
}
use master_recovery.Core.Epoch.Retire.{retire_closes_epoch, release_blocks_retirement}
use master_recovery.Core.Epoch.Permanence.{epoch_cancellation_permanent, nonce_clash_burns_id}

abbrev config : ℕ → ℕ → ConfigRef
config epoch marker = record {
  config_id = 1;
  payload_generation = 1;
  authorization_epoch = 1;
  guardian_epoch = epoch;
  epoch_binding = marker;
}

abbrev request : ℕ → ℕ → RecoveryRequestV3
request id nonce = record {
  protocol_version = protocol_version_v3;
  config_ref = config 1 1;
  request_id = id;
  recovery_recipient_key = 3 ∷ [];
  requested_at = 10;
  nonce = nonce;
  expiry = 100;
}

abbrev release : ℕ → ℕ → EpochReleaseAuthorization
release wall mono = record {
  request_id = 2;
  request_digest = 9;
  config_ref = config 1 1;
  wall_now = wall;
  monotonic_now = mono;
  certificate_valid = true;
  state_unambiguous = true;
}

-- A request begins on epoch 1, which is then superseded and drains until 2000.
abbrev calls : List Call
calls = begins (request 2 4) 9 10 1000 20 true ∷ activates (config 2 2) 2000 true ∷ []

abbrev draining : EpochRecoveryMachine
draining = (run (new (config 1 1)) [] calls).0

-- The old request still finishes on the draining epoch, and no new one begins there.
old_request_finishes :
    ((authorize_release draining (release 20 1020)).1 ≡ ok tt)
    × ((begin draining (request 5 6) 9 10 1000 20 true).1 ≡ err RotationError.stale_epoch)
unfolding run perform new begin activate_successor authorize_release same_config_ref
    is_direct_successor_of Map.get Map.insert Map.remove Map.empty Set.contains Set.insert Set.empty
    saturating_add
old_request_finishes = (refl, refl)

epoch_release_authorized_iff_example :
    ((authorize_release draining (release 20 1020)).1 ≡ ok tt) ↔ (
      (b : Begun) × MayRelease (config 1 1) (run (new (config 1 1)) [] calls).1 (release 20 1020) b)
epoch_release_authorized_iff_example =
    epoch_release_authorized_iff (config 1 1) calls (release 20 1020)

epoch_begin_accepted_only_example :
    HasBegun (config 1 1) (run (new (config 1 1)) [] []).1 (request 2 4) 10 true
    × (1020 ≡ saturating_add 1000 20)
unfolding run new begin same_config_ref Map.get Map.empty Set.contains Set.empty saturating_add
epoch_begin_accepted_only_example =
    epoch_begin_accepted_only (config 1 1) [] (request 2 4) 9 10 1000 20 1020 true refl

-- The request of the draining epoch after its cancellation.
abbrev finished : EpochRecoveryMachine
finished = (cancel draining 2 9 true).0

abbrev cancelled_entry : PendingEpochRecovery
cancelled_entry = record {
  config_ref = config 1 1;
  request_digest = 9;
  nonce = 4;
  not_before = 1020;
  expiry = 100;
  state = RecoveryState.cancelled;
}

-- What comes after the retirement of epoch 1: one more epoch, and the cancellation of a request.
abbrev later_calls : List Call
later_calls = activates (config 3 3) 3000 true ∷ cancels 7 9 true ∷ []

retire_closes_epoch_example :
    let m' = (run (retire_draining_epoch finished 1 2000).0 [] later_calls).0 in
    (is_unfinished cancelled_entry.state ≡ false)
    × (is_ok (authorize_release m' (release 20 1020)).1 ≡ false)
unfolding run perform new begin activate_successor cancel retire_draining_epoch same_config_ref
    is_direct_successor_of Map.get Map.insert Map.remove Map.empty Map.any_value Set.contains
    Set.insert Set.empty saturating_add
retire_closes_epoch_example =
    retire_closes_epoch finished 2000 2 cancelled_entry (release 20 1020) later_calls refl refl refl
      (omega arith) (omega arith)

release_blocks_retirement_holds :
    is_ok (retire_draining_epoch (authorize_release draining (release 20 1020)).0 1 5000).1 ≡ false
unfolding run perform new begin activate_successor authorize_release same_config_ref
    is_direct_successor_of Map.get Map.insert Map.remove Map.empty Set.contains Set.insert Set.empty
    saturating_add
release_blocks_retirement_holds = release_blocks_retirement draining (release 20 1020) 5000 refl

epoch_cancellation_permanent_example :
    let m' = (run (cancel (new (config 1 1)) 2 9 true).0 [] calls).0 in
    (state m' 2 ≡ some RecoveryState.cancelled)
    × (is_ok (begin m' (request 2 4) 9 10 1000 20 true).1 ≡ false)
    × (authorize_release m' (release 20 1020) ≡ (m', err RotationError.cancelled))
unfolding new cancel Map.get Map.empty
epoch_cancellation_permanent_example =
    epoch_cancellation_permanent (new (config 1 1)) (request 2 4) (release 20 1020) 9 9 true true
      calls 10 1000 20 refl refl

-- Request 2 has used nonce 4 on the active epoch.
abbrev nonce_spent : EpochRecoveryMachine
nonce_spent = (begin (new (config 1 1)) (request 2 4) 9 10 1000 20 true).0

nonce_clash_burns_id_example :
    let (m', r) = begin nonce_spent (request 3 4) 9 10 1000 20 true in
    (r ≡ err replay)
    × (m'.pending ≡ nonce_spent.pending)
    × (is_ok (begin (run m' [] []).0 (request 3 5) 9 10 1000 20 true).1 ≡ false)
unfolding new begin same_config_ref Map.get Map.insert Map.empty Set.contains Set.insert Set.empty
    saturating_add
nonce_clash_burns_id_example =
    nonce_clash_burns_id nonce_spent (request 3 4) (request 3 5) 9 9 10 1000 20 10 1000 20 true []
      refl (omega arith) (omega arith) refl refl refl
