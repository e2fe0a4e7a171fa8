-- ===== src/Core/Guardian/Tests.antt =====
-- Runs of a guardian, and the theorems about it at concrete inputs.
use master_recovery.Prelude.{
  ℕ, ◌≡◌, refl, ◌⊎◌, ◌↔◌, true, false, some, List, [], ◌∷◌, saturating_add, ok, err, is_ok,
}
use master_recovery.Collections.Map
use master_recovery.Collections.Set
use master_recovery.Types.Basic.{current_protocol_version, x_wing_x_cha_cha20_poly1305_ed25519}
use master_recovery.Types.Recovery.{RecoveryState, RecoveryRequest}
use master_recovery.Core.Recovery.{CoreError, stale_configuration, replay, delay_not_elapsed}
use master_recovery.Core.Guardian.{
  GuardianMachine, new, begin_at, begin, cancel, authorize_release_at, authorize_release, state,
}
use master_recovery.Core.Guardian.History.{Call, begins, authorizes, perform, run, Begun}
use master_recovery.Core.Guardian.Answers.{
  MayBegin, MayRelease, MayCancel, begin_accepted_iff, release_authorized_iff, cancel_accepted_iff,
}
use master_recovery.Core.Guardian.Permanence.{Expires, cancellation_permanent, refused_unchanged}

-- The request of the source's tests.
abbrev request : ℕ → RecoveryRequest
request version = record {
  protocol_version = current_protocol_version;
  crypto_suite = x_wing_x_cha_cha20_poly1305_ed25519;
  config_id = 1;
  config_version = version;
  request_id = 2;
  recovery_recipient_key = 3 ∷ 3 ∷ [];
  requested_at = 10;
  nonce = 4;
  expiry = 100;
}

abbrev begun : List Call
begun = begins (request 1) 9 10 1000 20 true ∷ []

-- `guardian_separates_wall_expiry_from_monotonic_delay`
delay_is_monotonic :
    let m = (run (new 1 1) [] begun).0 in
    ((authorize_release_at m 2 9 20 1019 true true).1 ≡ err delay_not_elapsed)
    × ((authorize_release_at m 2 9 20 1020 true true).1 ≡ ok tt)
unfolding run perform new begin_at authorize_release_at Map.get Map.insert Map.empty Set.contains
    Set.insert Set.empty saturating_add
delay_is_monotonic = (refl, refl)

-- `stale_version_and_replay_are_rejected`
replay_is_rejected :
    let m = (begin (new 1 2) (request 2) 9 10 5 true).0 in
    ((begin (new 1 2) (request 1) 9 10 5 true).1 ≡ err stale_configuration)
    × ((begin m (request 2) 9 10 5 true).1 ≡ err replay)
    × ((begin m (record (request 2) { request_id = 8 }) 7 10 5 true).1 ≡ err replay)
unfolding begin new begin_at Map.get Map.insert Map.empty Set.contains Set.insert Set.empty
    saturating_add
replay_is_rejected = (refl, refl, refl)

-- `cancellation_is_permanent`
cancelled_release :
    let m = (cancel (begin (new 1 1) (request 1) 9 10 5 true).0 2 9 true).0 in
    ((authorize_release m 2 9 20 true true).1 ≡ err CoreError.cancelled)
    × (state m 2 ≡ some RecoveryState.cancelled)
unfolding begin cancel authorize_release state new begin_at authorize_release_at Map.get Map.insert
    Map.empty Set.contains Set.insert Set.empty saturating_add
cancelled_release = (refl, refl)

begin_accepted_iff_example :
    ((begin_at (run (new 1 1) [] []).0 (request 1) 9 10 1000 20 true).1 ≡ ok 1020)
    ↔ (MayBegin 1 1 (run (new 1 1) [] []).1 (request 1) 10 true × (1020 ≡ saturating_add 1000 20))
begin_accepted_iff_example = begin_accepted_iff 1 1 [] (request 1) 9 10 1000 20 1020 true

release_authorized_iff_example :
    ((authorize_release_at (run (new 1 1) [] begun).0 2 9 20 1020 true true).1 ≡ ok tt)
    ↔ ((b : Begun) × MayRelease (run (new 1 1) [] begun).1 2 9 20 1020 true true b)
release_authorized_iff_example = release_authorized_iff 1 1 begun 2 9 20 1020 true true

cancel_accepted_iff_example :
    ((cancel (run (new 1 1) [] begun).0 2 9 true).1 ≡ ok tt)
    ↔ MayCancel (run (new 1 1) [] begun).1 2 9 true
cancel_accepted_iff_example = cancel_accepted_iff 1 1 begun 2 9 true

abbrev after_cancel : GuardianMachine
after_cancel = (run (cancel (new 1 1) 2 9 true).0 [] begun).0

cancellation_permanent_example :
    (state after_cancel 2 ≡ some RecoveryState.cancelled)
    × (is_ok (begin_at after_cancel (request 1) 9 10 1000 20 true).1 ≡ false)
    × ((authorize_release_at after_cancel 2 9 10 1000 true true).1 ≡ err CoreError.cancelled)
unfolding new cancel Map.get Map.empty
cancellation_permanent_example =
    cancellation_permanent (new 1 1) (request 1) 9 9 true begun 10 1000 20 true true refl

refused_unchanged_holds :
    let m = (run (new 1 1) [] begun).0 in
    let c = authorizes 2 9 100 1020 true true in ((perform m c).0 ≡ m) ⊎ Expires m c (perform m c).0
unfolding run perform new begin_at authorize_release_at Map.get Map.insert Map.empty Set.contains
    Set.insert Set.empty saturating_add
refused_unchanged_holds =
    refused_unchanged (run (new 1 1) [] begun).0 (authorizes 2 9 100 1020 true true) refl
