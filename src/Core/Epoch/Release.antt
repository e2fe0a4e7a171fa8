-- ===== src/Core/Epoch/Release.antt =====
-- Which recovery requests the epoch-bound machine lets begin and lets be released.
use master_recovery.Prelude.{
  ℕ, ◌≡◌, ◌≤◌, ◌<◌, ◌⊎◌, ◌↔◌, inl, inr, Option-cases, Bool, true, false, none, some, List, [],
  arith, saturating_add, ok,
}
use master_recovery.Collections.Map
use master_recovery.Types.Basic.{Id32}
use master_recovery.Types.Rotation.{ConfigRef, same_config_ref_iff, RecoveryRequestV3}
use master_recovery.Core.Epoch.{
  PendingEpochRecovery, EpochRecoveryMachine, EpochReleaseAuthorization, new, begin,
  authorize_release,
}
use master_recovery.Core.Epoch.History.{
  Call, run, Begun, find_begin, find_cancel, nonce_used, active_of, drain_of, is_some, Agrees,
}
use master_recovery.Core.Epoch.Agreement.{run-new-Agrees}

-- What a release needs, `b` being the accepted Begin of the request.
abbrev pub MayRelease : ConfigRef → List Call → EpochReleaseAuthorization → Begun → Type 0
MayRelease start log a b =
    (find_begin log a.request_id ≡ some b)
    × (find_cancel log a.request_id ≡ none)
    × (b.digest ≡ a.request_digest)
    × (b.config_ref ≡ a.config_ref)
    × ((a.config_ref ≡ active_of start log)
        ⊎ (is_some (drain_of start log a.config_ref.guardian_epoch) ≡ true))
    × (a.wall_now < b.expiry)
    × (b.not_before ≤ a.monotonic_now)
    × (a.certificate_valid ≡ true)
    × (a.state_unambiguous ≡ true)

abbrev begun_of : PendingEpochRecovery → Begun
begun_of p = record {
  config_ref = p.config_ref;
  digest = p.request_digest;
  not_before = p.not_before;
  expiry = p.expiry;
}

module _ {start : ConfigRef} {m : EpochRecoveryMachine} {log : List Call}
    (h : Agrees start m log) where
  authorize_iff :
      (a : EpochReleaseAuthorization)
      → ((authorize_release m a).1 ≡ ok tt) ↔ ((b : Begun) × MayRelease start log a b)
  unfolding authorize_release
  authorize_iff a = elim (Option-cases (Map.get m.pending a.request_id)) [
    | inl e ↦ (
      λ x. absurd (ground (arith, h.cancels_kept a.request_id)),
      λ x. absurd (ground (arith, h.begins_kept a.request_id)),
    )
    | inr (p, e) ↦ (
      λ x. (
        begun_of p,
        ground (
          arith,
          h.cancels_kept a.request_id,
          h.begins_kept a.request_id,
          h.active_kept,
          h.drains_kept a.config_ref.guardian_epoch,
          same_config_ref_iff p.config_ref a.config_ref,
          same_config_ref_iff a.config_ref m.active,
        ),
      ),
      λ x. ground (
        arith,
        h.cancels_kept a.request_id,
        h.begins_kept a.request_id,
        h.active_kept,
        h.drains_kept a.config_ref.guardian_epoch,
        same_config_ref_iff p.config_ref a.config_ref,
        same_config_ref_iff a.config_ref m.active,
      ),
    )
  ]

-- What an accepted Begin shows of the request and the history.
abbrev pub HasBegun : ConfigRef → List Call → RecoveryRequestV3 → ℕ → Bool → Type 0
HasBegun start log request wall valid =
    (valid ≡ true)
    × (request.config_ref ≡ active_of start log)
    × (request.requested_at ≤ wall)
    × (wall < request.expiry)
    × (find_cancel log request.request_id ≡ none)
    × (find_begin log request.request_id ≡ none)
    × (nonce_used log request.nonce ≡ false)

module _ {start : ConfigRef} {m : EpochRecoveryMachine} {log : List Call}
    (h : Agrees start m log) where
  begin-HasBegun :
      (request : RecoveryRequestV3) (digest : Id32) (wall mono delay not_before : ℕ) (valid : Bool)
      → (begin m request digest wall mono delay valid).1 ≡ ok not_before
      → HasBegun start log request wall valid × (not_before ≡ saturating_add mono delay)
  unfolding begin
  begin-HasBegun request digest wall mono delay not_before valid e = ground (
    arith,
    h.active_kept,
    h.cancels_kept request.request_id,
    h.ids_kept request.request_id,
    h.nonces_kept request.nonce,
    same_config_ref_iff request.config_ref m.active,
  )

-- After any calls to a new machine, a release is authorized exactly when a Begin of that request
-- with that digest and configuration was accepted before, its epoch is the active one or a
-- draining one, its delay has passed and its expiry has not, no cancellation of the request was
-- accepted, the certificate is valid and the state unambiguous.
pub epoch_release_authorized_iff :
    (start : ConfigRef) (cs : List Call) (a : EpochReleaseAuthorization)
    → let (m, log) = run (new start) [] cs in
      ((authorize_release m a).1 ≡ ok tt) ↔ ((b : Begun) × MayRelease start log a b)
epoch_release_authorized_iff start cs = authorize_iff (run-new-Agrees start cs)

-- After any calls to a new machine, a Begin that succeeds has a valid certificate and a current
-- request for the active epoch, whose identifier has no accepted Begin or cancellation and whose
-- nonce no accepted Begin; it returns the monotonic time plus the delay, saturated.
pub epoch_begin_accepted_only :
    (start : ConfigRef) (cs : List Call) (request : RecoveryRequestV3) (digest : Id32)
    (wall mono delay not_before : ℕ) (valid : Bool)
    → (begin (run (new start) [] cs).0 request digest wall mono delay valid).1 ≡ ok not_before
    → HasBegun start (run (new start) [] cs).1 request wall valid
      × (not_before ≡ saturating_add mono delay)
epoch_begin_accepted_only start cs = begin-HasBegun (run-new-Agrees start cs)
