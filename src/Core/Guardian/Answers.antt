-- ===== src/Core/Guardian/Answers.antt =====
-- What a guardian answers after any calls, in terms of the calls that it accepted before.
use master_recovery.Prelude.{
  ℕ, ◌≡◌, ◌≤◌, ◌<◌, ◌⊎◌, ◌↔◌, inl, inr, Option-cases, Bool, true, false, Option, none, some, List,
  [], arith, saturating_add, ok,
}
use master_recovery.Collections.Map
use master_recovery.Types.Basic.{Id32, current_protocol_version}
use master_recovery.Types.Recovery.{RecoveryRequest}
use master_recovery.Core.Guardian.{
  GuardianPending, GuardianMachine, new, begin_at, cancel, authorize_release_at,
}
use master_recovery.Core.Guardian.History.{
  Call, run, Begun, find_begin, find_cancel, nonce_used, Agrees,
}
use master_recovery.Core.Guardian.Agreement.{run-new-Agrees}

-- What a Begin needs: the guardian's protocol, configuration and version, a valid certificate, a
-- request that is current, and no trace of its identifier or nonce in the history.
abbrev pub MayBegin : Id32 → ℕ → List Call → RecoveryRequest → ℕ → Bool → Type 0
MayBegin config_id version log request wall valid =
    (request.protocol_version ≡ current_protocol_version)
    × (request.config_id ≡ config_id)
    × (request.config_version ≡ version)
    × (valid ≡ true)
    × (request.requested_at ≤ wall)
    × (wall < request.expiry)
    × (find_cancel log request.request_id ≡ none)
    × (find_begin log request.request_id ≡ none)
    × (nonce_used log request.nonce ≡ false)

-- What a release needs, `b` being the accepted Begin of the request.
abbrev pub MayRelease : List Call → Id32 → Id32 → ℕ → ℕ → Bool → Bool → Begun → Type 0
MayRelease log id digest wall mono valid unambiguous b =
    (find_begin log id ≡ some b)
    × (find_cancel log id ≡ none)
    × (b.digest ≡ digest)
    × (wall < b.expiry)
    × (b.not_before ≤ mono)
    × (valid ≡ true)
    × (unambiguous ≡ true)

abbrev pub FitsBegin : Option Begun → Id32 → Type 0
FitsBegin none digest = Unit
FitsBegin (some b) digest = b.digest ≡ digest

abbrev pub MayCancel : List Call → Id32 → Id32 → Bool → Type 0
MayCancel log id digest valid =
    (valid ≡ true)
    × ((find_cancel log id ≡ some digest)
        ⊎ ((find_cancel log id ≡ none) × FitsBegin (find_begin log id) digest))

abbrev begun_of : GuardianPending → Begun
begun_of p = record {
  digest = p.request_digest;
  not_before = p.pending.not_before;
  expiry = p.expiry;
}

module _ {config_id : Id32} {version : ℕ} {m : GuardianMachine} {log : List Call}
    (h : Agrees config_id version m log) where
  begin_iff :
      (request : RecoveryRequest) (digest : Id32) (wall mono delay not_before : ℕ) (valid : Bool)
      → ((begin_at m request digest wall mono delay valid).1 ≡ ok not_before) ↔ (
          MayBegin config_id version log request wall valid
          × (not_before ≡ saturating_add mono delay))
  unfolding begin_at
  begin_iff request digest wall mono delay not_before valid = (
    λ e. ground (
      arith,
      h.same_config,
      h.same_version,
      h.cancels_kept request.request_id,
      h.ids_kept request.request_id,
      h.nonces_kept request.nonce,
    ),
    λ e. ground (
      arith,
      h.same_config,
      h.same_version,
      h.cancels_kept request.request_id,
      h.ids_kept request.request_id,
      h.nonces_kept request.nonce,
    ),
  )

  authorize_iff :
      (id digest : Id32) (wall mono : ℕ) (valid unambiguous : Bool)
      → ((authorize_release_at m id digest wall mono valid unambiguous).1 ≡ ok tt)
        ↔ ((b : Begun) × MayRelease log id digest wall mono valid unambiguous b)
  unfolding authorize_release_at
  authorize_iff id digest wall mono valid unambiguous = elim (Option-cases (Map.get m.pending id)) [
    | inl e ↦ (
      λ x. absurd (ground (arith, h.cancels_kept id)),
      λ x. absurd (ground (arith, h.begins_kept id)),
    )
    | inr (p, e) ↦ (
      λ x. (begun_of p, ground (arith, h.cancels_kept id, h.begins_kept id)),
      λ x. ground (arith, h.cancels_kept id, h.begins_kept id),
    )
  ]

  cancel_iff :
      (id digest : Id32) (valid : Bool)
      → ((cancel m id digest valid).1 ≡ ok tt) ↔ MayCancel log id digest valid
  unfolding cancel
  cancel_iff id digest valid = elim (Option-cases (Map.get m.pending id)) [
    | inl e ↦ (
      λ x. ground (arith, h.cancels_kept id, h.begins_kept id),
      λ x. ground (arith, h.cancels_kept id, h.begins_kept id),
    )
    | inr (p, e) ↦ (
      λ x. ground (arith, h.cancels_kept id, h.begins_kept id),
      λ x. ground (arith, h.cancels_kept id, h.begins_kept id),
    )
  ]

-- After any calls to a new guardian, `begin_at` succeeds exactly when the request may begin, and
-- then returns the monotonic time plus the delay, saturated.
pub begin_accepted_iff :
    (config_id : Id32) (version : ℕ) (cs : List Call) (request : RecoveryRequest) (digest : Id32)
    (wall mono delay not_before : ℕ) (valid : Bool)
    → let (m, log) = run (new config_id version) [] cs in
      ((begin_at m request digest wall mono delay valid).1 ≡ ok not_before) ↔ (
        MayBegin config_id version log request wall valid
        × (not_before ≡ saturating_add mono delay))
begin_accepted_iff config_id version cs = begin_iff (run-new-Agrees config_id version cs)

-- After any calls to a new guardian, a release is authorized exactly when a Begin of that request
-- with that digest was accepted before, its delay has passed and its expiry has not, no
-- cancellation of the request was accepted, the certificate is valid and the state unambiguous.
pub release_authorized_iff :
    (config_id : Id32) (version : ℕ) (cs : List Call) (id digest : Id32) (wall mono : ℕ)
    (valid unambiguous : Bool)
    → let (m, log) = run (new config_id version) [] cs in
      ((authorize_release_at m id digest wall mono valid unambiguous).1 ≡ ok tt)
      ↔ ((b : Begun) × MayRelease log id digest wall mono valid unambiguous b)
release_authorized_iff config_id version cs = authorize_iff (run-new-Agrees config_id version cs)

-- After any calls to a new guardian, a cancellation is accepted exactly when its certificate is
-- valid and the request was cancelled before under that digest, or was not cancelled and has no
-- accepted Begin under another digest.
pub cancel_accepted_iff :
    (config_id : Id32) (version : ℕ) (cs : List Call) (id digest : Id32) (valid : Bool)
    → let (m, log) = run (new config_id version) [] cs in
      ((cancel m id digest valid).1 ≡ ok tt) ↔ MayCancel log id digest valid
cancel_accepted_iff config_id version cs = cancel_iff (run-new-Agrees config_id version cs)
