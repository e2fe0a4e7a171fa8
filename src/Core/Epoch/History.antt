-- ===== src/Core/Epoch/History.antt =====
-- The epoch-bound machine against its history of accepted calls.
use master_recovery.Prelude.{
  ℕ, ◌≡◌, Bool, true, false, ◌||◌, Option, none, some, List, [], ◌∷◌, ◌==◌, if◌then◌else◌,
  saturating_add, is_ok,
}
use master_recovery.Collections.Map
use master_recovery.Collections.Set
use master_recovery.Types.Basic.{Id32}
use master_recovery.Types.Rotation.{ConfigRef, RecoveryRequestV3}
use master_recovery.Core.Epoch.{
  PendingEpochRecovery, EpochRecoveryMachine, EpochReleaseAuthorization, begin, activate_successor,
  authorize_release, cancel, retire_draining_epoch,
}

pub data Call : Type 0 where
  begins : RecoveryRequestV3 → Id32 → ℕ → ℕ → ℕ → Bool → Call
  activates : ConfigRef → ℕ → Bool → Call
  authorizes : EpochReleaseAuthorization → Call
  cancels : Id32 → Id32 → Bool → Call
  retires : ℕ → ℕ → Call

-- The machine after a call, and whether the call was accepted.
unfoldable pub perform : EpochRecoveryMachine → Call → EpochRecoveryMachine × Bool
perform m (begins request digest wall mono delay valid) =
    let (m', r) = begin m request digest wall mono delay valid in (m', is_ok r)
perform m (activates successor drain valid) =
    let (m', r) = activate_successor m successor drain valid in (m', is_ok r)
perform m (authorizes a) = let (m', r) = authorize_release m a in (m', is_ok r)
perform m (cancels id digest valid) = let (m', r) = cancel m id digest valid in (m', is_ok r)
perform m (retires epoch mono) = let (m', r) = retire_draining_epoch m epoch mono in (m', is_ok r)

-- The log after a call, the latest accepted call first.
abbrev pub logged : List Call → Call → Bool → List Call
logged log c accepted = if accepted then c ∷ log else log

unfoldable pub run : EpochRecoveryMachine → List Call → List Call → EpochRecoveryMachine × List Call
run m log [] = (m, log)
run m log (c ∷ cs) = let (m', accepted) = perform m c in run m' (logged log c accepted) cs

-- What an accepted Begin fixed for its request.
pub record Begun : Type 0 where
  pub config_ref : ConfigRef
  pub digest : Id32
  pub not_before : ℕ
  pub expiry : ℕ

unfoldable pub find_begin : List Call → Id32 → Option Begun
find_begin [] k = none
find_begin (begins request digest wall mono delay valid ∷ log) k =
    if request.request_id == k
    then some (record {
      config_ref = request.config_ref;
      digest = digest;
      not_before = saturating_add mono delay;
      expiry = request.expiry;
    })
    else find_begin log k
find_begin (_ ∷ log) k = find_begin log k

unfoldable pub find_cancel : List Call → Id32 → Option Id32
find_cancel [] k = none
find_cancel (cancels id digest valid ∷ log) k = if id == k then some digest else find_cancel log k
find_cancel (_ ∷ log) k = find_cancel log k

unfoldable pub nonce_used : List Call → Id32 → Bool
nonce_used [] n = false
nonce_used (begins request digest wall mono delay valid ∷ log) n =
    request.nonce == n || nonce_used log n
nonce_used (_ ∷ log) n = nonce_used log n

-- The active epoch after the accepted activations, `start` being the first.
unfoldable pub active_of : ConfigRef → List Call → ConfigRef
active_of start [] = start
active_of start (activates successor drain valid ∷ log) = successor
active_of start (_ ∷ log) = active_of start log

-- The drain deadline of an epoch that was superseded and not retired since.
unfoldable pub drain_of : ConfigRef → List Call → ℕ → Option ℕ
unfolding active_of
drain_of start [] k = none
drain_of start (activates successor drain valid ∷ log) k =
    if (active_of start log).guardian_epoch == k then some drain else drain_of start log k
drain_of start (retires epoch mono ∷ log) k = if epoch == k then none else drain_of start log k
drain_of start (_ ∷ log) k = drain_of start log k

abbrev pub facts : Option PendingEpochRecovery → Option Begun
facts none = none
facts (some p) = some (record {
  config_ref = p.config_ref;
  digest = p.request_digest;
  not_before = p.not_before;
  expiry = p.expiry;
})

abbrev pub is_some {ℓ} : {A : Type ℓ} → Option A → Bool
is_some none = false
is_some (some a) = true

-- The machine's fields are the history's; the identifiers seen may be more, since a Begin that
-- was refused for its nonce leaves its identifier behind.
pub record Agrees (start : ConfigRef) (m : EpochRecoveryMachine) (log : List Call) : Type 0 where
  pub active_kept : m.active ≡ active_of start log
  pub drains_kept : (k : ℕ) → Map.get m.draining k ≡ drain_of start log k
  pub cancels_kept : (k : Id32) → Map.get m.cancelled k ≡ find_cancel log k
  pub begins_kept : (k : Id32) → facts (Map.get m.pending k) ≡ find_begin log k
  pub ids_kept :
      (k : Id32) → is_some (find_begin log k) ≡ true → Set.contains m.seen_request_ids k ≡ true
  pub nonces_kept : (n : Id32) → Set.contains m.seen_nonces n ≡ nonce_used log n
