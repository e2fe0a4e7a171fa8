-- ===== src/Core/Guardian/History.antt =====
-- The guardian against its history: what it answers depends only on the calls that it accepted.
use master_recovery.Prelude.{
  ℕ, ◌≡◌, Bool, true, false, ◌||◌, Option, none, some, List, [], ◌∷◌, ◌==◌, if◌then◌else◌,
  saturating_add, is_ok,
}
use master_recovery.Collections.Map
use master_recovery.Collections.Set
use master_recovery.Types.Basic.{Id32}
use master_recovery.Types.Recovery.{RecoveryRequest}
use master_recovery.Core.Guardian.{
  GuardianPending, GuardianMachine, begin_at, cancel, authorize_release_at,
}

pub data Call : Type 0 where
  begins : RecoveryRequest → Id32 → ℕ → ℕ → ℕ → Bool → Call
  cancels : Id32 → Id32 → Bool → Call
  authorizes : Id32 → Id32 → ℕ → ℕ → Bool → Bool → Call

-- The machine after a call, and whether the call was accepted.
unfoldable pub perform : GuardianMachine → Call → GuardianMachine × Bool
perform m (begins request digest wall mono delay valid) =
    let (m', r) = begin_at m request digest wall mono delay valid in (m', is_ok r)
perform m (cancels id digest valid) = let (m', r) = cancel m id digest valid in (m', is_ok r)
perform m (authorizes id digest wall mono valid unambiguous) =
    let (m', r) = authorize_release_at m id digest wall mono valid unambiguous in (m', is_ok r)

-- The log after a call.
abbrev pub logged : List Call → Call → Bool → List Call
logged log c accepted = if accepted then c ∷ log else log

-- The machine with the calls that it accepted, the latest first.
unfoldable pub run : GuardianMachine → List Call → List Call → GuardianMachine × List Call
run m log [] = (m, log)
run m log (c ∷ cs) = let (m', accepted) = perform m c in run m' (logged log c accepted) cs

-- What an accepted Begin fixed for its request.
pub record Begun : Type 0 where
  pub digest : Id32
  pub not_before : ℕ
  pub expiry : ℕ

unfoldable pub find_begin : List Call → Id32 → Option Begun
find_begin [] k = none
find_begin (begins request digest wall mono delay valid ∷ log) k =
    if request.request_id == k
    then some (record {
      digest = digest;
      not_before = saturating_add mono delay;
      expiry = request.expiry;
    })
    else find_begin log k
find_begin (_ ∷ log) k = find_begin log k

unfoldable pub find_cancel : List Call → Id32 → Option Id32
find_cancel [] k = none
find_cancel (cancels id digest valid ∷ log) k = if id == k then some digest else find_cancel log k
find_cancel (_ ∷ log) k = find_cancel log k

unfoldable pub nonce_used : List Call → Id32 → Bool
nonce_used [] n = false
nonce_used (begins request digest wall mono delay valid ∷ log) n =
    request.nonce == n || nonce_used log n
nonce_used (_ ∷ log) n = nonce_used log n

abbrev pub facts : Option GuardianPending → Option Begun
facts none = none
facts (some p) =
    some
      (record { digest = p.request_digest; not_before = p.pending.not_before; expiry = p.expiry })

abbrev pub is_some {ℓ} : {A : Type ℓ} → Option A → Bool
is_some none = false
is_some (some a) = true

-- The machine's collections are the history's.
pub record Agrees (config_id : Id32) (version : ℕ) (m : GuardianMachine) (log : List Call)
    : Type 0 where
  pub same_config : m.config_id ≡ config_id
  pub same_version : m.current_version ≡ version
  pub cancels_kept : (k : Id32) → Map.get m.cancelled k ≡ find_cancel log k
  pub begins_kept : (k : Id32) → facts (Map.get m.pending k) ≡ find_begin log k
  pub ids_kept : (k : Id32) → Set.contains m.seen k ≡ is_some (find_begin log k)
  pub nonces_kept : (n : Id32) → Set.contains m.seen_nonces n ≡ nonce_used log n
