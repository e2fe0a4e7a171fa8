-- ===== src/Storage/Epoch/Calls.antt =====
-- Any sequence of operations on the store of a guardian.
use master_recovery.Prelude.{ℕ, Bool, List, [], ◌∷◌, is_ok}
use master_recovery.Collections.Set.{Set}
use master_recovery.Types.Basic.{Id32}
use master_recovery.Types.Epoch.{GuardianRecordV3, EpochActivationQc}
use master_recovery.Storage.Epoch.{GuardianEpochStore, DpssSessionJournal}
use master_recovery.Storage.Epoch.Rotate.{
  prepare_successor, activate_successor, abort_prepared, observe_replacement_activation,
}
use master_recovery.Storage.Epoch.Drain.{finish_draining_request, retire_epoch}

pub data Call : Type 0 where
  prepares : Id32 → Id32 → GuardianRecordV3 → DpssSessionJournal → Call
  activates : Id32 → Id32 → EpochActivationQc → Id32 → ℕ → Set → Call
  aborts : Id32 → Id32 → Call
  replaces : Id32 → Id32 → EpochActivationQc → Id32 → ℕ → Set → Call
  finishes : ℕ → Id32 → Call
  retires : ℕ → ℕ → Call

-- The store after a call, and whether the call succeeded.
unfoldable pub perform : GuardianEpochStore → Call → GuardianEpochStore × Bool
perform s (prepares r p g j) = let out = prepare_successor s r p g j in (out.0, is_ok out.1)
perform s (activates r p qc h d q) =
    let out = activate_successor s r p qc h d q in (out.0, is_ok out.1)
perform s (aborts r p) = let out = abort_prepared s r p in (out.0, is_ok out.1)
perform s (replaces r p qc h d q) =
    let out = observe_replacement_activation s r p qc h d q in (out.0, is_ok out.1)
perform s (finishes e q) = let out = finish_draining_request s e q in (out.0, is_ok out.1)
perform s (retires e now) = let out = retire_epoch s e now in (out.0, is_ok out.1)

unfoldable pub run : GuardianEpochStore → List Call → GuardianEpochStore
run s [] = s
run s (c ∷ cs) = run (perform s c).0 cs
