-- ===== src/Core/Witness/Tests.antt =====
-- Runs of a witness, and the theorems about it at concrete inputs.
use master_recovery.Prelude.{
  ℕ, ◌≡◌, refl, ◌≤◌, true, false, [], ◌∷◌, arith, u64_max, saturating_add, ok, err, is_ok,
}
use master_recovery.Collections.Map
use master_recovery.Collections.Set
use master_recovery.Types.Rotation.{ConfigRef, is_direct_successor_of}
use master_recovery.Core.Rotation.{invalid_successor}
use master_recovery.Core.Witness.{
  EpochWitnessMachine, sign_fresh_read, new, accept_successor, fresh_read,
  observe_same_epoch_conflict, highest,
}
use master_recovery.Core.Witness.Register.{
  accepts, observes, run, one_child, epoch_rises, retry_refused, read_once,
}

abbrev config : ℕ → ℕ → ConfigRef
config epoch marker = record {
  config_id = 1;
  payload_generation = 1;
  authorization_epoch = 1;
  guardian_epoch = epoch;
  epoch_binding = marker;
}

abbrev witness : EpochWitnessMachine
witness = new 1 4 40

accepted : is_ok (accept_successor witness (config 4 1) 40 (config 5 2) 50 true).1 ≡ true
unfolding accept_successor new is_direct_successor_of saturating_add Map.get Map.empty
accepted = refl

one_child_example :
    is_ok
      (accept_successor
        (run (accept_successor witness (config 4 1) 40 (config 5 2) 50 true).0 (observes 5 51 ∷ []))
        (config 4 1)
        40
        (config 5 3)
        51
        true).1
    ≡ false
one_child_example =
    one_child witness (config 4 1) 40 (config 5 2) 50 true (observes 5 51 ∷ []) (config 4 1)
      (config 5 3) 51 true accepted (omega arith)

epoch_rises_holds :
    let m = run witness (accepts (config 4 1) 40 (config 5 2) 50 true ∷ []) in
    (4 ≤ m.highest_epoch) × (m.highest_epoch ≤ u64_max)
unfolding new
epoch_rises_holds =
    epoch_rises witness (accepts (config 4 1) 40 (config 5 2) 50 true ∷ []) (omega arith)

retry_refused_example :
    let m' = (accept_successor witness (config 4 1) 40 (config 5 2) 50 true).0 in
    (highest m' ≡ (5, 50))
    × (accept_successor m' (config 4 1) 40 (config 5 2) 50 true ≡ (m', err invalid_successor))
unfolding new
retry_refused_example =
    retry_refused witness (config 4 1) 40 (config 5 2) 50 true (Map.get-empty 40) (omega arith)
      accepted

read : is_ok (fresh_read witness 1 77 10 20 15).1 ≡ true
unfolding fresh_read new Set.contains Set.empty
read = refl

read_once_holds :
    let (m', answer) = fresh_read witness 1 77 10 20 15 in
    (answer ≡ ok (sign_fresh_read 77 4 40))
    × (is_ok (fresh_read (run m' (observes 9 9 ∷ [])) 1 77 30 40 35).1 ≡ false)
unfolding new
read_once_holds = read_once witness 1 77 10 20 15 (observes 9 9 ∷ []) 1 30 40 35 read

conflict : is_ok (observe_same_epoch_conflict witness 4 41).1 ≡ true
unfolding observe_same_epoch_conflict new
conflict = refl
