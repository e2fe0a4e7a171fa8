-- ===== src/Core/Guardian/Agreement.antt =====
-- Each call of a guardian keeps it in agreement with its history.
use master_recovery.Prelude.{
  ℕ, refl, inl, inr, Option-cases, Bool, List, [], ◌∷◌, arith, saturating_add,
}
use master_recovery.Collections.Map
use master_recovery.Collections.Set
use master_recovery.Types.Basic.{Id32}
use master_recovery.Types.Recovery.{RecoveryState, RecoveryRequest}
use master_recovery.Core.Guardian.{
  GuardianPending, GuardianMachine, new, new_entry, with_state, begin_at, cancel,
  authorize_release_at,
}
use master_recovery.Core.Guardian.History.{
  Call, begins, cancels, authorizes, perform, logged, run, find_begin, find_cancel, nonce_used,
  Agrees,
}

new-Agrees : (config_id : Id32) (version : ℕ) → Agrees config_id version (new config_id version) []
unfolding new find_begin find_cancel nonce_used
new-Agrees config_id version = record {
  same_config = refl;
  same_version = refl;
  cancels_kept = λ k. Map.get-empty k;
  begins_kept = λ k. ground (arith, Map.get-empty {V = GuardianPending} k);
  ids_kept = λ k. Set.contains-empty k;
  nonces_kept = λ k. Set.contains-empty k;
}

module _ {config_id : Id32} {version : ℕ} {m : GuardianMachine} {log : List Call}
    (h : Agrees config_id version m log) where
  begin-Agrees :
      (request : RecoveryRequest) (digest : Id32) (wall mono delay : ℕ) (valid : Bool)
      → let c = begins request digest wall mono delay valid in
        Agrees config_id version (perform m c).0 (logged log c (perform m c).1)
  unfolding perform begin_at find_begin find_cancel nonce_used
  begin-Agrees request digest wall mono delay valid = record {
    same_config = ground (arith, h.same_config);
    same_version = ground (arith, h.same_version);
    cancels_kept = λ k. ground (arith, h.cancels_kept k);
    begins_kept = λ k. ground (
      arith,
      h.begins_kept k,
      Map.get-insert m.pending request.request_id k
          (new_entry request digest mono (saturating_add mono delay)),
    );
    ids_kept = λ k. ground (arith, h.ids_kept k, Set.contains-insert m.seen request.request_id k);
    nonces_kept =
        λ k. ground (arith, h.nonces_kept k, Set.contains-insert m.seen_nonces request.nonce k);
  }

  cancel-Agrees :
      (id digest : Id32) (valid : Bool)
      → let c = cancels id digest valid in
        Agrees config_id version (perform m c).0 (logged log c (perform m c).1)
  unfolding perform cancel find_begin find_cancel nonce_used
  cancel-Agrees id digest valid = record {
    same_config = ground (arith, h.same_config);
    same_version = ground (arith, h.same_version);
    cancels_kept = λ k. ground (arith, h.cancels_kept k, Map.get-insert m.cancelled id k digest);
    begins_kept = λ k. elim (Option-cases (Map.get m.pending id)) [
      | inl e ↦ ground (arith, h.begins_kept k)
      | inr (p, e) ↦ ground (
        arith,
        h.begins_kept k,
        Map.get-insert m.pending id k (with_state p RecoveryState.cancelled),
      )
    ];
    ids_kept = λ k. ground (arith, h.ids_kept k);
    nonces_kept = λ k. ground (arith, h.nonces_kept k);
  }

  authorize-Agrees :
      (id digest : Id32) (wall mono : ℕ) (valid unambiguous : Bool)
      → let c = authorizes id digest wall mono valid unambiguous in
        Agrees config_id version (perform m c).0 (logged log c (perform m c).1)
  unfolding perform authorize_release_at find_begin find_cancel nonce_used
  authorize-Agrees id digest wall mono valid unambiguous = record {
    same_config = ground (arith, h.same_config);
    same_version = ground (arith, h.same_version);
    cancels_kept = λ k. ground (arith, h.cancels_kept k);
    begins_kept = λ k. elim (Option-cases (Map.get m.pending id)) [
      | inl e ↦ ground (arith, h.begins_kept k)
      | inr (p, e) ↦ ground (
        arith,
        h.begins_kept k,
        Map.get-insert m.pending id k (with_state p RecoveryState.expired),
        Map.get-insert m.pending id k (with_state p RecoveryState.releasing),
      )
    ];
    ids_kept = λ k. ground (arith, h.ids_kept k);
    nonces_kept = λ k. ground (arith, h.nonces_kept k);
  }

  perform-Agrees :
      (c : Call) → Agrees config_id version (perform m c).0 (logged log c (perform m c).1)
  perform-Agrees (begins request digest wall mono delay valid) =
      begin-Agrees request digest wall mono delay valid
  perform-Agrees (cancels id digest valid) = cancel-Agrees id digest valid
  perform-Agrees (authorizes id digest wall mono valid unambiguous) =
      authorize-Agrees id digest wall mono valid unambiguous

pub run-Agrees :
    {config_id : Id32} {version : ℕ} (m : GuardianMachine) (log : List Call) (cs : List Call)
    → Agrees config_id version m log
    → let (m', log') = run m log cs in Agrees config_id version m' log'
unfolding run
run-Agrees m log [] h = h
run-Agrees m log (c ∷ cs) h =
    run-Agrees (perform m c).0 (logged log c (perform m c).1) cs (perform-Agrees h c)

-- After any calls to a new guardian, its collections are those of the calls that it accepted.
pub run-new-Agrees :
    (config_id : Id32) (version : ℕ) (cs : List Call)
    → let (m, log) = run (new config_id version) [] cs in Agrees config_id version m log
run-new-Agrees config_id version cs =
    run-Agrees (new config_id version) [] cs (new-Agrees config_id version)
