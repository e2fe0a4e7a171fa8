-- ===== src/Core/Epoch/Agreement.antt =====
-- Each call of the epoch-bound machine keeps it in agreement with its history.
use master_recovery.Prelude.{
  ℕ, refl, ap, inl, inr, Option-cases, Bool, List, [], ◌∷◌, arith, saturating_add,
}
use master_recovery.Collections.Map
use master_recovery.Collections.Set
use master_recovery.Types.Basic.{Id32}
use master_recovery.Types.Recovery.{RecoveryState}
use master_recovery.Types.Rotation.{ConfigRef, RecoveryRequestV3}
use master_recovery.Core.Epoch.{
  PendingEpochRecovery, EpochRecoveryMachine, EpochReleaseAuthorization, new, new_entry, begin,
  activate_successor, with_state, authorize_release, cancel, retire_draining_epoch,
}
use master_recovery.Core.Epoch.History.{
  Call, begins, activates, authorizes, cancels, retires, perform, logged, run, find_begin,
  find_cancel, nonce_used, active_of, drain_of, Agrees,
}

new-Agrees : (start : ConfigRef) → Agrees start (new start) []
unfolding new find_begin find_cancel nonce_used active_of drain_of
new-Agrees start = record {
  active_kept = refl;
  drains_kept = λ k. Map.get-empty k;
  cancels_kept = λ k. Map.get-empty k;
  begins_kept = λ k. ground (arith, Map.get-empty {V = PendingEpochRecovery} k);
  ids_kept = λ k h. cc;
  nonces_kept = λ k. Set.contains-empty k;
}

module _ {start : ConfigRef} {m : EpochRecoveryMachine} {log : List Call}
    (h : Agrees start m log) where
  begin-Agrees :
      (request : RecoveryRequestV3) (digest : Id32) (wall mono delay : ℕ) (valid : Bool)
      → let c = begins request digest wall mono delay valid in
        Agrees start (perform m c).0 (logged log c (perform m c).1)
  unfolding perform begin find_begin find_cancel nonce_used active_of drain_of
  begin-Agrees request digest wall mono delay valid = record {
    active_kept = ground (arith, h.active_kept);
    drains_kept = λ k. ground (arith, h.drains_kept k);
    cancels_kept = λ k. ground (arith, h.cancels_kept k);
    begins_kept = λ k. ground (
      arith,
      h.begins_kept k,
      Map.get-insert m.pending request.request_id k
          (new_entry request digest (saturating_add mono delay)),
    );
    ids_kept = λ k s.
        ground (arith, h.ids_kept k, Set.contains-insert m.seen_request_ids request.request_id k);
    nonces_kept =
        λ k. ground (arith, h.nonces_kept k, Set.contains-insert m.seen_nonces request.nonce k);
  }

  activate-Agrees :
      (successor : ConfigRef) (drain : ℕ) (valid : Bool)
      → let c = activates successor drain valid in
        Agrees start (perform m c).0 (logged log c (perform m c).1)
  unfolding perform activate_successor find_begin find_cancel nonce_used active_of drain_of
  activate-Agrees successor drain valid = record {
    active_kept = ground (arith, h.active_kept);
    drains_kept = λ k. ground (
      arith,
      h.drains_kept k,
      ap (λ c. c.guardian_epoch) h.active_kept,
      Map.get-insert m.draining m.active.guardian_epoch k drain,
    );
    cancels_kept = λ k. ground (arith, h.cancels_kept k);
    begins_kept = λ k. ground (arith, h.begins_kept k);
    ids_kept = λ k s. ground (arith, h.ids_kept k);
    nonces_kept = λ k. ground (arith, h.nonces_kept k);
  }

  authorize-Agrees :
      (a : EpochReleaseAuthorization)
      → Agrees start
          (perform m (authorizes a)).0
          (logged log (authorizes a) (perform m (authorizes a)).1)
  unfolding perform authorize_release find_begin find_cancel nonce_used active_of drain_of
  authorize-Agrees a = record {
    active_kept = ground (arith, h.active_kept);
    drains_kept = λ k. ground (arith, h.drains_kept k);
    cancels_kept = λ k. ground (arith, h.cancels_kept k);
    begins_kept = λ k. elim (Option-cases (Map.get m.pending a.request_id)) [
      | inl e ↦ ground (arith, h.begins_kept k)
      | inr (p, e) ↦ ground (
        arith,
        h.begins_kept k,
        Map.get-insert m.pending a.request_id k (with_state p RecoveryState.expired),
        Map.get-insert m.pending a.request_id k (with_state p RecoveryState.releasing),
      )
    ];
    ids_kept = λ k s. ground (arith, h.ids_kept k);
    nonces_kept = λ k. ground (arith, h.nonces_kept k);
  }

  cancel-Agrees :
      (id digest : Id32) (valid : Bool)
      → let c = cancels id digest valid in
        Agrees start (perform m c).0 (logged log c (perform m c).1)
  unfolding perform cancel find_begin find_cancel nonce_used active_of drain_of
  cancel-Agrees id digest valid = record {
    active_kept = ground (arith, h.active_kept);
    drains_kept = λ k. ground (arith, h.drains_kept k);
    cancels_kept = λ k. ground (arith, h.cancels_kept k, Map.get-insert m.cancelled id k digest);
    begins_kept = λ k. elim (Option-cases (Map.get m.pending id)) [
      | inl e ↦ ground (arith, h.begins_kept k)
      | inr (p, e) ↦ ground (
        arith,
        h.begins_kept k,
        Map.get-insert m.pending id k (with_state p RecoveryState.cancelled),
      )
    ];
    ids_kept = λ k s. ground (arith, h.ids_kept k);
    nonces_kept = λ k. ground (arith, h.nonces_kept k);
  }

  retire-Agrees :
      (epoch mono : ℕ)
      → let c = retires epoch mono in Agrees start (perform m c).0 (logged log c (perform m c).1)
  unfolding perform retire_draining_epoch find_begin find_cancel nonce_used active_of drain_of
  retire-Agrees epoch mono = record {
    active_kept = ground (arith, h.active_kept);
    drains_kept = λ k. ground (arith, h.drains_kept k, Map.get-remove m.draining epoch k);
    cancels_kept = λ k. ground (arith, h.cancels_kept k);
    begins_kept = λ k. ground (arith, h.begins_kept k);
    ids_kept = λ k s. ground (arith, h.ids_kept k);
    nonces_kept = λ k. ground (arith, h.nonces_kept k);
  }

  perform-Agrees : (c : Call) → Agrees start (perform m c).0 (logged log c (perform m c).1)
  perform-Agrees (begins request digest wall mono delay valid) =
      begin-Agrees request digest wall mono delay valid
  perform-Agrees (activates successor drain valid) = activate-Agrees successor drain valid
  perform-Agrees (authorizes a) = authorize-Agrees a
  perform-Agrees (cancels id digest valid) = cancel-Agrees id digest valid
  perform-Agrees (retires epoch mono) = retire-Agrees epoch mono

run-Agrees :
    {start : ConfigRef} (m : EpochRecoveryMachine) (log cs : List Call)
    → Agrees start m log
    → let (m', log') = run m log cs in Agrees start m' log'
unfolding run
run-Agrees m log [] h = h
run-Agrees m log (c ∷ cs) h =
    run-Agrees (perform m c).0 (logged log c (perform m c).1) cs (perform-Agrees h c)

-- After any calls to a new machine, its fields are those of the calls that it accepted.
pub run-new-Agrees :
    (start : ConfigRef) (cs : List Call)
    → let (m, log) = run (new start) [] cs in Agrees start m log
run-new-Agrees start cs = run-Agrees (new start) [] cs (new-Agrees start)
