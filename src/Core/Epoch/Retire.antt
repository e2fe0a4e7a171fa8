-- ===== src/Core/Epoch/Retire.antt =====
-- Retiring a drained epoch, and what no later call of the epoch-bound machine undoes.
use master_recovery.Prelude.{
  ℕ, ◌≡◌, ◌≤◌, ◌<◌, inl, inr, true, false, none, some, List, [], ◌∷◌, arith, is_ok, Bool-cases,
  Option-cases, u64_max, le-saturating_add, saturating_add-le,
}
use master_recovery.Collections.Map
use master_recovery.Types.Recovery.{RecoveryState}
use master_recovery.Types.Rotation.{same_config_ref_iff, is_direct_successor_of}
use master_recovery.Core.Epoch.{
  PendingEpochRecovery, EpochRecoveryMachine, EpochReleaseAuthorization, with_state, begin,
  activate_successor, cancel, authorize_release, is_unfinished, holds_epoch, retire_draining_epoch,
}
use master_recovery.Core.Epoch.History.{Call, activates, retires, perform, logged, run}

retire-finished :
    (m : EpochRecoveryMachine) (epoch mono k : ℕ) (p : PendingEpochRecovery)
    → is_ok (retire_draining_epoch m epoch mono).1 ≡ true
    → Map.get m.pending k ≡ some p
    → holds_epoch epoch p ≡ false
unfolding retire_draining_epoch
retire-finished m epoch mono k p e f =
    Map.any_value-get (holds_epoch epoch) m.pending k p (ground arith) f

retire-removed :
    (m : EpochRecoveryMachine) (epoch mono : ℕ)
    → is_ok (retire_draining_epoch m epoch mono).1 ≡ true
    → Map.get (retire_draining_epoch m epoch mono).0.draining epoch ≡ none
unfolding retire_draining_epoch
retire-removed m epoch mono e = ground (arith, Map.get-remove m.draining epoch epoch)

-- The epoch lies below the active one, which is a word, and does not drain.
record IsClosed (epoch : ℕ) (m : EpochRecoveryMachine) : Type 0 where
  below : epoch < m.active.guardian_epoch
  bounded : m.active.guardian_epoch ≤ u64_max
  drained : Map.get m.draining epoch ≡ none

retire-IsClosed :
    (m : EpochRecoveryMachine) (epoch mono : ℕ)
    → is_ok (retire_draining_epoch m epoch mono).1 ≡ true
    → epoch < m.active.guardian_epoch
    → m.active.guardian_epoch ≤ u64_max
    → IsClosed epoch (retire_draining_epoch m epoch mono).0
unfolding retire_draining_epoch
retire-IsClosed m epoch mono e low top = record {
  below = ground arith;
  bounded = ground arith;
  drained = retire-removed m epoch mono e;
}

-- An activation drains the active epoch, and the next one is not lower.
perform-IsClosed :
    (epoch : ℕ) (m : EpochRecoveryMachine) (c : Call)
    → IsClosed epoch m
    → IsClosed epoch (perform m c).0
unfolding perform begin activate_successor authorize_release cancel retire_draining_epoch
    is_direct_successor_of
perform-IsClosed epoch m (activates successor drain valid) h = record {
  below = ground (arith, h.below, le-saturating_add m.active.guardian_epoch 1 h.bounded);
  bounded = ground (arith, h.bounded, saturating_add-le m.active.guardian_epoch 1);
  drained =
      ground
        (arith, h.below, h.drained, Map.get-insert m.draining m.active.guardian_epoch epoch drain);
}
perform-IsClosed epoch m (retires other mono) h = record {
  below = ground (arith, h.below);
  bounded = ground (arith, h.bounded);
  drained = ground (arith, h.drained, Map.get-remove m.draining other epoch);
}
perform-IsClosed epoch m _ h = record {
  below = ground (arith, h.below);
  bounded = ground (arith, h.bounded);
  drained = ground (arith, h.drained);
}

run-IsClosed :
    (epoch : ℕ) (m : EpochRecoveryMachine) (log cs : List Call)
    → IsClosed epoch m
    → IsClosed epoch (run m log cs).0
unfolding run
run-IsClosed epoch m log [] h = h
run-IsClosed epoch m log (c ∷ cs) h =
    run-IsClosed epoch (perform m c).0 (logged log c (perform m c).1) cs
      (perform-IsClosed epoch m c h)

authorize-closed :
    (m : EpochRecoveryMachine) (a : EpochReleaseAuthorization)
    → IsClosed a.config_ref.guardian_epoch m
    → is_ok (authorize_release m a).1 ≡ false
unfolding authorize_release
authorize-closed m a h =
    ground (arith, h.below, h.drained, same_config_ref_iff a.config_ref m.active)

-- When a draining epoch below the active one, which is at most 2 ^ 64 - 1, is retired, none of its
-- recorded requests is waiting for its delay or releasing, and after any later calls no release is
-- authorized for a configuration of that epoch.
pub retire_closes_epoch :
    (m : EpochRecoveryMachine) (mono k : ℕ) (p : PendingEpochRecovery)
    (a : EpochReleaseAuthorization) (cs : List Call)
    → is_ok (retire_draining_epoch m a.config_ref.guardian_epoch mono).1 ≡ true
    → Map.get m.pending k ≡ some p
    → p.config_ref.guardian_epoch ≡ a.config_ref.guardian_epoch
    → a.config_ref.guardian_epoch < m.active.guardian_epoch
    → m.active.guardian_epoch ≤ u64_max
    → let m' = (run (retire_draining_epoch m a.config_ref.guardian_epoch mono).0 [] cs).0 in
      (is_unfinished p.state ≡ false) × (is_ok (authorize_release m' a).1 ≡ false)
retire_closes_epoch m mono k p a cs e f g low top =
    let m₁ = (retire_draining_epoch m a.config_ref.guardian_epoch mono).0 in
    (
      ground (arith, retire-finished m a.config_ref.guardian_epoch mono k p e f),
      authorize-closed (run m₁ [] cs).0 a (
          run-IsClosed a.config_ref.guardian_epoch m₁ [] cs
            (retire-IsClosed m a.config_ref.guardian_epoch mono e low top)),
    )

retire_blocked :
    (m : EpochRecoveryMachine) (epoch mono k : ℕ) (p : PendingEpochRecovery)
    → Map.get m.pending k ≡ some p
    → holds_epoch epoch p ≡ true
    → is_ok (retire_draining_epoch m epoch mono).1 ≡ false
retire_blocked m epoch mono k p f held =
    elim (Bool-cases (is_ok (retire_draining_epoch m epoch mono).1)) [
      | inl e ↦ cc (retire-finished m epoch mono k p e f)
      | inr e ↦ e
    ]

authorize-releasing :
    (m : EpochRecoveryMachine) (a : EpochReleaseAuthorization) (p : PendingEpochRecovery)
    → Map.get m.pending a.request_id ≡ some p
    → is_ok (authorize_release m a).1 ≡ true
    → (Map.get (authorize_release m a).0.pending a.request_id
        ≡ some (with_state p RecoveryState.releasing))
      × (p.config_ref ≡ a.config_ref)
unfolding authorize_release
authorize-releasing m a p f e = ground (
  arith,
  same_config_ref_iff p.config_ref a.config_ref,
  Map.get-insert m.pending a.request_id a.request_id (with_state p RecoveryState.releasing),
)

authorize-pending :
    (m : EpochRecoveryMachine) (a : EpochReleaseAuthorization)
    → is_ok (authorize_release m a).1 ≡ true
    → (p : PendingEpochRecovery) × (Map.get m.pending a.request_id ≡ some p)
unfolding authorize_release
authorize-pending m a e = elim (Option-cases (Map.get m.pending a.request_id)) [
  | inl f ↦ absurd (ground arith)
  | inr found ↦ found
]

-- An authorized release keeps its epoch from being retired: right after it, no monotonic time lets
-- the epoch go.
pub release_blocks_retirement :
    (m : EpochRecoveryMachine) (a : EpochReleaseAuthorization) (mono : ℕ)
    → is_ok (authorize_release m a).1 ≡ true
    → is_ok (retire_draining_epoch (authorize_release m a).0 a.config_ref.guardian_epoch mono).1
      ≡ false
release_blocks_retirement m a mono e =
    let (p, f) = authorize-pending m a e in
    let (g, same) = authorize-releasing m a p f e in
    retire_blocked (authorize_release m a).0 a.config_ref.guardian_epoch mono a.request_id
      (with_state p RecoveryState.releasing) g (rw same (ground arith))
