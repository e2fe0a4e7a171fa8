-- ===== src/Storage/Epoch/Invariant.antt =====
-- What every store of a guardian satisfies, and that a refused operation leaves no trace.
use master_recovery.Prelude.{
  ℕ, ◌≡◌, refl, ◌<◌, true, false, none, some, Option-cases, inl, inr, arith,
}
use master_recovery.Collections.Map
use master_recovery.Types.Basic.{Id32}
use master_recovery.Types.Rotation.{ConfigRef, is_direct_successor_of}
use master_recovery.Types.Epoch.{GuardianEpochState, GuardianRecordV3}
use master_recovery.Storage.Epoch.{
  GuardianEpochStore, DrainingGuardianEpoch, PreparedGuardianEpoch, new, new_candidate, empty_store,
}
use master_recovery.Storage.Epoch.Rotate.{
  prepare_successor, activate_successor, install, abort_prepared, observe_replacement_activation,
}
use master_recovery.Storage.Epoch.Drain.{finish_draining_request, retire_epoch}
use master_recovery.Storage.Epoch.Calls.{
  Call, prepares, activates, aborts, replaces, finishes, retires, perform,
}

-- The active record is of the expected predecessor. A prepared record is its direct successor, was
-- written at a real generation, and is of a rotation that has not ended. A record that drains is kept
-- under its own epoch, with the deadline of its entry.
pub record IsConsistent (s : GuardianEpochStore) : Type 0 where
  pub active_state :
      (r : GuardianRecordV3) → s.active ≡ some r → r.policy.epoch_state ≡ GuardianEpochState.active
  pub active_ref :
      (r : GuardianRecordV3) → s.active ≡ some r → r.policy.config_ref ≡ s.expected_predecessor
  pub active_hash :
      (r : GuardianRecordV3)
      → s.active ≡ some r
      → s.active_capsule_hash ≡ some s.expected_predecessor_capsule_hash
  pub prepared_state :
      (p : PreparedGuardianEpoch)
      → s.prepared ≡ some p
      → p.record_v3.policy.epoch_state ≡ GuardianEpochState.prepared
  pub prepared_successor :
      (p : PreparedGuardianEpoch)
      → s.prepared ≡ some p
      → is_direct_successor_of p.record_v3.policy.config_ref s.expected_predecessor ≡ true
  pub prepared_generation :
      (p : PreparedGuardianEpoch) → s.prepared ≡ some p → 0 < p.durable_write_generation
  pub prepared_open :
      (p : PreparedGuardianEpoch)
      → s.prepared ≡ some p
      → Map.get s.rotation_tombstones p.rotation_id ≡ none
  pub journal : s.prepared ≡ none → s.dpss_journal ≡ none
  pub draining_state :
      (k : ℕ) (d : DrainingGuardianEpoch)
      → Map.get s.draining k ≡ some d
      → d.record_v3.policy.epoch_state ≡ GuardianEpochState.draining
  pub draining_epoch :
      (k : ℕ) (d : DrainingGuardianEpoch)
      → Map.get s.draining k ≡ some d
      → d.record_v3.policy.config_ref.guardian_epoch ≡ k
  pub draining_deadline :
      (k : ℕ) (d : DrainingGuardianEpoch)
      → Map.get s.draining k ≡ some d
      → d.record_v3.policy.drain_deadline ≡ some d.drain_deadline
  pub generation : 0 < s.next_write_generation

empty_draining : (k : ℕ) → Map.get {V = DrainingGuardianEpoch} Map.empty k ≡ none
empty_draining k = Map.get-empty k

pub new-IsConsistent : (r : GuardianRecordV3) (h : Id32) → IsConsistent (new r h)
unfolding new empty_store
new-IsConsistent r h = record {
  active_state = λ q e. ground arith;
  active_ref = λ q e. ground arith;
  active_hash = λ q e. refl;
  prepared_state = λ p e. absurd (cc e);
  prepared_successor = λ p e. absurd (cc e);
  prepared_generation = λ p e. absurd (cc e);
  prepared_open = λ p e. absurd (cc e);
  journal = λ e. refl;
  draining_state = λ k d g. absurd (ground (arith, empty_draining k));
  draining_epoch = λ k d g. absurd (ground (arith, empty_draining k));
  draining_deadline = λ k d g. absurd (ground (arith, empty_draining k));
  generation = omega arith;
}

pub new_candidate-IsConsistent : (c : ConfigRef) (h : Id32) → IsConsistent (new_candidate c h)
unfolding new_candidate empty_store
new_candidate-IsConsistent c h = record {
  active_state = λ q e. absurd (cc e);
  active_ref = λ q e. absurd (cc e);
  active_hash = λ q e. absurd (cc e);
  prepared_state = λ p e. absurd (cc e);
  prepared_successor = λ p e. absurd (cc e);
  prepared_generation = λ p e. absurd (cc e);
  prepared_open = λ p e. absurd (cc e);
  journal = λ e. refl;
  draining_state = λ k d g. absurd (ground (arith, empty_draining k));
  draining_epoch = λ k d g. absurd (ground (arith, empty_draining k));
  draining_deadline = λ k d g. absurd (ground (arith, empty_draining k));
  generation = omega arith;
}

-- A call that fails on a consistent store leaves the store as it was.
pub refused_call_unchanged :
    (s : GuardianEpochStore) (c : Call)
    → IsConsistent s
    → (perform s c).1 ≡ false
    → (perform s c).0 ≡ s
unfolding perform prepare_successor activate_successor install abort_prepared
    observe_replacement_activation finish_draining_request retire_epoch
refused_call_unchanged s (prepares r p g j) h e = ground arith
refused_call_unchanged s (activates r p qc q d l) h e = elim (Option-cases s.active) [
  | inl n ↦ ground arith
  | inr (old, a) ↦ ground (arith, h.active_hash old a)
]
refused_call_unchanged s (aborts r p) h e = ground arith
refused_call_unchanged s (replaces r p qc q d l) h e = elim (Option-cases s.active) [
  | inl n ↦ ground arith
  | inr (old, a) ↦ ground (arith, h.active_hash old a)
]
refused_call_unchanged s (finishes k q) h e = ground arith
refused_call_unchanged s (retires k now) h e = ground arith
