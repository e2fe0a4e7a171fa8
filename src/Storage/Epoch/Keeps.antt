-- ===== src/Storage/Epoch/Keeps.antt =====
-- Every operation on the store of a guardian keeps it consistent.
use master_recovery.Prelude.{ℕ, some, Option-cases, inl, inr, List, [], ◌∷◌, arith, saturating_add}
use master_recovery.Collections.Map
use master_recovery.Collections.Set
use master_recovery.Collections.Set.{Set}
use master_recovery.Types.Basic.{Id32}
use master_recovery.Types.Rotation.{ConfigRef}
use master_recovery.Types.Epoch.{GuardianRecordV3, EpochActivationQc}
use master_recovery.Storage.Epoch.{GuardianEpochStore, DpssSessionJournal, new, new_candidate}
use master_recovery.Storage.Epoch.Rotate.{
  prepare_successor, draining_entry, activate_successor, install, abort_prepared,
  observe_replacement_activation,
}
use master_recovery.Storage.Epoch.Drain.{finish_draining_request, retire_epoch}
use master_recovery.Storage.Epoch.Calls.{
  Call, prepares, activates, aborts, replaces, finishes, retires, perform, run,
}
use master_recovery.Storage.Epoch.Invariant.{
  IsConsistent, new-IsConsistent, new_candidate-IsConsistent,
}

prepare-IsConsistent :
    (s : GuardianEpochStore) (r p : Id32) (g : GuardianRecordV3) (j : DpssSessionJournal)
    → IsConsistent s
    → IsConsistent (prepare_successor s r p g j).0
unfolding prepare_successor saturating_add
prepare-IsConsistent s r p g j h = record {
  active_state = λ x e. ground (arith, h.active_state x);
  active_ref = λ x e. ground (arith, h.active_ref x);
  active_hash = λ x e. ground (arith, h.active_hash x);
  prepared_state = λ x e. ground (arith, h.prepared_state x);
  prepared_successor = λ x e. ground (arith, h.prepared_successor x);
  prepared_generation = λ x e. ground (arith, h.prepared_generation x, h.generation);
  prepared_open = λ x e. ground (arith, h.prepared_open x);
  journal = λ e. ground (arith, h.journal);
  draining_state = λ k d e. ground (arith, h.draining_state k d);
  draining_epoch = λ k d e. ground (arith, h.draining_epoch k d);
  draining_deadline = λ k d e. ground (arith, h.draining_deadline k d);
  generation = ground (arith, h.generation);
}

abort-IsConsistent :
    (s : GuardianEpochStore) (r p : Id32) → IsConsistent s → IsConsistent (abort_prepared s r p).0
unfolding abort_prepared
abort-IsConsistent s r p h = record {
  active_state = λ x e. ground (arith, h.active_state x);
  active_ref = λ x e. ground (arith, h.active_ref x);
  active_hash = λ x e. ground (arith, h.active_hash x);
  prepared_state = λ x e. ground (arith, h.prepared_state x);
  prepared_successor = λ x e. ground (arith, h.prepared_successor x);
  prepared_generation = λ x e. ground (arith, h.prepared_generation x);
  prepared_open = λ x e. ground (arith, h.prepared_open x);
  journal = λ e. ground (arith, h.journal);
  draining_state = λ k d e. ground (arith, h.draining_state k d);
  draining_epoch = λ k d e. ground (arith, h.draining_epoch k d);
  draining_deadline = λ k d e. ground (arith, h.draining_deadline k d);
  generation = ground (arith, h.generation);
}

finish-IsConsistent :
    (s : GuardianEpochStore) (c : ℕ) (q : Id32)
    → IsConsistent s
    → IsConsistent (finish_draining_request s c q).0
unfolding finish_draining_request
finish-IsConsistent s c q h = record {
  active_state = λ x e. ground (arith, h.active_state x);
  active_ref = λ x e. ground (arith, h.active_ref x);
  active_hash = λ x e. ground (arith, h.active_hash x);
  prepared_state = λ x e. ground (arith, h.prepared_state x);
  prepared_successor = λ x e. ground (arith, h.prepared_successor x);
  prepared_generation = λ x e. ground (arith, h.prepared_generation x);
  prepared_open = λ x e. ground (arith, h.prepared_open x);
  journal = λ e. ground (arith, h.journal);
  draining_state = λ k d e. elim (Option-cases (Map.get s.draining c)) [
    | inl n ↦ ground (arith, h.draining_state k d)
    | inr (old, a) ↦ ground (
      arith,
      h.draining_state k d,
      h.draining_state c old a,
      Map.get-insert s.draining c k
          (record old { pending_request_ids = Set.remove old.pending_request_ids q }),
    )
  ];
  draining_epoch = λ k d e. elim (Option-cases (Map.get s.draining c)) [
    | inl n ↦ ground (arith, h.draining_epoch k d)
    | inr (old, a) ↦ ground (
      arith,
      h.draining_epoch k d,
      h.draining_epoch c old a,
      Map.get-insert s.draining c k
          (record old { pending_request_ids = Set.remove old.pending_request_ids q }),
    )
  ];
  draining_deadline = λ k d e. elim (Option-cases (Map.get s.draining c)) [
    | inl n ↦ ground (arith, h.draining_deadline k d)
    | inr (old, a) ↦ ground (
      arith,
      h.draining_deadline k d,
      h.draining_deadline c old a,
      Map.get-insert s.draining c k
          (record old { pending_request_ids = Set.remove old.pending_request_ids q }),
    )
  ];
  generation = ground (arith, h.generation);
}

retire-IsConsistent :
    (s : GuardianEpochStore) (c now : ℕ) → IsConsistent s → IsConsistent (retire_epoch s c now).0
unfolding retire_epoch
retire-IsConsistent s c now h = record {
  active_state = λ x e. ground (arith, h.active_state x);
  active_ref = λ x e. ground (arith, h.active_ref x);
  active_hash = λ x e. ground (arith, h.active_hash x);
  prepared_state = λ x e. ground (arith, h.prepared_state x);
  prepared_successor = λ x e. ground (arith, h.prepared_successor x);
  prepared_generation = λ x e. ground (arith, h.prepared_generation x);
  prepared_open = λ x e. ground (arith, h.prepared_open x);
  journal = λ e. ground (arith, h.journal);
  draining_state = λ k d e. ground (arith, h.draining_state k d, Map.get-remove s.draining c k);
  draining_epoch = λ k d e. ground (arith, h.draining_epoch k d, Map.get-remove s.draining c k);
  draining_deadline =
      λ k d e. ground (arith, h.draining_deadline k d, Map.get-remove s.draining c k);
  generation = ground (arith, h.generation);
}

activate-IsConsistent :
    (s : GuardianEpochStore) (r p : Id32) (qc : EpochActivationQc) (q : Id32) (deadline : ℕ)
    (pending : Set)
    → IsConsistent s
    → IsConsistent (activate_successor s r p qc q deadline pending).0
unfolding activate_successor install
activate-IsConsistent s r p qc q deadline pending h = elim (Option-cases s.active) [
  | inl n ↦ record {
    active_state = λ x e. ground (arith, h.active_state x);
    active_ref = λ x e. ground (arith, h.active_ref x);
    active_hash = λ x e. ground (arith, h.active_hash x);
    prepared_state = λ x e. ground (arith, h.prepared_state x);
    prepared_successor = λ x e. ground (arith, h.prepared_successor x);
    prepared_generation = λ x e. ground (arith, h.prepared_generation x);
    prepared_open = λ x e. ground (arith, h.prepared_open x);
    journal = λ e. ground (arith, h.journal);
    draining_state = λ k d e. ground (arith, h.draining_state k d);
    draining_epoch = λ k d e. ground (arith, h.draining_epoch k d);
    draining_deadline = λ k d e. ground (arith, h.draining_deadline k d);
    generation = ground (arith, h.generation);
  }
  | inr (old, a) ↦ record {
    active_state = λ x e. ground (arith, h.active_state x, h.active_hash old a);
    active_ref = λ x e. ground (arith, h.active_ref x, h.active_hash old a);
    active_hash = λ x e. ground (arith, h.active_hash x, h.active_hash old a);
    prepared_state = λ x e. ground (arith, h.prepared_state x, h.active_hash old a);
    prepared_successor = λ x e. ground (arith, h.prepared_successor x, h.active_hash old a);
    prepared_generation = λ x e. ground (arith, h.prepared_generation x, h.active_hash old a);
    prepared_open = λ x e. ground (arith, h.prepared_open x, h.active_hash old a);
    journal = λ e. ground (arith, h.journal, h.active_hash old a);
    draining_state = λ k d e. ground (
      arith,
      h.draining_state k d,
      h.active_hash old a,
      Map.get-insert s.draining old.policy.config_ref.guardian_epoch k (
          draining_entry old s.expected_predecessor_capsule_hash old.policy.activation_qc_hash
            deadline pending),
    );
    draining_epoch = λ k d e. ground (
      arith,
      h.draining_epoch k d,
      h.active_hash old a,
      Map.get-insert s.draining old.policy.config_ref.guardian_epoch k (
          draining_entry old s.expected_predecessor_capsule_hash old.policy.activation_qc_hash
            deadline pending),
    );
    draining_deadline = λ k d e. ground (
      arith,
      h.draining_deadline k d,
      h.active_hash old a,
      Map.get-insert s.draining old.policy.config_ref.guardian_epoch k (
          draining_entry old s.expected_predecessor_capsule_hash old.policy.activation_qc_hash
            deadline pending),
    );
    generation = ground (arith, h.generation, h.active_hash old a);
  }
]

replace-IsConsistent :
    (s : GuardianEpochStore) (r p : Id32) (qc : EpochActivationQc) (q : Id32) (deadline : ℕ)
    (pending : Set)
    → IsConsistent s
    → IsConsistent (observe_replacement_activation s r p qc q deadline pending).0
unfolding observe_replacement_activation
replace-IsConsistent s r p qc q deadline pending h = elim (Option-cases s.active) [
  | inl n ↦ record {
    active_state = λ x e. ground (arith, h.active_state x);
    active_ref = λ x e. ground (arith, h.active_ref x);
    active_hash = λ x e. ground (arith, h.active_hash x);
    prepared_state = λ x e. ground (arith, h.prepared_state x);
    prepared_successor = λ x e. ground (arith, h.prepared_successor x);
    prepared_generation = λ x e. ground (arith, h.prepared_generation x);
    prepared_open = λ x e. ground (arith, h.prepared_open x);
    journal = λ e. ground (arith, h.journal);
    draining_state = λ k d e. ground (arith, h.draining_state k d);
    draining_epoch = λ k d e. ground (arith, h.draining_epoch k d);
    draining_deadline = λ k d e. ground (arith, h.draining_deadline k d);
    generation = ground (arith, h.generation);
  }
  | inr (old, a) ↦ record {
    active_state = λ x e. ground (arith, h.active_state x, h.active_hash old a);
    active_ref = λ x e. ground (arith, h.active_ref x, h.active_hash old a);
    active_hash = λ x e. ground (arith, h.active_hash x, h.active_hash old a);
    prepared_state = λ x e. ground (arith, h.prepared_state x, h.active_hash old a);
    prepared_successor = λ x e. ground (arith, h.prepared_successor x, h.active_hash old a);
    prepared_generation = λ x e. ground (arith, h.prepared_generation x, h.active_hash old a);
    prepared_open = λ x e. ground (arith, h.prepared_open x, h.active_hash old a);
    journal = λ e. ground (arith, h.journal, h.active_hash old a);
    draining_state = λ k d e. ground (
      arith,
      h.draining_state k d,
      h.active_hash old a,
      Map.get-insert s.draining old.policy.config_ref.guardian_epoch k
          (draining_entry old s.expected_predecessor_capsule_hash (some q) deadline pending),
    );
    draining_epoch = λ k d e. ground (
      arith,
      h.draining_epoch k d,
      h.active_hash old a,
      Map.get-insert s.draining old.policy.config_ref.guardian_epoch k
          (draining_entry old s.expected_predecessor_capsule_hash (some q) deadline pending),
    );
    draining_deadline = λ k d e. ground (
      arith,
      h.draining_deadline k d,
      h.active_hash old a,
      Map.get-insert s.draining old.policy.config_ref.guardian_epoch k
          (draining_entry old s.expected_predecessor_capsule_hash (some q) deadline pending),
    );
    generation = ground (arith, h.generation, h.active_hash old a);
  }
]

perform-IsConsistent :
    (s : GuardianEpochStore) (c : Call) → IsConsistent s → IsConsistent (perform s c).0
unfolding perform
perform-IsConsistent s (prepares r p g j) h = prepare-IsConsistent s r p g j h
perform-IsConsistent s (activates r p qc q d l) h = activate-IsConsistent s r p qc q d l h
perform-IsConsistent s (aborts r p) h = abort-IsConsistent s r p h
perform-IsConsistent s (replaces r p qc q d l) h = replace-IsConsistent s r p qc q d l h
perform-IsConsistent s (finishes k q) h = finish-IsConsistent s k q h
perform-IsConsistent s (retires k now) h = retire-IsConsistent s k now h

pub run-IsConsistent :
    (s : GuardianEpochStore) (cs : List Call) → IsConsistent s → IsConsistent (run s cs)
unfolding run
run-IsConsistent s [] h = h
run-IsConsistent s (c ∷ cs) h = run-IsConsistent (perform s c).0 cs (perform-IsConsistent s c h)

-- After any calls on a new store, of a guardian of the roster or of a candidate, the active record is
-- Active and of the expected predecessor, a prepared one is Prepared, its direct successor, of a
-- positive generation and of a rotation without a tombstone, there is no journal where nothing is
-- prepared, and a draining one is Draining, under its own epoch, with its entry's deadline.
pub reached_store-IsConsistent :
    (r : GuardianRecordV3) (p : ConfigRef) (h : Id32) (cs : List Call)
    → IsConsistent (run (new r h) cs) × IsConsistent (run (new_candidate p h) cs)
reached_store-IsConsistent r p h cs = (
  run-IsConsistent (new r h) cs (new-IsConsistent r h),
  run-IsConsistent (new_candidate p h) cs (new_candidate-IsConsistent p h),
)
