-- ===== src/Storage/Epoch/Course.antt =====
-- The course of a rotation in the store of a guardian: prepared, acknowledged, ended, and its
-- predecessor drained and retired.
use master_recovery.Prelude.{
  ℕ, ◌≡◌, ◌≢◌, refl, ◌≤◌, ◌↔◌, Bool, true, false, Option, none, some, Option-cases, inl, inr, List,
  [], ◌∷◌, arith, ok, err, is_ok,
}
use master_recovery.Collections.Map
use master_recovery.Collections.Set
use master_recovery.Collections.Set.{Set}
use master_recovery.Types.Basic.{Id32}
use master_recovery.Types.Rotation.{is_direct_successor_of, RotationState}
use master_recovery.Types.Epoch.{GuardianRecordV3, EpochActivationQc}
use master_recovery.Storage.{StorageError, replay}
use master_recovery.Storage.Epoch.{
  GuardianEpochStore, DpssSessionJournal, DrainingGuardianEpoch, Outcome, transaction,
}
use master_recovery.Storage.Epoch.Rotate.{
  prepare_successor, prepared_ack_generation, rotation_tombstone, draining_entry,
  activate_successor, install, abort_prepared, observe_replacement_activation,
}
use master_recovery.Storage.Epoch.Drain.{finish_draining_request, retire_epoch}
use master_recovery.Storage.Epoch.Calls.{
  Call, prepares, activates, aborts, replaces, finishes, retires, perform, run,
}
use master_recovery.Storage.Epoch.Invariant.{IsConsistent}

-- A transaction that fails leaves the store as it was, and one that succeeds commits all that the
-- operation did.
pub transaction_atomic :
    {T : Type 0} (s : GuardianEpochStore) (fails : Bool) (mutate : GuardianEpochStore → Outcome T)
    → ((e : StorageError)
        → (transaction s fails mutate).1 ≡ err e
        → (transaction s fails mutate).0 ≡ s)
      × ((t : T)
          → (transaction s fails mutate).1 ≡ ok t
          → ((transaction s fails mutate).0 ≡ (mutate s).0)
            × ((mutate s).1 ≡ ok t)
            × (fails ≡ false))
unfolding transaction
transaction_atomic s fails mutate = (λ e h. ground arith, λ t h. ground arith)

-- What a store prepared, it acknowledges with the generation it was written at.
pub prepared_is_acknowledged :
    (s : GuardianEpochStore) (r p : Id32) (g : GuardianRecordV3) (j : DpssSessionJournal) (n : ℕ)
    → IsConsistent s
    → (prepare_successor s r p g j).1 ≡ ok n
    → prepared_ack_generation (prepare_successor s r p g j).0 r p ≡ ok n
unfolding prepare_successor prepared_ack_generation
prepared_is_acknowledged s r p g j n h e = ground (arith, h.generation)

-- Whether a rotation has a tombstone.
abbrev has_ended : GuardianEpochStore → Id32 → Bool
has_ended s r = Map.contains_key s.rotation_tombstones r

-- The rotation that a call ends where it succeeds.
abbrev pub ends : Call → Option Id32
ends (prepares r p g j) = none
ends (activates r p qc q d l) = some r
ends (aborts r p) = some r
ends (replaces r p qc q d l) = some r
ends (finishes k q) = none
ends (retires k now) = none

ended-perform :
    (s : GuardianEpochStore) (c : Call) (r : Id32)
    → has_ended s r ≡ true
    → has_ended (perform s c).0 r ≡ true
unfolding perform prepare_successor activate_successor install abort_prepared
    observe_replacement_activation finish_draining_request retire_epoch
ended-perform s (prepares i p g j) r h = ground arith
ended-perform s (activates i p qc q d l) r h = ground (
  arith,
  Map.get-insert s.rotation_tombstones i r
      (rotation_tombstone i p s.expected_predecessor_capsule_hash RotationState.active),
)
ended-perform s (aborts i p) r h = ground (
  arith,
  Map.get-insert s.rotation_tombstones i r
      (rotation_tombstone i p s.expected_predecessor_capsule_hash RotationState.aborted),
)
ended-perform s (replaces i p qc q d l) r h = elim (Option-cases s.active_capsule_hash) [
  | inl n ↦ ground arith
  | inr (k, a) ↦ ground (
    arith,
    Map.get-insert s.rotation_tombstones i r (rotation_tombstone i p k RotationState.draining),
  )
]
ended-perform s (finishes k q) r h = ground arith
ended-perform s (retires k now) r h = ground arith

ended-run :
    (s : GuardianEpochStore) (cs : List Call) (r : Id32)
    → has_ended s r ≡ true
    → has_ended (run s cs) r ≡ true
unfolding run
ended-run s [] r h = h
ended-run s (c ∷ cs) r h = ended-run (perform s c).0 cs r (ended-perform s c r h)

call-ends :
    (s : GuardianEpochStore) (c : Call) (r : Id32)
    → ends c ≡ some r
    → (perform s c).1 ≡ true
    → has_ended (perform s c).0 r ≡ true
unfolding perform activate_successor install abort_prepared observe_replacement_activation
call-ends s (prepares i p g j) r e h = absurd (cc e)
call-ends s (activates i p qc q d l) r e h =
    let same : i ≡ r = cc e in
    rw (← same) (
      ground (
        arith,
        Map.get-insert s.rotation_tombstones i i
            (rotation_tombstone i p s.expected_predecessor_capsule_hash RotationState.active),
      ))
call-ends s (aborts i p) r e h =
    let same : i ≡ r = cc e in
    rw (← same) (
      ground (
        arith,
        Map.get-insert s.rotation_tombstones i i
            (rotation_tombstone i p s.expected_predecessor_capsule_hash RotationState.aborted),
      ))
call-ends s (replaces i p qc q d l) r e h =
    let same : i ≡ r = cc e in
    rw (← same) (elim (Option-cases s.active_capsule_hash) [
      | inl n ↦ absurd (ground arith)
      | inr (k, a) ↦ ground (
        arith,
        Map.get-insert s.rotation_tombstones i i (rotation_tombstone i p k RotationState.draining),
      )
    ])
call-ends s (finishes k q) r e h = absurd (cc e)
call-ends s (retires k now) r e h = absurd (cc e)

prepare-ended :
    (s : GuardianEpochStore) (r p : Id32) (g : GuardianRecordV3) (j : DpssSessionJournal)
    → has_ended s r ≡ true
    → prepare_successor s r p g j ≡ (s, err replay)
unfolding prepare_successor
prepare-ended s r p g j h = ground arith

-- Once a rotation is activated, aborted or taken over in a store, no later call makes the store
-- prepare it again: the attempt is refused as a replay and changes nothing.
pub ended_rotation_refused :
    (s : GuardianEpochStore) (c : Call) (cs : List Call) (r p : Id32) (g : GuardianRecordV3)
    (j : DpssSessionJournal)
    → ends c ≡ some r
    → (perform s c).1 ≡ true
    → prepare_successor (run (perform s c).0 cs) r p g j ≡ (run (perform s c).0 cs, err replay)
ended_rotation_refused s c cs r p g j e h =
    prepare-ended (run (perform s c).0 cs) r p g j
      (ended-run (perform s c).0 cs r (call-ends s c r e h))

-- What an activation hands over to a new store from the old one.
pub record HandsOver (s t : GuardianEpochStore) (deadline : ℕ) : Type 0 where
  pub active : t.active ≢ none
  pub successor : is_direct_successor_of t.expected_predecessor s.expected_predecessor ≡ true
  pub nothing_prepared : t.prepared ≡ none
  pub journal_erased : t.dpss_journal ≡ none
  pub entry : DrainingGuardianEpoch
  pub kept : Map.get t.draining s.expected_predecessor.guardian_epoch ≡ some entry
  pub entry_deadline : entry.drain_deadline ≡ deadline
  pub entry_hash : entry.capsule_hash ≡ s.expected_predecessor_capsule_hash

-- A successful activation in a consistent store with an active record leaves an active record, moves
-- the expected predecessor to its direct successor, leaves nothing prepared and no journal, and
-- drains the old epoch under its number, with its capsule hash and the given deadline.
pub activate_successor-HandsOver :
    (s : GuardianEpochStore) (old : GuardianRecordV3) (r p : Id32) (qc : EpochActivationQc)
    (q : Id32) (deadline : ℕ) (pending : Set)
    → IsConsistent s
    → s.active ≡ some old
    → is_ok (activate_successor s r p qc q deadline pending).1 ≡ true
    → HandsOver s (activate_successor s r p qc q deadline pending).0 deadline
unfolding activate_successor install
activate_successor-HandsOver s old r p qc q deadline pending h a e =
    elim (Option-cases s.prepared) [
      | inl n ↦ absurd (ground arith)
      | inr (prep, b) ↦
          let entry =
            draining_entry old s.expected_predecessor_capsule_hash old.policy.activation_qc_hash
              deadline pending in
          record {
            active = λ n. absurd (ground arith);
            successor = ground (arith, h.prepared_successor prep b);
            nothing_prepared = ground arith;
            journal_erased = ground arith;
            entry = entry;
            kept = ground (
              arith,
              h.active_hash old a,
              h.active_ref old a,
              Map.get-insert s.draining old.policy.config_ref.guardian_epoch
                  s.expected_predecessor.guardian_epoch entry,
            );
            entry_deadline = refl;
            entry_hash = refl;
          }
    ]

-- When a retirement succeeds.
pub record MayRetire (s : GuardianEpochStore) (epoch now : ℕ) (hash : Id32) : Type 0 where
  pub entry : DrainingGuardianEpoch
  pub kept : Map.get s.draining epoch ≡ some entry
  pub drained : entry.drain_deadline ≤ now
  pub idle : Set.is_empty entry.pending_request_ids ≡ true
  pub hash_is : entry.capsule_hash ≡ hash

may_retire :
    (s : GuardianEpochStore) (c now : ℕ) (h : Id32)
    → (retire_epoch s c now).1 ≡ ok h
    → MayRetire s c now h
unfolding retire_epoch
may_retire s c now h e = elim (Option-cases (Map.get s.draining c)) [
  | inl n ↦ absurd (ground arith)
  | inr (d, g) ↦ record {
    entry = d;
    kept = g;
    drained = ground arith;
    idle = ground arith;
    hash_is = ground arith;
  }
]

retires_allowed :
    (s : GuardianEpochStore) (c now : ℕ) (h : Id32)
    → MayRetire s c now h
    → (retire_epoch s c now).1 ≡ ok h
unfolding retire_epoch
retires_allowed s c now h m = ground (arith, m.kept, m.drained, m.idle, m.hash_is)

-- An epoch is retired exactly when it drains, its deadline has passed and no request of it is
-- pending; its capsule's hash is returned.
pub retired_iff :
    (s : GuardianEpochStore) (c now : ℕ) (h : Id32)
    → ((retire_epoch s c now).1 ≡ ok h) ↔ MayRetire s c now h
retired_iff s c now h = (may_retire s c now h, retires_allowed s c now h)
