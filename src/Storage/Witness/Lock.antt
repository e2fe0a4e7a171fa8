-- ===== src/Storage/Witness/Lock.antt =====
-- What the store of a witness promises, and how it stands to the witness machine of gp-core.
use master_recovery.Prelude.{◌≡◌, ◌≢◌, Bool, true, none, arith, ok, err, is_ok}
use master_recovery.Collections.Map
use master_recovery.Types.Basic.{Id32}
use master_recovery.Types.Rotation.{ConfigRef, is_direct_successor_of}
use master_recovery.Core.Witness.{EpochWitnessMachine, accept_successor}
use master_recovery.Storage.{conflict}
use master_recovery.Storage.Witness.{
  WitnessEpochStore, persist_successor_before_ack, cancel_pending_successor,
}

-- After a successor is stored for a predecessor hash, a retry is acknowledged without a change, and
-- any other direct successor of that predecessor, under another capsule hash, is refused as a
-- conflict without a change.
pub stored_successor_answers :
    (m : WitnessEpochStore) (p s q : ConfigRef) (h k j : Id32)
    → is_ok (persist_successor_before_ack m p h s k).1 ≡ true
    → is_direct_successor_of q p ≡ true
    → j ≢ k
    → let m' = (persist_successor_before_ack m p h s k).0 in
      (persist_successor_before_ack m' p h s k ≡ (m', ok tt))
      × (persist_successor_before_ack m' p h q j ≡ (m', err conflict))
unfolding persist_successor_before_ack
stored_successor_answers m p s q h k j e d ne = (
  ground (arith, Map.get-insert m.predecessor_locks h h k),
  ground (arith, Map.get-insert m.predecessor_locks h h k),
)

-- What can be read of a store.
pub record SameView (a b : WitnessEpochStore) : Type 0 where
  pub config_id : a.config_id ≡ b.config_id
  pub highest_guardian_epoch : a.highest_guardian_epoch ≡ b.highest_guardian_epoch
  pub highest_capsule_hash : a.highest_capsule_hash ≡ b.highest_capsule_hash
  pub predecessor_locks : (h : Id32) → Map.get a.predecessor_locks h ≡ Map.get b.predecessor_locks h
  pub seen_read_nonces : a.seen_read_nonces ≡ b.seen_read_nonces

-- Cancelling a successor that was just stored, for a predecessor hash that had no lock, succeeds and
-- gives a store with the configuration, epoch, capsule hash, nonces and lookups of locks of before.
pub cancel_undoes_persist :
    (m : WitnessEpochStore) (p s : ConfigRef) (h k : Id32)
    → Map.get m.predecessor_locks h ≡ none
    → is_ok (persist_successor_before_ack m p h s k).1 ≡ true
    → (is_ok
          (cancel_pending_successor
            (persist_successor_before_ack m p h s k).0
            p.guardian_epoch
            h
            s.guardian_epoch
            k).1
        ≡ true)
      × SameView
          (cancel_pending_successor
            (persist_successor_before_ack m p h s k).0
            p.guardian_epoch
            h
            s.guardian_epoch
            k).0
          m
unfolding persist_successor_before_ack cancel_pending_successor is_direct_successor_of
cancel_undoes_persist m p s h k fresh e = (
  ground (arith, Map.get-insert m.predecessor_locks h h k),
  record {
    config_id = ground arith;
    highest_guardian_epoch = ground (arith, Map.get-insert m.predecessor_locks h h k);
    highest_capsule_hash = ground (arith, Map.get-insert m.predecessor_locks h h k);
    predecessor_locks = λ j. ground (
      arith,
      Map.get-insert m.predecessor_locks h h k,
      Map.get-insert m.predecessor_locks h j k,
      Map.get-remove (Map.insert m.predecessor_locks h k) h j,
    );
    seen_read_nonces = ground arith;
  },
)

-- A store that holds what a machine holds.
pub record Holds (s : WitnessEpochStore) (m : EpochWitnessMachine) : Type 0 where
  pub config_id : s.config_id ≡ m.config_id
  pub epoch : s.highest_guardian_epoch ≡ m.highest_epoch
  pub hash : s.highest_capsule_hash ≡ m.highest_capsule_hash
  pub locks : (h : Id32) → Map.get s.predecessor_locks h ≡ Map.get m.predecessor_locks h

-- A store that holds a machine's configuration, epoch, capsule hash and locks stores every successor
-- that the machine accepts, and holds the machine's state after it.
pub store_follows_machine :
    (st : WitnessEpochStore) (m : EpochWitnessMachine) (p s : ConfigRef) (h k : Id32) (valid : Bool)
    → Holds st m
    → is_ok (accept_successor m p h s k valid).1 ≡ true
    → (is_ok (persist_successor_before_ack st p h s k).1 ≡ true)
      × Holds (persist_successor_before_ack st p h s k).0 (accept_successor m p h s k valid).0
unfolding persist_successor_before_ack accept_successor
store_follows_machine st m p s h k valid r e = (
  ground (arith, r.config_id, r.epoch, r.hash, r.locks h),
  record {
    config_id = ground (arith, r.config_id, r.epoch, r.hash, r.locks h);
    epoch = ground (arith, r.config_id, r.epoch, r.hash, r.locks h);
    hash = ground (arith, r.config_id, r.epoch, r.hash, r.locks h);
    locks = λ j. ground (
      arith,
      r.config_id,
      r.epoch,
      r.hash,
      r.locks h,
      r.locks j,
      Map.get-insert st.predecessor_locks h j k,
      Map.get-insert m.predecessor_locks h j k,
    );
  },
)
