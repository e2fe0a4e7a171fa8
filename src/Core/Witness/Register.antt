-- ===== src/Core/Witness/Register.antt =====
-- What a witness promises as a register: one child for each predecessor, epochs that only rise,
-- one answer for each nonce, and silence after a conflict.
use master_recovery.Prelude.{
  ℕ, ◌+◌, ◌≡◌, ◌≢◌, refl, ◌∙◌, ◌≤◌, ◌<◌, Bool, true, false, none, some, List, [], ◌∷◌, arith,
  u64_max, le-saturating_add, saturating_add-le, saturating_add_exact, ok, err, is_ok,
}
use master_recovery.Collections.Map
use master_recovery.Collections.Set
use master_recovery.Types.Basic.{Id32}
use master_recovery.Types.Rotation.{ConfigRef, is_direct_successor_of}
use master_recovery.Core.Rotation.{RotationError, invalid_successor}
use master_recovery.Core.Witness.{
  EpochWitnessMachine, Outcome, sign_fresh_read, accept_successor, fresh_read,
  observe_same_epoch_conflict, highest,
}

pub data Call : Type 0 where
  accepts : ConfigRef → Id32 → ConfigRef → Id32 → Bool → Call
  reads : Id32 → Id32 → ℕ → ℕ → ℕ → Call
  observes : ℕ → Id32 → Call

unfoldable pub perform : EpochWitnessMachine → Call → Outcome
perform m (accepts predecessor predecessor_hash successor successor_hash valid) =
    accept_successor m predecessor predecessor_hash successor successor_hash valid
perform m (reads config_id nonce issued_at expiry now) =
    fresh_read m config_id nonce issued_at expiry now
perform m (observes epoch hash) = observe_same_epoch_conflict m epoch hash

unfoldable pub run : EpochWitnessMachine → List Call → EpochWitnessMachine
run m [] = m
run m (c ∷ cs) = run (perform m c).0 cs

-- What no call of a witness undoes.
pub record Extends (m m' : EpochWitnessMachine) : Type 0 where
  pub locks :
      (h s : Id32)
      → Map.get m.predecessor_locks h ≡ some s
      → Map.get m'.predecessor_locks h ≡ some s
  pub nonces :
      (n : Id32)
      → Set.contains m.seen_read_nonces n ≡ true
      → Set.contains m'.seen_read_nonces n ≡ true
  pub epoch :
      m.highest_epoch ≤ u64_max
      → (m.highest_epoch ≤ m'.highest_epoch) × (m'.highest_epoch ≤ u64_max)
  pub ambiguous : m.ambiguous ≡ true → m'.ambiguous ≡ true
  pub config_id : m'.config_id ≡ m.config_id

Extends-refl : (m : EpochWitnessMachine) → Extends m m
Extends-refl m = record {
  locks = λ h s e. e;
  nonces = λ n e. e;
  epoch = λ b. (omega arith, b);
  ambiguous = λ e. e;
  config_id = refl;
}

Extends-trans : {a b c : EpochWitnessMachine} → Extends a b → Extends b c → Extends a c
Extends-trans x y = record {
  locks = λ h s e. y.locks h s (x.locks h s e);
  nonces = λ n e. y.nonces n (x.nonces n e);
  epoch = λ b. let (le, top) = x.epoch b in let (le', top') = y.epoch top in (omega arith, top');
  ambiguous = λ e. y.ambiguous (x.ambiguous e);
  config_id = y.config_id ∙ x.config_id;
}

Extends-perform : (m : EpochWitnessMachine) (c : Call) → Extends m (perform m c).0
unfolding perform accept_successor fresh_read observe_same_epoch_conflict is_direct_successor_of
Extends-perform m (accepts predecessor hash successor child valid) = record {
  locks = λ h s e. ground (arith, Map.get-insert m.predecessor_locks hash h child);
  nonces = λ n e. ground arith;
  epoch =
      λ b. ground (arith, le-saturating_add m.highest_epoch 1, saturating_add-le m.highest_epoch 1);
  ambiguous = λ e. ground arith;
  config_id = ground arith;
}
Extends-perform m (reads config_id nonce issued_at expiry now) = record {
  locks = λ h s e. ground arith;
  nonces = λ n e. ground (arith, Set.contains-insert m.seen_read_nonces nonce n);
  epoch = λ b. ground arith;
  ambiguous = λ e. ground arith;
  config_id = ground arith;
}
Extends-perform m (observes epoch hash) = record {
  locks = λ h s e. ground arith;
  nonces = λ n e. ground arith;
  epoch = λ b. ground arith;
  ambiguous = λ e. ground arith;
  config_id = ground arith;
}

-- Over any calls a witness keeps its locks, its nonces and its ambiguity, and its highest epoch
-- only rises, within a word.
pub Extends-run : (m : EpochWitnessMachine) (cs : List Call) → Extends m (run m cs)
unfolding run
Extends-run m [] = Extends-refl m
Extends-run m (c ∷ cs) = Extends-trans (Extends-perform m c) (Extends-run (perform m c).0 cs)

accept-locks :
    (m : EpochWitnessMachine) (p : ConfigRef) (h : Id32) (q : ConfigRef) (s : Id32) (v : Bool)
    → is_ok (accept_successor m p h q s v).1 ≡ true
    → Map.get (accept_successor m p h q s v).0.predecessor_locks h ≡ some s
unfolding accept_successor
accept-locks m p h q s v e = ground (arith, Map.get-insert m.predecessor_locks h h s)

accept-locked :
    (m : EpochWitnessMachine) (p : ConfigRef) (h : Id32) (q : ConfigRef) (s s' : Id32) (v : Bool)
    → Map.get m.predecessor_locks h ≡ some s
    → s ≢ s'
    → is_ok (accept_successor m p h q s' v).1 ≡ false
unfolding accept_successor
accept-locked m p h q s s' v e ne = ground arith

-- A predecessor has one child: once a successor capsule was accepted for a predecessor hash, no
-- other capsule is accepted for that hash after any calls, whatever the references and certificate.
pub one_child :
    (m : EpochWitnessMachine) (p : ConfigRef) (h : Id32) (q : ConfigRef) (s : Id32) (v : Bool)
    (cs : List Call) (p' q' : ConfigRef) (s' : Id32) (v' : Bool)
    → is_ok (accept_successor m p h q s v).1 ≡ true
    → s ≢ s'
    → is_ok (accept_successor (run (accept_successor m p h q s v).0 cs) p' h q' s' v').1 ≡ false
one_child m p h q s v cs p' q' s' v' e ne =
    accept-locked _ p' h q' s s' v'
      ((Extends-run (accept_successor m p h q s v).0 cs).locks h s (accept-locks m p h q s v e)) ne

-- Whatever the calls, the highest epoch does not fall and stays a word.
pub epoch_rises :
    (m : EpochWitnessMachine) (cs : List Call)
    → m.highest_epoch ≤ u64_max
    → (m.highest_epoch ≤ (run m cs).highest_epoch) × ((run m cs).highest_epoch ≤ u64_max)
epoch_rises m cs b = (Extends-run m cs).epoch b

-- When the highest epoch is below 2 ^ 64 - 1, an accepted successor whose predecessor is not locked
-- yet raises the epoch by one and becomes the highest capsule; sent again, it is refused as an invalid
-- successor, though the code has a branch that acknowledges a locked successor once more.
pub retry_refused :
    (m : EpochWitnessMachine) (p : ConfigRef) (h : Id32) (q : ConfigRef) (s : Id32) (v : Bool)
    → Map.get m.predecessor_locks h ≡ none
    → m.highest_epoch < u64_max
    → is_ok (accept_successor m p h q s v).1 ≡ true
    → let m' = (accept_successor m p h q s v).0 in
      (highest m' ≡ (m.highest_epoch + 1, s))
      × (accept_successor m' p h q s v ≡ (m', err invalid_successor))
unfolding accept_successor highest is_direct_successor_of
retry_refused m p h q s v free b e =
    ground (arith, saturating_add_exact m.highest_epoch 1, Map.get-insert m.predecessor_locks h h s)

read-answer :
    (m : EpochWitnessMachine) (config n issued expiry now : ℕ)
    → is_ok (fresh_read m config n issued expiry now).1 ≡ true
    → ((fresh_read m config n issued expiry now).1
        ≡ ok (sign_fresh_read n m.highest_epoch m.highest_capsule_hash))
      × (Set.contains (fresh_read m config n issued expiry now).0.seen_read_nonces n ≡ true)
unfolding fresh_read
read-answer m config n issued expiry now e =
    ground (arith, Set.contains-insert m.seen_read_nonces n n)

read_seen :
    (m : EpochWitnessMachine) (config n issued expiry now : ℕ)
    → Set.contains m.seen_read_nonces n ≡ true
    → is_ok (fresh_read m config n issued expiry now).1 ≡ false
unfolding fresh_read
read_seen m config n issued expiry now e = ground arith

-- A fresh read is answered with the nonce and the highest epoch and capsule of that moment, and
-- after any further calls the same nonce is not answered again, whatever the times.
pub read_once :
    (m : EpochWitnessMachine) (config n issued expiry now : ℕ) (cs : List Call)
    (config' issued' expiry' now' : ℕ)
    → is_ok (fresh_read m config n issued expiry now).1 ≡ true
    → let (m', answer) = fresh_read m config n issued expiry now in
      (answer ≡ ok (sign_fresh_read n m.highest_epoch m.highest_capsule_hash))
      × (is_ok (fresh_read (run m' cs) config' n issued' expiry' now').1 ≡ false)
read_once m config n issued expiry now cs config' issued' expiry' now' e =
    let (answer, seen) = read-answer m config n issued expiry now e in
    (
      answer,
      read_seen (run (fresh_read m config n issued expiry now).0 cs) config' n issued' expiry' now'
          ((Extends-run (fresh_read m config n issued expiry now).0 cs).nonces n seen),
    )

silent :
    (m : EpochWitnessMachine) (p : ConfigRef) (h : Id32) (q : ConfigRef) (s : Id32) (v : Bool)
    (config n issued expiry now : ℕ)
    → m.ambiguous ≡ true
    → (accept_successor m p h q s v ≡ (m, err RotationError.fail_closed))
      × (fresh_read m config n issued expiry now ≡ (m, err RotationError.fail_closed))
unfolding accept_successor fresh_read
silent m p h q s v config n issued expiry now e = ground arith

observe-ambiguous :
    (m : EpochWitnessMachine) (epoch hash : ℕ)
    → is_ok (observe_same_epoch_conflict m epoch hash).1 ≡ true
    → (observe_same_epoch_conflict m epoch hash).0.ambiguous ≡ true
unfolding observe_same_epoch_conflict
observe-ambiguous m epoch hash e = ground arith

-- After an observed conflict, and any further calls, the witness accepts no successor and answers
-- no read: both are refused with FailClosed and change nothing.
pub conflict_silences :
    (m : EpochWitnessMachine) (epoch hash : ℕ) (cs : List Call) (p : ConfigRef) (h : Id32)
    (q : ConfigRef) (s : Id32) (v : Bool) (config n issued expiry now : ℕ)
    → is_ok (observe_same_epoch_conflict m epoch hash).1 ≡ true
    → let m' = run (observe_same_epoch_conflict m epoch hash).0 cs in
      (accept_successor m' p h q s v ≡ (m', err RotationError.fail_closed))
      × (fresh_read m' config n issued expiry now ≡ (m', err RotationError.fail_closed))
conflict_silences m epoch hash cs p h q s v config n issued expiry now e =
    silent (run (observe_same_epoch_conflict m epoch hash).0 cs) p h q s v config n issued expiry
      now
      ((Extends-run (observe_same_epoch_conflict m epoch hash).0 cs).ambiguous
        (observe-ambiguous m epoch hash e))
