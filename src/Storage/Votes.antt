-- ===== src/Storage/Votes.antt =====
-- crates/gp-storage/src/rotation.rs: the plans and transcripts that a signer has bound itself to,
-- `SignerRotationStore`.
use master_recovery.Prelude.{
  ℕ, ◌≡◌, refl, ap, ◌∙◌, true, none, some, List, [], ◌∷◌, arith, ◌==◌, if◌then◌else◌, Result, ok,
  err, is_ok,
}
use master_recovery.Collections.Map
use master_recovery.Collections.Map.{Map}
use master_recovery.Types.Basic.{Id32}
use master_recovery.Types.Epoch.{RotationIntent}
use master_recovery.Storage.{StorageError, conflict}

unfoldable pub record_vote : Map Id32 → Id32 → Id32 → Map Id32 × Result StorageError (Unit {0})
record_vote votes rotation_id transcript_hash = elim (Map.get votes rotation_id) [
  | some existing ↦ if existing == transcript_hash then (votes, ok tt) else (votes, err conflict)
  | none ↦ (Map.insert votes rotation_id transcript_hash, ok tt)
]

pub record SignerRotationStore : Type 0 where
  pub predecessor_plan_locks : Map Id32
  pub intents : Map RotationIntent
  pub intent_votes : Map Id32
  pub begin_votes : Map Id32
  pub release_votes : Map Id32
  pub activate_votes : Map Id32
  pub cancelled_rotations : Map Id32
  pub highest_observed_epoch : Map ℕ

unfoldable pub new : SignerRotationStore
new = record {
  predecessor_plan_locks = Map.empty;
  intents = Map.empty;
  intent_votes = Map.empty;
  begin_votes = Map.empty;
  release_votes = Map.empty;
  activate_votes = Map.empty;
  cancelled_rotations = Map.empty;
  highest_observed_epoch = Map.empty;
}

unfoldable pub lock_plan :
    SignerRotationStore → Id32 → Id32 → SignerRotationStore × Result StorageError (Unit {0})
lock_plan s predecessor_hash plan_hash = elim (Map.get s.predecessor_plan_locks predecessor_hash) [
  | some existing ↦ if existing == plan_hash then (s, ok tt) else (s, err conflict)
  | none ↦ (
    record s {
      predecessor_plan_locks = Map.insert s.predecessor_plan_locks predecessor_hash plan_hash;
    },
    ok tt,
  )
]

-- Votes one after another, each a rotation and a transcript.
unfoldable pub record_votes : Map Id32 → List (Id32 × Id32) → Map Id32
record_votes votes [] = votes
record_votes votes ((r, t) ∷ more) = record_votes (record_vote votes r t).0 more

kept :
    (votes : Map Id32) (more : List (Id32 × Id32)) (r t : Id32)
    → Map.get votes r ≡ some t
    → Map.get (record_votes votes more) r ≡ some t
unfolding record_votes record_vote
kept votes [] r t h = h
kept votes ((q, u) ∷ more) r t h =
    kept (record_vote votes q u).0 more r t (ground (arith, Map.get-insert votes q r u))

recorded :
    (votes : Map Id32) (r t : Id32)
    → is_ok (record_vote votes r t).1 ≡ true
    → Map.get (record_vote votes r t).0 r ≡ some t
unfolding record_vote
recorded votes r t h = ground (arith, Map.get-insert votes r r t)

-- However many votes come between, two accepted votes for one rotation are for one transcript.
pub one_vote :
    (votes : Map Id32) (between : List (Id32 × Id32)) (r t u : Id32)
    → is_ok (record_vote votes r t).1 ≡ true
    → is_ok (record_vote (record_votes (record_vote votes r t).0 between) r u).1 ≡ true
    → t ≡ u
unfolding record_vote
one_vote votes between r t u first second =
    let held = kept (record_vote votes r t).0 between r t (recorded votes r t first) in
    ground (arith, held)

-- Plans one after another, each a predecessor and a plan.
unfoldable pub lock_plans : SignerRotationStore → List (Id32 × Id32) → SignerRotationStore
lock_plans s [] = s
lock_plans s ((h, p) ∷ more) = lock_plans (lock_plan s h p).0 more

lock_plan-record_vote :
    (s : SignerRotationStore) (h p : Id32)
    → ((lock_plan s h p).0.predecessor_plan_locks ≡ (record_vote s.predecessor_plan_locks h p).0)
      × ((lock_plan s h p).1 ≡ (record_vote s.predecessor_plan_locks h p).1)
unfolding lock_plan record_vote
lock_plan-record_vote s h p = (ground arith, ground arith)

lock_plans-record_votes :
    (s : SignerRotationStore) (more : List (Id32 × Id32))
    → (lock_plans s more).predecessor_plan_locks ≡ record_votes s.predecessor_plan_locks more
unfolding lock_plans record_votes
lock_plans-record_votes s [] = refl
lock_plans-record_votes s ((h, p) ∷ more) =
    lock_plans-record_votes (lock_plan s h p).0 more
    ∙ ap (λ (m : Map Id32). record_votes m more) (lock_plan-record_vote s h p).0

-- Two plans that a store locks for one predecessor, whatever it is asked to lock in between, are the
-- same plan.
pub one_plan :
    (s : SignerRotationStore) (between : List (Id32 × Id32)) (h p q : Id32)
    → is_ok (lock_plan s h p).1 ≡ true
    → is_ok (lock_plan (lock_plans (lock_plan s h p).0 between) h q).1 ≡ true
    → p ≡ q
one_plan s between h p q first second =
    let votes = s.predecessor_plan_locks in
    let after : (lock_plans (lock_plan s h p).0 between).predecessor_plan_locks
        ≡ record_votes (record_vote votes h p).0 between =
      lock_plans-record_votes (lock_plan s h p).0 between
      ∙ ap (λ (m : Map Id32). record_votes m between) (lock_plan-record_vote s h p).0 in
    one_vote votes between h p q (rw (lock_plan-record_vote s h p).1 at first)
      (rw ((lock_plan-record_vote (lock_plans (lock_plan s h p).0 between) h q).1, after) at second)
