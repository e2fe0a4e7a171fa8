-- ===== src/Wire/Rotation/Quorum.antt =====
-- crates/gp-wire/src/rotation.rs: what an activation certificate that has a transcript must hold, and
-- why two of them cannot name different successors.
use master_recovery.Prelude.{
  ℕ, ◌+◌, ◌*◌, ◌≡◌, ◌≤◌, ◌<◌, refl, sym, ap, ◌∙◌, Bool, true, false, ◌&&◌, ◌||◌, List, [], ◌∷◌, map,
  arith, length, ◌==◌, Result, ok, err, saturating_add,
}
use master_recovery.Types.Basic.{Id32, Bytes, protocol_version_v3}
use master_recovery.Types.Epoch.{WitnessActivationAck, EpochActivationQc}
use master_recovery.Wire.Frame.{WireError}
use master_recovery.Wire.Rotation.{max_rotation_actors, max_config_witnesses, any, after, refuse_if}
use master_recovery.Wire.Rotation.Activate.{epoch_activation_qc, other_witness}
use master_recovery.Wire.Rotation.Ids.{AllWithin, Distinct, unique_ids_iff}
use master_recovery.Wire.Rotation.Meeting.{mem, AllIn, common, common_bound, meet_outside}

-- The witnesses of a certificate.
abbrev pub witness_ids : EpochActivationQc → List ℕ
witness_ids qc = map (λ ack. ack.witness_id) qc.witness_acks

-- A certificate names the epoch after its predecessor, and at least 2 f + 1 distinct witnesses, all of
-- whom answered for exactly this activation.
pub record HasQuorum (qc : EpochActivationQc) : Type 0 where
  pub version : qc.protocol_version ≡ protocol_version_v3
  pub next : qc.successor_epoch ≡ saturating_add qc.predecessor_epoch 1
  pub fault_bound : qc.witness_fault_bound ≤ max_config_witnesses
  pub within : AllWithin max_rotation_actors (witness_ids qc)
  pub distinct : Distinct (witness_ids qc)
  pub quorum : qc.witness_fault_bound * 2 + 1 ≤ length (witness_ids qc)
  pub same_activation : any (other_witness qc) qc.witness_acks ≡ false

map-length :
    (acks : List WitnessActivationAck) → length (map (λ ack. ack.witness_id) acks) ≡ length acks
map-length [] = refl
map-length (ack ∷ acks) = ground (arith, map-length acks)

pub after-ok :
    (checked : Result WireError (Unit {0})) (rest : Result WireError Bytes) (t : Bytes)
    → after checked rest ≡ ok t
    → (checked ≡ ok tt) × (rest ≡ ok t)
unfolding after
after-ok (ok u) rest t h = (refl, h)
after-ok (err e) rest t h = absurd (ground arith)

refuse-ok :
    (bad : Bool) (rest : Result WireError Bytes) (t : Bytes)
    → refuse_if bad rest ≡ ok t
    → (bad ≡ false) × (rest ≡ ok t)
unfolding refuse_if
refuse-ok bad rest t h = ground arith

-- A certificate that has a transcript names the epoch after its predecessor and 2 f + 1 distinct
-- witnesses from 1 to 4096, and every answer in it is for the same activation.
pub epoch_activation_qc-HasQuorum :
    (qc : EpochActivationQc) (t : Bytes) → epoch_activation_qc qc ≡ ok t → HasQuorum qc
unfolding epoch_activation_qc
epoch_activation_qc-HasQuorum qc t h =
    let (fields, h1) = refuse-ok _ _ t h in
    let (unique, h2) = after-ok _ _ t h1 in
    let (many, h3) = refuse-ok _ _ t h2 in
    let (same, h4) = refuse-ok _ _ t h3 in
    let (within, distinct) = (unique_ids_iff (witness_ids qc)).0 unique in
    record {
      version = ground arith;
      next = ground arith;
      fault_bound = ground arith;
      within = within;
      distinct = distinct;
      quorum = ground (arith, map-length qc.witness_acks);
      same_activation = same;
    }

-- Two certificates with a transcript and the same fault bound f, whose witnesses are on a roster of
-- 3 f + 1,
-- have more than f witnesses in common.
pub quorums_meet :
    (roster : List ℕ) (q r : EpochActivationQc) (s t : Bytes)
    → epoch_activation_qc q ≡ ok s
    → epoch_activation_qc r ≡ ok t
    → q.witness_fault_bound ≡ r.witness_fault_bound
    → length roster ≡ q.witness_fault_bound * 3 + 1
    → AllIn roster (witness_ids q)
    → AllIn roster (witness_ids r)
    → q.witness_fault_bound < common (witness_ids q) (witness_ids r)
quorums_meet roster q r s t hq hr same size wq wr =
    let kq = epoch_activation_qc-HasQuorum q s hq in
    let kr = epoch_activation_qc-HasQuorum r t hr in
    omega (
      arith,
      kq.quorum,
      kr.quorum,
      same,
      size,
      common_bound roster (witness_ids q) (witness_ids r) wq wr kq.distinct kr.distinct,
    )

-- Whether the answers of all witnesses that are not faulty name the one successor that the witness has
-- locked for the predecessor.
unfoldable pub locks_respected : (ℕ → Id32 → Id32) → List ℕ → List WitnessActivationAck → Bool
locks_respected lock faulty [] = true
locks_respected lock faulty (ack ∷ acks) =
    (mem ack.witness_id faulty
      || ack.successor_capsule_hash == lock ack.witness_id ack.predecessor_capsule_hash)
    && locks_respected lock faulty acks

names_lock :
    (lock : ℕ → Id32 → Id32) (faulty : List ℕ) (qc : EpochActivationQc) (w : ℕ)
    (acks : List WitnessActivationAck)
    → any (other_witness qc) acks ≡ false
    → locks_respected lock faulty acks ≡ true
    → mem w (map (λ ack. ack.witness_id) acks) ≡ true
    → mem w faulty ≡ false
    → qc.successor_capsule_hash ≡ lock w qc.predecessor_capsule_hash
unfolding any other_witness locks_respected mem
names_lock lock faulty qc w [] same kept found fresh = absurd (ground arith)
names_lock lock faulty qc w (ack ∷ acks) same kept found fresh =
    ground (arith, names_lock lock faulty qc w acks)

-- When the witnesses are on a roster of 3 f + 1, at most f of them are faulty and every other one answers only
-- for the successor it has locked, two certificates with a transcript and the same predecessor capsule
-- name the same successor capsule.
pub one_successor :
    (lock : ℕ → Id32 → Id32) (faulty roster : List ℕ) (q r : EpochActivationQc) (s t : Bytes)
    → epoch_activation_qc q ≡ ok s
    → epoch_activation_qc r ≡ ok t
    → q.witness_fault_bound ≡ r.witness_fault_bound
    → length roster ≡ q.witness_fault_bound * 3 + 1
    → AllIn roster (witness_ids q)
    → AllIn roster (witness_ids r)
    → length faulty ≤ q.witness_fault_bound
    → locks_respected lock faulty q.witness_acks ≡ true
    → locks_respected lock faulty r.witness_acks ≡ true
    → q.predecessor_capsule_hash ≡ r.predecessor_capsule_hash
    → q.successor_capsule_hash ≡ r.successor_capsule_hash
one_successor lock faulty roster q r s t hq hr same size wq wr few lq lr pre =
    let kq = epoch_activation_qc-HasQuorum q s hq in
    let kr = epoch_activation_qc-HasQuorum r t hr in
    let (w, in_q, in_r, fresh) =
      meet_outside faulty (witness_ids q) (witness_ids r) kq.distinct
        (omega (arith, few, quorums_meet roster q r s t hq hr same size wq wr)) in
    names_lock lock faulty q w q.witness_acks kq.same_activation lq in_q fresh
    ∙ ap (lock w) pre
    ∙ sym (names_lock lock faulty r w r.witness_acks kr.same_activation lr in_r fresh)
