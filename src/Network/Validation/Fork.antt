-- ===== src/Network/Validation/Fork.antt =====
-- What an activated capsule rests on, and why two of them cannot follow the same predecessor.
use master_recovery.Prelude.{
  ℕ, ◌+◌, ◌*◌, ◌≡◌, ◌≢◌, ◌≤◌, refl, Bool, true, false, none, some, List, [], ◌∷◌, map, arith,
  length, ◌==◌, if◌then◌else◌, Result, ok, ok_or, ok-bind,
}
use master_recovery.Collections.Set
use master_recovery.Collections.Set.{Set}
use master_recovery.Collections.Map
use master_recovery.Collections.Map.{Map}
use master_recovery.Types.Basic.{Id32, Bytes}
use master_recovery.Types.Epoch.{WitnessActivationAck, EpochActivationQc}
use master_recovery.Types.Activation.{RotationActivateCertificate}
use master_recovery.Types.RecoveryV3.{ConfigCapsuleV3, RecoveryCardV3, WitnessPin}
use master_recovery.Wire.Rotation.Activate
use master_recovery.Wire.Rotation.Contexts
use master_recovery.Wire.Rotation.Meeting.{mem, AllIn}
use master_recovery.Wire.Rotation.Quorum.{locks_respected, one_successor}
use master_recovery.Network.Validation.{
  ProtocolError, Crypto, written, collect_pins, witness_pins, validate_recovery_card_v3,
}
use master_recovery.Network.Validation.Activation.{
  other_qc, validate_activate_certificate, check_witness, check_witnesses, validate_successor,
  validate_activated_capsule_v3,
}
use master_recovery.Network.Validation.Steps.{bail-ok, then-ok, written-ok, found-ok}

-- The identifiers of the witnesses that the card pins.
abbrev pub roster : RecoveryCardV3 → List ℕ
roster card = map (λ pin. pin.witness_id) card.witnesses

pins_collected :
    (pins : Map WitnessPin) (list : List WitnessPin) (id : ℕ) (pin : WitnessPin)
    → Map.get (collect_pins pins list) id ≡ some pin
    → Map.get pins id ≡ none
    → mem id (map (λ p. p.witness_id) list) ≡ true
unfolding collect_pins mem
pins_collected pins [] id pin h n = absurd (cc (h, n))
pins_collected pins (p ∷ list) id pin h n = ground (
  arith,
  pins_collected (Map.insert pins p.witness_id p) list id pin h,
  Map.get-insert pins p.witness_id id p,
  n,
)

-- A witness that has a pin is on the roster.
pub pinned_on_roster :
    (card : RecoveryCardV3) (id : ℕ) (pin : WitnessPin)
    → Map.get (witness_pins card) id ≡ some pin
    → mem id (roster card) ≡ true
unfolding witness_pins
pinned_on_roster card id pin h = pins_collected Map.empty card.witnesses id pin h (Map.get-empty id)

pub roster-length :
    (pins : List WitnessPin) → length (map (λ pin. pin.witness_id) pins) ≡ length pins
roster-length [] = refl
roster-length (pin ∷ pins) = ground (arith, roster-length pins)

chosen :
    (b : Bool) (left right : Result ProtocolError (Unit {0}))
    → b ≡ false
    → (if b then left else right) ≡ ok tt
    → right ≡ ok tt
chosen true left right e h = absurd (cc e)
chosen false left right e h = h

module _ (c : Crypto) where
  witnesses_on_roster :
      (card : RecoveryCardV3) (hash : Id32) (s t : Set) (acks : List WitnessActivationAck)
      → check_witnesses c card hash s acks ≡ ok t
      → AllIn (roster card) (map (λ ack. ack.witness_id) acks)
  unfolding check_witnesses check_witness
  witnesses_on_roster card hash s t [] h = tt
  witnesses_on_roster card hash s t (ack ∷ acks) h =
      let (u, ha, hr) = then-ok (check_witness c card hash s ack) _ t h in
      let (pin, hp, rest) = ok-bind (ok_or (Map.get (witness_pins card) ack.witness_id) _) _ u ha in
      (
        pinned_on_roster card ack.witness_id pin (found-ok _ _ pin hp),
        witnesses_on_roster card hash (Set.insert s ack.witness_id) t acks hr,
      )

  -- The proof of activation of a capsule that has a predecessor.
  pub record IsActivated (card : RecoveryCardV3) (capsule : ConfigCapsuleV3) : Type 0 where
    pub certificate : RotationActivateCertificate
    pub qc : EpochActivationQc
    pub certificate_hash : Id32
    pub transcript : Bytes
    pub has_qc : capsule.activation_qc ≡ some qc
    pub certified : validate_activate_certificate c capsule certificate ≡ ok certificate_hash
    pub qc_written : Activate.epoch_activation_qc qc ≡ ok transcript
    pub binds : other_qc card capsule certificate certificate_hash qc ≡ false
    pub on_roster : AllIn (roster card) (map (λ ack. ack.witness_id) qc.witness_acks)

  successor-IsActivated :
      (card : RecoveryCardV3) (capsule : ConfigCapsuleV3)
      → validate_successor c card capsule ≡ ok tt
      → IsActivated card capsule
  unfolding validate_successor
  successor-IsActivated card capsule h =
      let (certificate, hc, h1) = ok-bind (ok_or capsule.activation_certificate _) _ tt h in
      let (hash, hv, h2) = ok-bind (validate_activate_certificate c capsule certificate) _ tt h1 in
      let (qc, hq, h3) = ok-bind (ok_or capsule.activation_qc _) _ tt h2 in
      let (transcript, hw, h4) = then-ok (written (Activate.epoch_activation_qc qc)) _ tt h3 in
      let (binds, h5) = bail-ok (other_qc card capsule certificate hash qc) _ _ tt h4 in
      let (ids, hi, h6) = ok-bind (check_witnesses c card hash Set.empty qc.witness_acks) _ tt h5 in
      record {
        certificate = certificate;
        qc = qc;
        certificate_hash = hash;
        transcript = transcript;
        has_qc = found-ok _ _ qc hq;
        certified = hv;
        qc_written = written-ok _ transcript hw;
        binds = binds;
        on_roster = witnesses_on_roster card hash Set.empty ids qc.witness_acks hi;
      }

  -- A capsule that is validated for an epoch other than the first has an activation certificate that its
  -- signers' check accepts, and a quorum certificate with a transcript that binds this capsule and comes
  -- from witnesses the card pins.
  pub validated-IsActivated :
      (card : RecoveryCardV3) (capsule : ConfigCapsuleV3)
      → validate_activated_capsule_v3 c card capsule ≡ ok tt
      → capsule.config_ref.guardian_epoch ≢ 1
      → IsActivated card capsule
  unfolding validate_activated_capsule_v3
  validated-IsActivated card capsule h later =
      let (u, hc, h1) = then-ok (validate_recovery_card_v3 card) _ tt h in
      let (body, hb, h2) = ok-bind (written (Contexts.config_capsule_body_v3 capsule)) _ tt h1 in
      let (fields, h3) = bail-ok _ _ _ tt h2 in
      successor-IsActivated card capsule
        (chosen (capsule.config_ref.guardian_epoch == 1) _ _ (ground arith) h3)

  -- When a card pins exactly 3 f + 1 witnesses, at most f of them are faulty and every other one answers
  -- only for the successor it has locked, two capsules after the first epoch that are validated against
  -- the card and have the same predecessor hash have the same hash.
  pub no_fork :
      (lock : ℕ → Id32 → Id32) (faulty : List ℕ) (card : RecoveryCardV3)
      (left right : ConfigCapsuleV3) (q r : EpochActivationQc)
      → validate_activated_capsule_v3 c card left ≡ ok tt
      → validate_activated_capsule_v3 c card right ≡ ok tt
      → left.config_ref.guardian_epoch ≢ 1
      → right.config_ref.guardian_epoch ≢ 1
      → left.activation_qc ≡ some q
      → right.activation_qc ≡ some r
      → length card.witnesses ≡ card.witness_fault_bound * 3 + 1
      → length faulty ≤ card.witness_fault_bound
      → locks_respected lock faulty q.witness_acks ≡ true
      → locks_respected lock faulty r.witness_acks ≡ true
      → left.predecessor_capsule_hash ≡ right.predecessor_capsule_hash
      → left.capsule_hash ≡ right.capsule_hash
  unfolding other_qc
  no_fork lock faulty card left right q r hl hr el er hq hqr size few lq lr pre =
      let a = validated-IsActivated card left hl el in
      let b = validated-IsActivated card right hr er in
      let eq : a.qc ≡ q = ground (arith, a.has_qc, hq) in
      let er' : b.qc ≡ r = ground (arith, b.has_qc, hqr) in
      let same =
        one_successor lock faulty (roster card) a.qc b.qc a.transcript b.transcript a.qc_written
          b.qc_written (ground (arith, a.binds, b.binds))
          (ground (arith, a.binds, roster-length card.witnesses, size)) a.on_roster b.on_roster
          (ground (arith, a.binds, few)) (rw eq lq) (rw er' lr)
          (ground (arith, a.binds, b.binds, pre)) in
      ground (arith, same, a.binds, b.binds)
