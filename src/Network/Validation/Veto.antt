-- ===== src/Network/Validation/Veto.antt =====
-- The owner's cancellation of a rotation against the activation of its successor.
use master_recovery.Prelude.{
  ℕ, ◌+◌, ◌*◌, ◌≡◌, ◌≢◌, ◌≤◌, ◌<◌, sym, false, ◌||◌, some, List, [], ◌∷◌, map, arith, length, ltb,
  ok, ok_or, ok-bind,
}
use master_recovery.Collections.Set
use master_recovery.Collections.Set.{Set}
use master_recovery.Collections.Map
use master_recovery.Types.Basic.{Id32}
use master_recovery.Types.Epoch.{EpochActivationQc}
use master_recovery.Types.Ceremony.{RotationPlan, OwnerRotationCancelCertificate}
use master_recovery.Types.Activation.{WitnessRotationCancelAck}
use master_recovery.Types.RecoveryV3.{ConfigCapsuleV3, RecoveryCardV3}
use master_recovery.Wire.Rotation.Ids.{Distinct, AllNew, AllNew-insert}
use master_recovery.Wire.Rotation.Meeting.{AllIn, common, common_bound}
use master_recovery.Wire.Rotation.Quorum.{witness_ids, epoch_activation_qc-HasQuorum}
use master_recovery.Wire.Rotation.Votes
use master_recovery.Network.Validation.{
  Crypto, written, validate_recovery_card_v3, required_witness_quorum, witness_pins,
  verify_signature,
}
use master_recovery.Network.Validation.Plan.{validate_rotation_plan_v3}
use master_recovery.Network.Validation.Rotation.{
  other_veto, check_veto, check_vetoes, validate_owner_rotation_cancel_witness_quorum_v3,
}
use master_recovery.Network.Validation.Activation.{other_qc, validate_activated_capsule_v3}
use master_recovery.Network.Validation.Fork.{
  roster, roster-length, pinned_on_roster, validated-IsActivated,
}
use master_recovery.Network.Validation.Latest.{quorum_size}
use master_recovery.Network.Validation.Steps.{bail-ok, then-ok, found-ok}

-- The witnesses that vetoed.
abbrev pub veto_ids : List WitnessRotationCancelAck → List ℕ
veto_ids acks = map (λ ack. ack.witness_id) acks

module _ (c : Crypto) where
  vetoes_taken :
      (card : RecoveryCardV3) (plan : RotationPlan) (plan_hash cancel_hash : Id32) (s t : Set)
      (acks : List WitnessRotationCancelAck)
      → check_vetoes c card plan plan_hash cancel_hash s acks ≡ ok t
      → AllIn (roster card) (veto_ids acks)
        × Distinct (veto_ids acks)
        × AllNew s (veto_ids acks)
        × (Set.size t ≡ Set.size s + length (veto_ids acks))
  unfolding check_vetoes check_veto
  vetoes_taken card plan plan_hash cancel_hash s t [] h = (tt, tt, tt, ground arith)
  vetoes_taken card plan plan_hash cancel_hash s t (ack ∷ acks) h =
      let (u, ha, hr) = then-ok (check_veto c card plan plan_hash cancel_hash s ack) _ t h in
      let (pin, hp, h1) = ok-bind (ok_or (Map.get (witness_pins card) ack.witness_id) _) _ u ha in
      let (tests, h2) =
        bail-ok
          (other_veto card plan plan_hash cancel_hash pin ack || Set.contains s ack.witness_id) _ _
          u h1 in
      let (inside, distinct, new, size) =
        vetoes_taken card plan plan_hash cancel_hash (Set.insert s ack.witness_id) t acks hr in
      let (new_rest, avoids) = AllNew-insert s ack.witness_id (veto_ids acks) new in
      let fresh : Set.contains s ack.witness_id ≡ false = ground (arith, tests) in
      (
        (pinned_on_roster card ack.witness_id pin (found-ok _ _ pin hp), inside),
        (avoids, distinct),
        (fresh, new_rest),
        ground (arith, size, Set.size-insert s ack.witness_id, fresh),
      )

  -- When a card pins exactly 3 f + 1 witnesses, the witnesses behind an accepted cancellation of a rotation
  -- by the owner and those behind a capsule after the first epoch that is validated against the card have
  -- more than f in common.
  pub veto_meets_activation :
      (certificate : OwnerRotationCancelCertificate) (acks : List WitnessRotationCancelAck)
      (card : RecoveryCardV3) (plan : RotationPlan) (predecessor capsule : ConfigCapsuleV3)
      (now : ℕ) (hash : Id32) (qc : EpochActivationQc)
      → validate_owner_rotation_cancel_witness_quorum_v3 c certificate acks card plan predecessor
          now
        ≡ ok hash
      → validate_activated_capsule_v3 c card capsule ≡ ok tt
      → capsule.config_ref.guardian_epoch ≢ 1
      → capsule.activation_qc ≡ some qc
      → length card.witnesses ≡ card.witness_fault_bound * 3 + 1
      → card.witness_fault_bound < common (veto_ids acks) (witness_ids qc)
  unfolding validate_owner_rotation_cancel_witness_quorum_v3 other_qc
  veto_meets_activation certificate acks card plan predecessor capsule now hash qc h hv later hq
        size =
      let (u, h0, h1) = then-ok (validate_recovery_card_v3 card) _ hash h in
      let (plan_hash, hp, h2) =
        ok-bind (validate_rotation_plan_v3 c plan predecessor now) _ hash h1 in
      let (binds, h3) = bail-ok _ _ _ hash h2 in
      let (transcript, hw, h4) =
        ok-bind (written (Votes.owner_rotation_cancel_certificate certificate)) _ hash h3 in
      let (v, hs, h5) =
        then-ok
          (verify_signature c certificate.owner_cancel_public_key transcript
            certificate.owner_signature)
          _ hash h4 in
      let (ids, hi, h6) =
        ok-bind (check_vetoes c card plan plan_hash (c.sha256 transcript) Set.empty acks) _ hash
          h5 in
      let (quorum, hn, h7) = ok-bind (required_witness_quorum card.witness_fault_bound) _ hash h6 in
      let (many, h8) = bail-ok (ltb (Set.size ids) quorum) _ _ hash h7 in
      let (inside, distinct, new, count) =
        vetoes_taken card plan plan_hash (c.sha256 transcript) Set.empty ids acks hi in
      let a = validated-IsActivated c card capsule hv later in
      let same : a.qc ≡ qc = ground (arith, a.has_qc, hq) in
      let k = epoch_activation_qc-HasQuorum a.qc a.transcript a.qc_written in
      let meet =
        common_bound (roster card) (veto_ids acks) (witness_ids a.qc) inside a.on_roster distinct
          k.distinct in
      let bound : a.qc.witness_fault_bound ≡ card.witness_fault_bound = ground (arith, a.binds) in
      let enough : card.witness_fault_bound * 2 + 1 ≤ length (veto_ids acks) =
        ground
          (arith, many, count, Set.size-empty, quorum_size c card.witness_fault_bound quorum hn) in
      rw (sym same)
        (omega (arith, meet, enough, k.quorum, bound, size, roster-length card.witnesses))
