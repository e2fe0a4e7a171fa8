-- ===== src/Network/Validation/Latest.antt =====
-- What the epoch selected by a fresh read of the witnesses is.
use mathlib.Core.List.{Memᴰ}
use master_recovery.Prelude.{
  ℕ, ◌+◌, ◌*◌, ◌≡◌, ◌≤◌, sym, ap, subst, ◌||◌, some, List, [], ◌∷◌, map, arith, length, ltb, ◌==◌,
  ok, ok_or, ok-bind, inl, inr, Bool-cases,
}
use master_recovery.Collections.Set
use master_recovery.Collections.Set.{Set}
use master_recovery.Types.Activation.{EpochReadChallenge}
use master_recovery.Types.RecoveryV3.{ConfigCapsuleV3, RecoveryCardV3}
use master_recovery.Wire.Rotation.Activate
use master_recovery.Network.Validation.{
  no_capsule, Crypto, written, validate_recovery_card_v3, required_witness_quorum,
}
use master_recovery.Network.Validation.Intent.{id_set}
use master_recovery.Network.Validation.Activation.{validate_activated_capsule_v3}
use master_recovery.Network.Validation.Select.{
  WitnessReadEnvelope, Reads, no_reads, highest_epoch, of_epoch, select_highest, take_reads,
  select_latest_epoch_v3,
}
use master_recovery.Network.Validation.Steps.{bail-ok, then-ok, found-ok}
use master_recovery.Network.Validation.Highest.{
  EpochsWithin, highest_epoch-EpochsWithin, AllSame, one-AllSame,
}
use master_recovery.Network.Validation.Given.{
  first_member, of_epoch-member, capsules_of, valid_given,
}
use master_recovery.Network.Validation.Reads.{AllActivated, no_reads-AreTaken, take_reads-AreTaken}

module _ (c : Crypto) where
  -- The selected capsule is one of those read from a quorum of witnesses, and nothing there is later.
  pub record IsLatest (card : RecoveryCardV3) (challenge : EpochReadChallenge)
      (envelopes : List WitnessReadEnvelope) (selected : ConfigCapsuleV3) : Type 0 where
    pub reads : Reads
    pub taken : take_reads c card challenge no_reads envelopes ≡ ok reads
    pub quorum : card.witness_fault_bound * 2 + 1 ≤ Set.size reads.valid_witnesses
    pub given : Memᴰ selected (capsules_of envelopes)
    pub among : Memᴰ selected reads.valid
    pub all_activated : AllActivated c card reads.valid
    pub activated : validate_activated_capsule_v3 c card selected ≡ ok tt
    pub latest : EpochsWithin selected.config_ref.guardian_epoch reads.valid
    pub agreed : AllSame selected.capsule_hash (
        map
          (λ capsule. capsule.capsule_hash)
          (of_epoch selected.config_ref.guardian_epoch reads.valid))

  of_epoch-AllActivated :
      (card : RecoveryCardV3) (n : ℕ) (capsules : List ConfigCapsuleV3)
      → AllActivated c card capsules
      → AllActivated c card (of_epoch n capsules)
  unfolding of_epoch
  of_epoch-AllActivated card n [] h = tt
  of_epoch-AllActivated card n (capsule ∷ capsules) h =
      elim (Bool-cases (capsule.config_ref.guardian_epoch == n)) [
        | inl e ↦ rw e ((h.0, of_epoch-AllActivated card n capsules h.1))
        | inr e ↦ rw e (of_epoch-AllActivated card n capsules h.1)
      ]

  first_of_epoch :
      (n : ℕ) (capsules rest : List ConfigCapsuleV3) (first : ConfigCapsuleV3)
      → of_epoch n capsules ≡ first ∷ rest
      → first.config_ref.guardian_epoch ≡ n
  unfolding of_epoch
  first_of_epoch n [] rest first h = absurd (cc h)
  first_of_epoch n (capsule ∷ capsules) rest first h =
      ground (arith, first_of_epoch n capsules rest first)

  found_same : (a b : ConfigCapsuleV3) → some a ≡ some b → a ≡ b
  found_same a b h = cc h

  selected_first :
      (card : RecoveryCardV3) (highest : List ConfigCapsuleV3) (selected : ConfigCapsuleV3)
      → AllActivated c card highest
      → select_highest highest ≡ ok selected
      → (rest : List ConfigCapsuleV3) × (highest ≡ selected ∷ rest)
        × (validate_activated_capsule_v3 c card selected ≡ ok tt)
        × AllSame selected.capsule_hash (map (λ capsule. capsule.capsule_hash) highest)
  unfolding select_highest id_set
  selected_first card [] selected a h =
      let (one, h1) = bail-ok _ _ _ selected h in absurd (ground (arith, one, Set.size-empty))
  selected_first card (first ∷ rest) selected a h =
      let (one, h1) = bail-ok _ _ _ selected h in
      let same : selected ≡ first =
        sym (found_same first selected (found-ok (some first) no_capsule selected h1)) in
      let rest_same =
        one-AllSame first.capsule_hash (map (λ capsule. capsule.capsule_hash) rest)
          (ground (arith, one)) in
      (
        rest,
        ap (λ v. v ∷ rest) (sym same),
        subst (λ v. validate_activated_capsule_v3 c card v ≡ ok tt) (sym same) a.0,
        (
          ap (λ (v : ConfigCapsuleV3). v.capsule_hash) (sym same),
          subst
              (λ (v : ConfigCapsuleV3).
                AllSame v.capsule_hash (map (λ capsule. capsule.capsule_hash) rest))
              (sym same) rest_same,
        ),
      )

  pub quorum_size :
      (fault_bound n : ℕ) → required_witness_quorum fault_bound ≡ ok n → n ≡ fault_bound * 2 + 1
  unfolding required_witness_quorum
  quorum_size fault_bound n h = ground arith

  -- A capsule that is selected was validated against the card and stands in one of the envelopes. It is
  -- among the capsules that the reads of at least 2 f + 1 distinct witnesses gave, all of which were
  -- validated; no epoch there is later, and all of its epoch have its hash.
  pub select_latest_epoch_v3-IsLatest :
      (card : RecoveryCardV3) (challenge : EpochReadChallenge)
      (envelopes : List WitnessReadEnvelope) (selected : ConfigCapsuleV3)
      → select_latest_epoch_v3 c card challenge envelopes ≡ ok selected
      → IsLatest card challenge envelopes selected
  unfolding select_latest_epoch_v3
  select_latest_epoch_v3-IsLatest card challenge envelopes selected h =
      let (u, hc, h1) = then-ok (validate_recovery_card_v3 card) _ selected h in
      let (opening, hw, h2) =
        then-ok (written (Activate.epoch_read_challenge challenge)) _ selected h1 in
      let (config, h3) = bail-ok _ _ _ selected h2 in
      let (reads, hr, h4) =
        ok-bind (take_reads c card challenge no_reads envelopes) _ selected h3 in
      let (quorum, hq, h5) =
        ok-bind (required_witness_quorum card.witness_fault_bound) _ selected h4 in
      let (many, h6) =
        bail-ok (ltb (Set.size reads.seen_witnesses) quorum || ltb (length reads.valid) quorum) _ _
          selected h5 in
      let (epoch, he, h7) = ok-bind (ok_or (highest_epoch reads.valid) _) _ selected h6 in
      let (chosen, hs, h8) = ok-bind (select_highest (of_epoch epoch reads.valid)) _ selected h7 in
      let (genesis, h9) = bail-ok _ _ _ selected h8 in
      let taken =
        take_reads-AreTaken c card challenge no_reads reads envelopes (no_reads-AreTaken c card)
          hr in
      let same : selected ≡ chosen = sym (ground (arith, h9)) in
      let (rest, e, activated, agreed) =
        selected_first card (of_epoch epoch reads.valid) chosen
          (of_epoch-AllActivated card epoch reads.valid taken.activated) hs in
      let epoch_is = first_of_epoch epoch reads.valid rest chosen e in
      let among =
        of_epoch-member epoch reads.valid
          (first_member (of_epoch epoch reads.valid) rest chosen e) in
      rw same (record {
        reads = reads;
        taken = hr;
        quorum =
            ground (arith, many, taken.counted, quorum_size card.witness_fault_bound quorum hq);
        given = valid_given c card challenge reads envelopes chosen hr among;
        among = among;
        all_activated = taken.activated;
        activated = activated;
        latest = rw epoch_is (highest_epoch-EpochsWithin reads.valid epoch (found-ok _ _ epoch he));
        agreed = rw epoch_is agreed;
      })
