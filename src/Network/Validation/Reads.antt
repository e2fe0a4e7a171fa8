-- ===== src/Network/Validation/Reads.antt =====
-- What the reads of the witnesses hold after any number of envelopes.
use master_recovery.Prelude.{
  ℕ, ◌≡◌, refl, Bool, true, false, ◌||◌, not, List, [], ◌∷◌, ◌++◌, arith, length, length-append,
  if◌then◌else◌, Result, ok, err, is_ok, ◌⊎◌, ◌>>=◌, ok-bind, inl, inr, Bool-cases, Option-cases,
}
use master_recovery.Collections.Set
use master_recovery.Collections.Set.{Set}
use master_recovery.Collections.Map
use master_recovery.Types.Basic.{Bytes}
use master_recovery.Types.Activation.{EpochReadChallenge}
use master_recovery.Types.RecoveryV3.{ConfigCapsuleV3, RecoveryCardV3, WitnessPin}
use master_recovery.Wire.Rotation.Activate
use master_recovery.Network.Validation.{ProtocolError, Crypto, written, witness_pins}
use master_recovery.Network.Validation.Activation.{validate_activated_capsule_v3}
use master_recovery.Network.Validation.Select.{
  WitnessReadEnvelope, Reads, no_reads, with_seen, with_valid, take_pinned, take_read, take_reads,
}

module _ (c : Crypto) where
  abbrev pub AllActivated : RecoveryCardV3 → List ConfigCapsuleV3 → Type 0
  AllActivated card [] = Unit {0}
  AllActivated card (capsule ∷ capsules) =
      (validate_activated_capsule_v3 c card capsule ≡ ok tt) × AllActivated card capsules

  AllActivated-append :
      (card : RecoveryCardV3) (xs : List ConfigCapsuleV3) (y : ConfigCapsuleV3)
      → AllActivated card xs
      → validate_activated_capsule_v3 c card y ≡ ok tt
      → AllActivated card (xs ++ (y ∷ []))
  AllActivated-append card [] y h v = (v, tt)
  AllActivated-append card (x ∷ xs) y h v = (h.0, AllActivated-append card xs y h.1 v)

  -- The reads taken so far: the valid capsules are activated, and each comes from a witness of its own.
  pub record AreTaken (card : RecoveryCardV3) (reads : Reads) : Type 0 where
    pub activated : AllActivated card reads.valid
    pub counted : Set.size reads.valid_witnesses ≡ length reads.valid
    pub were_seen :
        (i : ℕ)
        → Set.contains reads.valid_witnesses i ≡ true
        → Set.contains reads.seen_witnesses i ≡ true

  pub no_reads-AreTaken : (card : RecoveryCardV3) → AreTaken card no_reads
  unfolding no_reads
  no_reads-AreTaken card = record {
    activated = tt;
    counted = Set.size-empty;
    were_seen = λ i h. absurd (cc (h, Set.contains-empty i));
  }

  seen-AreTaken :
      (card : RecoveryCardV3) (reads : Reads) (id : ℕ)
      → AreTaken card reads
      → AreTaken card (with_seen reads id)
  seen-AreTaken card reads id r = record {
    activated = r.activated;
    counted = r.counted;
    were_seen =
        λ i h. ground (arith, Set.contains-insert reads.seen_witnesses id i, r.were_seen i h);
  }

  valid-AreTaken :
      (card : RecoveryCardV3) (reads : Reads) (id : ℕ) (capsule : ConfigCapsuleV3)
      → AreTaken card reads
      → Set.contains reads.seen_witnesses id ≡ false
      → validate_activated_capsule_v3 c card capsule ≡ ok tt
      → AreTaken card (with_valid reads id capsule)
  valid-AreTaken card reads id capsule r new v = record {
    activated = AllActivated-append card reads.valid capsule r.activated v;
    counted = ground (
      arith,
      Set.size-insert reads.valid_witnesses id,
      r.were_seen id,
      new,
      r.counted,
      length-append reads.valid (capsule ∷ []),
    );
    were_seen = λ i h. ground (
      arith,
      Set.contains-insert reads.seen_witnesses id i,
      Set.contains-insert reads.valid_witnesses id i,
      r.were_seen i,
      h,
    );
  }

  pub taken_cases :
      (skip : Bool) (refused : Bytes → Bool) (transcript : Result ProtocolError Bytes)
      (reads seen taken next : Reads)
      → (if skip then ok reads else (transcript >>= λ t. ok (if refused t then seen else taken)))
        ≡ ok next
      → (next ≡ reads)
        ⊎ ((next ≡ seen) ⊎ ((t : Bytes) × (skip ≡ false) × (refused t ≡ false) × (next ≡ taken)))
  taken_cases true refused transcript reads seen taken next h = inl (ground arith)
  taken_cases false refused (err e) reads seen taken next h = absurd (cc h)
  taken_cases false refused (ok t) reads seen taken next h = elim (Bool-cases (refused t)) [
    | inl e ↦ inr (inl (ground (arith, e, h)))
    | inr e ↦ inr (inr (t, refl, e, ground (arith, e, h)))
  ]

  is_ok-ok : (r : Result ProtocolError (Unit {0})) → is_ok r ≡ true → r ≡ ok tt
  is_ok-ok (ok u) h = refl
  is_ok-ok (err e) h = absurd (cc h)

  take_pinned-AreTaken :
      (card : RecoveryCardV3) (challenge : EpochReadChallenge) (reads next : Reads)
      (envelope : WitnessReadEnvelope) (pin : WitnessPin)
      → AreTaken card reads
      → take_pinned c card challenge reads envelope pin ≡ ok next
      → AreTaken card next
  unfolding take_pinned
  take_pinned-AreTaken card challenge reads next envelope pin r h =
      elim (taken_cases _
        (λ t.
          not (c.verify pin.public_key t envelope.response.witness_signature)
          || not (is_ok (validate_activated_capsule_v3 c card envelope.capsule)))
        (written (Activate.witness_epoch_read_response envelope.response)) reads
        (with_seen reads envelope.response.witness_id)
        (with_valid reads envelope.response.witness_id envelope.capsule) next h) [
          | inl e ↦ rw e r
          | inr (inl e) ↦ rw e (seen-AreTaken card reads envelope.response.witness_id r)
          | inr (inr (t, fresh, passed, e)) ↦ rw e (
              valid-AreTaken card reads envelope.response.witness_id envelope.capsule r
                (ground arith)
                (is_ok-ok (validate_activated_capsule_v3 c card envelope.capsule) (ground arith)))
        ]

  take_read-AreTaken :
      (card : RecoveryCardV3) (challenge : EpochReadChallenge) (reads next : Reads)
      (envelope : WitnessReadEnvelope)
      → AreTaken card reads
      → take_read c card challenge reads envelope ≡ ok next
      → AreTaken card next
  unfolding take_read
  take_read-AreTaken card challenge reads next envelope r h =
      elim (Option-cases (Map.get (witness_pins card) envelope.response.witness_id)) [
        | inl e ↦ let same : next ≡ reads = ground (arith, e, h) in rw same r
        | inr (pin, e) ↦
            take_pinned-AreTaken card challenge reads next envelope pin r (ground (arith, e, h))
      ]

  pub take_reads-AreTaken :
      (card : RecoveryCardV3) (challenge : EpochReadChallenge) (reads last : Reads)
      (envelopes : List WitnessReadEnvelope)
      → AreTaken card reads
      → take_reads c card challenge reads envelopes ≡ ok last
      → AreTaken card last
  unfolding take_reads
  take_reads-AreTaken card challenge reads last [] r h =
      let same : last ≡ reads = ground arith in rw same r
  take_reads-AreTaken card challenge reads last (envelope ∷ envelopes) r h =
      let (next, hn, hr) = ok-bind (take_read c card challenge reads envelope) _ last h in
      take_reads-AreTaken card challenge next last envelopes
        (take_read-AreTaken card challenge reads next envelope r hn) hr
