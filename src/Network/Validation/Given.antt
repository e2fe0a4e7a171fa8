-- ===== src/Network/Validation/Given.antt =====
-- Where the capsules of the reads come from: each is in an envelope.
use mathlib.Core.List.Memᴰ
use mathlib.Core.List.{Memᴰ}
use mathlib.Core.List.Memᴰ.{head, tail}
use master_recovery.Prelude.{
  ℕ, ◌≡◌, refl, sym, ap, subst, Bool, true, false, List, [], ◌∷◌, ◌++◌, map, arith, ◌==◌,
  if◌then◌else◌, ok, ok-bind, ◌⊎◌, inl, inr, Option-cases, ◌||◌, not, is_ok,
}
use master_recovery.Collections.Map
use master_recovery.Types.Activation.{EpochReadChallenge}
use master_recovery.Types.RecoveryV3.{ConfigCapsuleV3, RecoveryCardV3, WitnessPin}
use master_recovery.Wire.Rotation.Activate
use master_recovery.Network.Validation.{Crypto, written, witness_pins}
use master_recovery.Network.Validation.Activation.{validate_activated_capsule_v3}
use master_recovery.Network.Validation.Select.{
  WitnessReadEnvelope, Reads, no_reads, with_seen, with_valid, of_epoch, take_pinned, take_read,
  take_reads,
}
use master_recovery.Network.Validation.Reads.{taken_cases}

-- A member of a list with one more at its end is in the list or is that one.
appended {ℓ} : {A : Type ℓ} {x y : A} (xs : List A) → Memᴰ x (xs ++ (y ∷ [])) → Memᴰ x xs ⊎ (x ≡ y)
appended [] (head e) = inr e
appended [] (tail m) = absurd (Memᴰ.not-nil m)
appended (z ∷ xs) (head e) = inl (head e)
appended (z ∷ xs) (tail m) = elim (appended xs m) [ inl n ↦ inl (tail n) | inr e ↦ inr e ]

chosen_member {ℓ} :
    {A : Type ℓ} (chosen : Bool) (first : A) (some_of all : List A) (x : A)
    → (Memᴰ x some_of → Memᴰ x all)
    → Memᴰ x (if chosen then first ∷ some_of else some_of)
    → Memᴰ x (first ∷ all)
chosen_member true first some_of all x rest (head e) = head e
chosen_member true first some_of all x rest (tail m) = tail (rest m)
chosen_member false first some_of all x rest m = tail (rest m)

-- The first of a list is in it.
pub first_member {ℓ} : {A : Type ℓ} (xs rest : List A) (x : A) → xs ≡ x ∷ rest → Memᴰ x xs
first_member xs rest x e = subst (Memᴰ x) (sym e) (head refl)

-- The capsules of an epoch are among all.
pub of_epoch-member :
    (n : ℕ) (capsules : List ConfigCapsuleV3) {capsule : ConfigCapsuleV3}
    → Memᴰ capsule (of_epoch n capsules)
    → Memᴰ capsule capsules
unfolding of_epoch
of_epoch-member n [] m = m
of_epoch-member n (first ∷ capsules) {capsule} m =
    chosen_member (first.config_ref.guardian_epoch == n) first (of_epoch n capsules) capsules
      capsule (λ k. of_epoch-member n capsules k) m

same_valid : {a b : Reads} → a ≡ b → a.valid ≡ b.valid
same_valid e = ap (λ (r : Reads). r.valid) e

abbrev pub capsules_of : List WitnessReadEnvelope → List ConfigCapsuleV3
capsules_of envelopes = map (λ envelope. envelope.capsule) envelopes

module _ (c : Crypto) where
  -- One envelope adds at most its own capsule.
  take_pinned-valid :
      (card : RecoveryCardV3) (challenge : EpochReadChallenge) (reads next : Reads)
      (envelope : WitnessReadEnvelope) (pin : WitnessPin)
      → take_pinned c card challenge reads envelope pin ≡ ok next
      → (next.valid ≡ reads.valid) ⊎ (next.valid ≡ reads.valid ++ (envelope.capsule ∷ []))
  unfolding take_pinned
  take_pinned-valid card challenge reads next envelope pin h =
      elim (taken_cases c _
        (λ t.
          not (c.verify pin.public_key t envelope.response.witness_signature)
          || not (is_ok (validate_activated_capsule_v3 c card envelope.capsule)))
        (written (Activate.witness_epoch_read_response envelope.response)) reads
        (with_seen reads envelope.response.witness_id)
        (with_valid reads envelope.response.witness_id envelope.capsule) next h) [
          | inl e ↦ inl (same_valid e)
          | inr (inl e) ↦ inl (same_valid e)
          | inr (inr (t, fresh, passed, e)) ↦ inr (same_valid e)
        ]

  take_read-valid :
      (card : RecoveryCardV3) (challenge : EpochReadChallenge) (reads next : Reads)
      (envelope : WitnessReadEnvelope)
      → take_read c card challenge reads envelope ≡ ok next
      → (next.valid ≡ reads.valid) ⊎ (next.valid ≡ reads.valid ++ (envelope.capsule ∷ []))
  unfolding take_read
  take_read-valid card challenge reads next envelope h =
      elim (Option-cases (Map.get (witness_pins card) envelope.response.witness_id)) [
        | inl e ↦ let same : next ≡ reads = ground (arith, e, h) in inl (same_valid same)
        | inr (pin, e) ↦
            take_pinned-valid card challenge reads next envelope pin (ground (arith, e, h))
      ]

  -- A valid capsule was valid before the envelopes, or stands in one of them.
  valid_capsule :
      (card : RecoveryCardV3) (challenge : EpochReadChallenge) (reads last : Reads)
      (envelopes : List WitnessReadEnvelope) (capsule : ConfigCapsuleV3)
      → take_reads c card challenge reads envelopes ≡ ok last
      → Memᴰ capsule last.valid
      → Memᴰ capsule reads.valid ⊎ Memᴰ capsule (capsules_of envelopes)
  unfolding take_reads
  valid_capsule card challenge reads last [] capsule h m =
      let same : last ≡ reads = ground arith in inl (subst (Memᴰ capsule) (same_valid same) m)
  valid_capsule card challenge reads last (envelope ∷ envelopes) capsule h m =
      let (next, hn, hr) = ok-bind (take_read c card challenge reads envelope) _ last h in
      elim (valid_capsule card challenge next last envelopes capsule hr m) [
        | inr n ↦ inr (tail n)
        | inl n ↦ elim (take_read-valid card challenge reads next envelope hn) [
          | inl e ↦ inl (subst (Memᴰ capsule) e n)
          | inr e ↦ elim (appended reads.valid (subst (Memᴰ capsule) e n)) [
            | inl k ↦ inl k
            | inr same ↦ inr (head same)
          ]
        ]
      ]

  -- A valid capsule of the reads stands in one of the envelopes.
  pub valid_given :
      (card : RecoveryCardV3) (challenge : EpochReadChallenge) (last : Reads)
      (envelopes : List WitnessReadEnvelope) (capsule : ConfigCapsuleV3)
      → take_reads c card challenge no_reads envelopes ≡ ok last
      → Memᴰ capsule last.valid
      → Memᴰ capsule (capsules_of envelopes)
  unfolding no_reads
  valid_given card challenge last envelopes capsule h m =
      elim (valid_capsule card challenge no_reads last envelopes capsule h m) [
        | inl n ↦ absurd (Memᴰ.not-nil n)
        | inr n ↦ n
      ]
