-- ===== src/Network/Validation/Select.antt =====
-- crates/gp-network/src/rotation_protocol.rs: the latest epoch by a fresh read of the witnesses, and the
-- hash of such a read.
use master_recovery.Prelude.{
  ℕ, Bool, ◌&&◌, ◌||◌, not, Option, none, some, List, [], ◌∷◌, ◌++◌, map, length, ltb, leb, ◌==◌,
  ◌!=◌, if◌then◌else◌, Result, ok, ok_or, is_ok, ◌>>=◌, ◌>>◌,
}
use master_recovery.Collections.Set
use master_recovery.Collections.Set.{Set}
use master_recovery.Collections.Map
use master_recovery.Collections.Map.{Map}
use master_recovery.Types.Basic.{Id32, Bytes, protocol_version_v3}
use master_recovery.Types.Activation.{EpochReadChallenge, WitnessEpochReadResponse}
use master_recovery.Types.RecoveryV3.{ConfigCapsuleV3, RecoveryCardV3, WitnessPin}
use master_recovery.Wire.Transcript.{id_bytes}
use master_recovery.Wire.Rotation.Activate
use master_recovery.Network.Validation.{
  ProtocolError, invalid_witness, no_witness_quorum, other_configuration, no_capsule,
  conflicting_capsules, no_genesis_agreement, Crypto, bail_if, written, required_witness_quorum,
  witness_pins, validate_recovery_card_v3,
}
use master_recovery.Network.Validation.Intent.{id_set}
use master_recovery.Network.Validation.Activation.{validate_activated_capsule_v3}

-- crates/gp-network/src/types.rs
pub record WitnessReadEnvelope : Type 0 where
  pub response : WitnessEpochReadResponse
  pub capsule : ConfigCapsuleV3

-- The insertion of a stable sort by the witness's identifier.
unfoldable pub insert_read :
    WitnessReadEnvelope → List WitnessReadEnvelope → List WitnessReadEnvelope
insert_read read [] = read ∷ []
insert_read read (next ∷ reads) =
    let rest = insert_read read reads in
    if leb read.response.witness_id next.response.witness_id
    then read ∷ next ∷ reads
    else next ∷ rest

-- `sort_by_key`
unfoldable pub sort_reads : List WitnessReadEnvelope → List WitnessReadEnvelope
sort_reads [] = []
sort_reads (read ∷ reads) = insert_read read (sort_reads reads)

-- The loop over the sorted reads, with the witnesses seen and the material so far.
unfoldable pub read_material : Set → Bytes → List WitnessReadEnvelope → Result ProtocolError Bytes
read_material ids material [] = ok material
read_material ids material (read ∷ reads) = do
  bail_if (Set.contains ids read.response.witness_id) invalid_witness
  transcript ← written (Activate.witness_epoch_read_response read.response)
  read_material (Set.insert ids read.response.witness_id)
      (material ++ transcript ++ id_bytes read.capsule.capsule_hash) reads

-- What the loop over the envelopes has gathered.
pub record Reads : Type 0 where
  pub seen_witnesses : Set
  pub valid_witnesses : Set
  pub valid : List ConfigCapsuleV3

unfoldable pub no_reads : Reads
no_reads = record { seen_witnesses = Set.empty; valid_witnesses = Set.empty; valid = [] }

-- The witness counts as seen.
abbrev pub with_seen : Reads → ℕ → Reads
with_seen reads id = record reads { seen_witnesses = Set.insert reads.seen_witnesses id }

-- The witness and its capsule are valid as well.
abbrev pub with_valid : Reads → ℕ → ConfigCapsuleV3 → Reads
with_valid reads id capsule = record {
  seen_witnesses = Set.insert reads.seen_witnesses id;
  valid_witnesses = Set.insert reads.valid_witnesses id;
  valid = reads.valid ++ (capsule ∷ []);
}

-- The tests of a response before its witness counts as seen.
unfoldable pub other_response : EpochReadChallenge → WitnessPin → WitnessReadEnvelope → Bool
other_response challenge pin envelope =
    envelope.response.protocol_version != protocol_version_v3
    || (envelope.response.config_id != challenge.config_id
        || (envelope.response.client_nonce != challenge.client_nonce
            || (envelope.response.witness_public_key != pin.public_key
                || (envelope.response.highest_guardian_epoch
                      != envelope.capsule.config_ref.guardian_epoch
                    || envelope.response.capsule_hash != envelope.capsule.capsule_hash))))

-- `max()` of the epochs.
unfoldable pub highest_epoch : List ConfigCapsuleV3 → Option ℕ
highest_epoch [] = none
highest_epoch (capsule ∷ capsules) = elim (highest_epoch capsules) [
  | none ↦ some capsule.config_ref.guardian_epoch
  | some epoch ↦ some (
      if leb capsule.config_ref.guardian_epoch epoch
      then epoch
      else capsule.config_ref.guardian_epoch)
]

unfoldable pub of_epoch : ℕ → List ConfigCapsuleV3 → List ConfigCapsuleV3
of_epoch epoch [] = []
of_epoch epoch (capsule ∷ capsules) =
    let rest = of_epoch epoch capsules in
    if capsule.config_ref.guardian_epoch == epoch then capsule ∷ rest else rest

-- The witnesses that vouch for this capsule as the genesis.
unfoldable pub agreeing : List WitnessReadEnvelope → Set → Id32 → List ℕ
agreeing [] valid_witnesses capsule_hash = []
agreeing (envelope ∷ envelopes) valid_witnesses capsule_hash =
    let rest = agreeing envelopes valid_witnesses capsule_hash in
    if Set.contains valid_witnesses envelope.response.witness_id
      && (envelope.response.highest_guardian_epoch == 1
          && envelope.response.capsule_hash == capsule_hash)
    then envelope.response.witness_id ∷ rest
    else rest

unfoldable pub valid_genesis_agreement : List WitnessReadEnvelope → Set → Id32 → ℕ
valid_genesis_agreement envelopes valid_witnesses capsule_hash =
    Set.size (id_set (agreeing envelopes valid_witnesses capsule_hash))

-- The one capsule of the highest epoch. `highest` is not empty where it has one hash.
unfoldable pub select_highest : List ConfigCapsuleV3 → Result ProtocolError ConfigCapsuleV3
select_highest highest = do
  bail_if (Set.size (id_set (map (λ capsule. capsule.capsule_hash) highest)) != 1)
      conflicting_capsules
  ok_or (elim highest [ [] ↦ none | selected ∷ rest ↦ some selected ]) no_capsule

module _ (c : Crypto) where
  unfoldable pub witness_read_quorum_hash_v3 :
      EpochReadChallenge → List WitnessReadEnvelope → Result ProtocolError Id32
  witness_read_quorum_hash_v3 challenge reads = do
    opening ← written (Activate.epoch_read_challenge challenge)
    material ← read_material Set.empty opening (sort_reads reads)
    ok (c.sha256 material)

  -- What the loop does with a response of a pinned witness. A response that is skipped after its witness
  -- counts as seen keeps that witness's later responses out.
  unfoldable pub take_pinned :
      RecoveryCardV3
      → EpochReadChallenge
      → Reads
      → WitnessReadEnvelope
      → WitnessPin
      → Result ProtocolError Reads
  take_pinned card challenge reads envelope pin =
      if other_response challenge pin envelope
        || Set.contains reads.seen_witnesses envelope.response.witness_id
      then ok reads
      else do
        transcript ← written (Activate.witness_epoch_read_response envelope.response)
        ok (
            if not (c.verify pin.public_key transcript envelope.response.witness_signature)
              || not (is_ok (validate_activated_capsule_v3 c card envelope.capsule))
            then with_seen reads envelope.response.witness_id
            else with_valid reads envelope.response.witness_id envelope.capsule)

  -- The body of the loop over the envelopes.
  unfoldable pub take_read :
      RecoveryCardV3 → EpochReadChallenge → Reads → WitnessReadEnvelope → Result ProtocolError Reads
  take_read card challenge reads envelope =
      elim (Map.get (witness_pins card) envelope.response.witness_id) [
        | none ↦ ok reads
        | some pin ↦ take_pinned card challenge reads envelope pin
      ]

  unfoldable pub take_reads :
      RecoveryCardV3
      → EpochReadChallenge
      → Reads
      → List WitnessReadEnvelope
      → Result ProtocolError Reads
  take_reads card challenge reads [] = ok reads
  take_reads card challenge reads (envelope ∷ envelopes) = do
    next ← take_read card challenge reads envelope
    take_reads card challenge next envelopes

  unfoldable pub select_latest_epoch_v3 :
      RecoveryCardV3
      → EpochReadChallenge
      → List WitnessReadEnvelope
      → Result ProtocolError ConfigCapsuleV3
  select_latest_epoch_v3 card challenge envelopes = do
    validate_recovery_card_v3 card
    written (Activate.epoch_read_challenge challenge)
    bail_if (challenge.config_id != card.config_id) other_configuration
    reads ← take_reads card challenge no_reads envelopes
    quorum ← required_witness_quorum card.witness_fault_bound
    bail_if (ltb (Set.size reads.seen_witnesses) quorum || ltb (length reads.valid) quorum)
        no_witness_quorum
    epoch ← ok_or (highest_epoch reads.valid) no_capsule
    selected ← select_highest (of_epoch epoch reads.valid)
    bail_if
        (epoch == 1
          && ltb (valid_genesis_agreement envelopes reads.valid_witnesses selected.capsule_hash)
              quorum)
        no_genesis_agreement
    ok selected
