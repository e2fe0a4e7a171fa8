-- ===== src/Network/Tests.antt =====
-- A card, capsules and certificates that pass the checks of crates/gp-network/src/rotation_protocol.rs,
-- under a hash that is constant and signatures that all verify.
mod Release
mod Veto
use master_recovery.Prelude.{
  ℕ, ◌+◌, saturating_add, ◌≡◌, refl, Bool, true, false, Option, none, some, List, [], ◌∷◌, arith,
  map, Result, ok, err, ◌<◌,
}
use master_recovery.Collections.Set
use master_recovery.Collections.Map
use master_recovery.Types.Basic.{Id32, Bytes, AeadCiphertext}
use master_recovery.Types.Rotation.{ConfigRef, same_config_ref, is_direct_successor_of}
use master_recovery.Types.Epoch.{
  RotationContext, WitnessActivationAck, EpochActivationQc, zf_frost_ristretto255_rts_refresh_v1,
}
use master_recovery.Types.Activation.{
  RotationActivateCertificate, SignerRotationActivateVote, EpochReadChallenge,
  WitnessEpochReadResponse,
}
use master_recovery.Types.RecoveryV3.{ConfigCapsuleV3, RecoveryCardV3, WitnessPin}
use master_recovery.Wire.Bytes.{to_be_bytes, same_bytes}
use master_recovery.Wire.Transcript.{bytes, domain, u16, u32, u64, nested}
use master_recovery.Wire.Messages
use master_recovery.Wire.Rotation.{
  refuse_if, after, guarded, each, any, optional_bytes, config_ref_into, context_into,
  same_rotation, bounded_count, unique_from, unique_ids, dpss_suite_id,
}
use master_recovery.Wire.Frame.{WireError}
use master_recovery.Wire.Rotation.Activate
use master_recovery.Wire.Rotation.Activate.{epoch_activation_qc}
use master_recovery.Wire.Rotation.Contexts
use master_recovery.Wire.Rotation.Quorum.{
  locks_respected, HasQuorum, epoch_activation_qc-HasQuorum, quorums_meet,
}
use master_recovery.Wire.Rotation.Meeting.{mem, common}
use master_recovery.Network.Validation as Validation
use master_recovery.Network.Validation.{
  Crypto, SignedVote, check_votes, check_vote, check_threshold,
}
use master_recovery.Network.Validation.Select as Select
use master_recovery.Network.Validation.Select.{WitnessReadEnvelope, select_latest_epoch_v3}
use master_recovery.Network.Validation.Intent as Intent
use master_recovery.Network.Validation.Backing.{IsBacked, check_threshold-IsBacked}
use master_recovery.Network.Validation.Latest.{IsLatest, select_latest_epoch_v3-IsLatest}
use master_recovery.Network.Validation.Activation as Activation
use master_recovery.Network.Validation.Activation.{validate_activated_capsule_v3}
use master_recovery.Network.Validation.Fork.{no_fork}

abbrev pub trusting : Crypto
trusting = record {
  sha256 = λ input. 7;
  verify = λ key message signature. true;
  merkle_verify = λ root leaf index count proof. true;
}

abbrev pin : ℕ → WitnessPin
pin id = record { witness_id = id; mailbox = id ∷ []; public_key = id }

abbrev pub card : RecoveryCardV3
card = record {
  protocol_version = 3;
  config_id = 1;
  signer_mailboxes = [];
  signer_set_commitment = 5;
  owner_cancel_public_key = 6;
  witness_fault_bound = 1;
  witnesses = pin 1 ∷ pin 2 ∷ pin 3 ∷ pin 4 ∷ [];
  relay_bases = [];
}

abbrev pub epoch_ref : ℕ → ConfigRef
epoch_ref epoch = record {
  config_id = 1;
  payload_generation = 1;
  authorization_epoch = 1;
  guardian_epoch = epoch;
  epoch_binding = epoch;
}

abbrev pub context : RotationContext
context = record {
  protocol_version = 3;
  config_ref = epoch_ref 1;
  rotation_id = 9;
  predecessor_capsule_hash = 8;
  recipient_key = [];
  nonce = 2;
  issued_at = 10;
  expiry = 100;
}

abbrev vote : SignerRotationActivateVote
vote = record {
  context = context;
  plan_hash = 3;
  ready_certificate_hash = 4;
  successor_capsule_hash = 7;
  signer_id = 1;
  signer_public_key = 11;
  signer_membership_proof = [];
  signer_signature = [];
}

abbrev certificate : RotationActivateCertificate
certificate = record {
  context = context;
  plan_hash = 3;
  ready_certificate_hash = 4;
  successor = epoch_ref 2;
  successor_capsule_hash = 7;
  votes = vote ∷ [];
}

abbrev ack : ℕ → WitnessActivationAck
ack id = record {
  context = context;
  plan_hash = 3;
  activation_certificate_hash = 7;
  witness_id = id;
  predecessor_epoch = 1;
  predecessor_capsule_hash = 8;
  successor_epoch = 2;
  successor_capsule_hash = 7;
  witness_public_key = id;
  witness_signature = [];
}

abbrev pub qc : ℕ → EpochActivationQc
qc third = record {
  protocol_version = 3;
  config_id = 1;
  rotation_id = 9;
  predecessor_epoch = 1;
  predecessor_capsule_hash = 8;
  successor_epoch = 2;
  successor_capsule_hash = 7;
  activation_certificate_hash = 7;
  witness_fault_bound = 1;
  witness_acks = ack 1 ∷ ack 2 ∷ ack third ∷ [];
}

-- The capsule of an epoch, with its predecessor and its proof of activation.
abbrev pub capsule :
    ℕ → Id32 → Option RotationActivateCertificate → Option EpochActivationQc → ConfigCapsuleV3
capsule epoch predecessor activation_certificate activation_qc = record {
  protocol_version = 3;
  config_ref = epoch_ref epoch;
  capsule_hash = 7;
  predecessor_capsule_hash = predecessor;
  signer_count = 1;
  signer_threshold = 1;
  guardian_count = 2;
  guardian_threshold = 2;
  minimum_recovery_delay = 5;
  max_request_lifetime = 50;
  signer_set_commitment = 5;
  owner_cancel_public_key = 6;
  dpss_suite = zf_frost_ristretto255_rts_refresh_v1;
  dpss_public_commitment = 0;
  ciphertext_fragment_root = 0;
  guardian_material_root = 0;
  encrypted_recovery_descriptor = record { nonce = []; ciphertext = [] };
  activation_certificate = activation_certificate;
  activation_qc = activation_qc;
}

abbrev pub left : ConfigCapsuleV3
left = capsule 2 8 (some certificate) (some (qc 3))

-- The same capsule with the answers of other witnesses.
abbrev right : ConfigCapsuleV3
right = capsule 2 8 (some certificate) (some (qc 4))

abbrev challenge : EpochReadChallenge
challenge = record {
  protocol_version = 3;
  config_id = 1;
  client_nonce = 21;
  response_recipient_key = [];
  issued_at = 10;
  expiry = 20;
}

abbrev read : ℕ → ConfigCapsuleV3 → WitnessReadEnvelope
read id found = record {
  response = record {
    protocol_version = 3;
    config_id = 1;
    client_nonce = 21;
    witness_id = id;
    highest_guardian_epoch = found.config_ref.guardian_epoch;
    capsule_hash = 7;
    witness_public_key = id;
    witness_signature = [];
  };
  capsule = found;
}

abbrev reads : List WitnessReadEnvelope
reads = read 1 (capsule 1 0 none none) ∷ read 2 left ∷ read 3 right ∷ []

pub runs :
    (validate_activated_capsule_v3 trusting card left ≡ ok tt)
    × (validate_activated_capsule_v3 trusting card right ≡ ok tt)
    × (select_latest_epoch_v3 trusting card challenge reads ≡ ok left)
unfolding validate_activated_capsule_v3 Activation.validate_successor
    Activation.validate_activate_certificate Activation.other_successor Activation.other_qc
    Activation.check_activate_votes Activation.check_activate_vote Activation.check_witnesses
    Activation.check_witness Validation.validate_recovery_card_v3 Validation.bail_if
    Validation.written Validation.required_roster Validation.required_witness_quorum
    Validation.check_pins Validation.collect_pins Validation.witness_pins
    Validation.verify_signature Validation.verify_membership Messages.signer_leaf
    Contexts.config_capsule_body_v3 Activate.epoch_activation_qc
    Activate.rotation_activate_certificate Activate.signer_rotation_activate_vote
    Activate.witness_activation_ack Activate.activate_vote_into Activate.witness_ack_into
    Activate.other_activation Activate.other_witness refuse_if after guarded each any optional_bytes
    config_ref_into context_into same_rotation same_config_ref bounded_count unique_from unique_ids
    dpss_suite_id to_be_bytes same_bytes bytes domain u16 u32 u64 nested Set.empty Set.insert
    Set.contains Set.size Map.empty Map.insert Map.get Select.select_latest_epoch_v3
    Select.take_reads Select.take_read Select.take_pinned Select.other_response Select.no_reads
    Select.highest_epoch Select.of_epoch Select.select_highest Select.valid_genesis_agreement
    Select.agreeing Intent.id_set Activate.epoch_read_challenge Activate.witness_epoch_read_response
    saturating_add Activation.validate_genesis
runs = (refl, refl, refl)

no_fork_example : left.capsule_hash ≡ right.capsule_hash
unfolding locks_respected mem
no_fork_example =
    no_fork trusting (λ witness predecessor. 7) (2 ∷ []) card left right (qc 3) (qc 4) runs.0 runs.1
      (ground arith) (ground arith) refl refl refl (omega arith) refl refl refl

select_latest_epoch_v3-IsLatest_example : IsLatest trusting card challenge reads left
select_latest_epoch_v3-IsLatest_example =
    select_latest_epoch_v3-IsLatest trusting card challenge reads left runs.2

-- A vote as a certificate's check sees it.
abbrev signed : ℕ → SignedVote
signed id = record {
  mismatched = false;
  signer_id = id;
  signer_public_key = 30 + id;
  signer_membership_proof = [];
  transcript = ok [];
  signer_signature = [];
}

abbrev two_of_two : ConfigCapsuleV3
two_of_two = record (capsule 1 0 none none) { signer_count = 2; signer_threshold = 2 }

two_signed : check_threshold trusting two_of_two (signed 1 ∷ signed 2 ∷ []) ≡ ok tt
unfolding check_threshold check_votes check_vote Validation.validate_signer_membership
    Validation.verify_membership Validation.verify_signature Validation.bail_if Validation.written
    Messages.signer_leaf to_be_bytes bytes domain u16 Set.empty Set.insert Set.contains Set.size
two_signed = refl

check_threshold-IsBacked_example : IsBacked trusting two_of_two (signed 1 ∷ signed 2 ∷ [])
check_threshold-IsBacked_example =
    check_threshold-IsBacked trusting two_of_two (signed 1 ∷ signed 2 ∷ []) two_signed

abbrev transcript_or_nothing : Result WireError Bytes → Bytes
transcript_or_nothing (ok transcript) = transcript
transcript_or_nothing (err error) = []

abbrev qc_bytes : ℕ → Bytes
qc_bytes third = transcript_or_nothing (epoch_activation_qc (qc third))

qc_runs :
    (epoch_activation_qc (qc 3) ≡ ok (qc_bytes 3)) × (epoch_activation_qc (qc 4) ≡ ok (qc_bytes 4))
unfolding epoch_activation_qc Activate.witness_ack_into Activate.other_witness refuse_if after
    guarded each any optional_bytes config_ref_into context_into bounded_count unique_from
    unique_ids to_be_bytes bytes domain u16 u64 Set.empty Set.insert Set.contains saturating_add
qc_runs = (refl, refl)

epoch_activation_qc-HasQuorum_holds : HasQuorum (qc 3)
epoch_activation_qc-HasQuorum_holds = epoch_activation_qc-HasQuorum (qc 3) (qc_bytes 3) qc_runs.0

quorums_meet_example : 1 < common (1 ∷ 2 ∷ 3 ∷ []) (1 ∷ 2 ∷ 4 ∷ [])
unfolding mem
quorums_meet_example =
    quorums_meet (1 ∷ 2 ∷ 3 ∷ 4 ∷ []) (qc 3) (qc 4) (qc_bytes 3) (qc_bytes 4) qc_runs.0 qc_runs.1
      refl refl (refl, (refl, (refl, tt))) (refl, (refl, (refl, tt)))
