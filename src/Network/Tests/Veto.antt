-- ===== src/Network/Tests/Veto.antt =====
-- A cancellation by the owner that three witnesses vetoed with.
use master_recovery.Prelude.{ℕ, ◌<◌, ◌≡◌, refl, List, [], ◌∷◌, arith, replicate, saturating_add, ok}
use master_recovery.Collections.Set
use master_recovery.Collections.Map
use master_recovery.Types.Rotation.{same_config_ref, is_direct_successor_of}
use master_recovery.Types.Ceremony.{OwnerRotationCancelCertificate}
use master_recovery.Types.Activation.{WitnessRotationCancelAck}
use master_recovery.Wire.Bytes.{to_be_bytes, same_bytes}
use master_recovery.Wire.Transcript.{bytes, domain, u16, u64}
use master_recovery.Wire.Rotation.{
  refuse_if, after, guarded, each, any, config_ref_into, context_into, bounded_count, unique_from,
  unique_ids, dpss_suite_id, route_into,
}
use master_recovery.Wire.Rotation.Meeting.{common}
use master_recovery.Wire.Rotation.Plan as Transcripts
use master_recovery.Wire.Rotation.Votes
use master_recovery.Wire.Rotation.Activate
use master_recovery.Network.Validation as Validation
use master_recovery.Network.Validation.{same_context}
use master_recovery.Network.Validation.Plan as Plan
use master_recovery.Network.Validation.Rotation as Rotation
use master_recovery.Network.Validation.Veto.{veto_meets_activation}
use master_recovery.Network.Tests.{trusting, card, left, qc, runs}
use master_recovery.Network.Tests.Release.{predecessor, context, plan}

abbrev certificate : OwnerRotationCancelCertificate
certificate = record {
  context = context;
  plan_hash = 7;
  reason_code = 1;
  cancel_response_recipient_key = replicate 1216 1;
  owner_cancel_public_key = 6;
  owner_signature = [];
}

abbrev veto : ℕ → WitnessRotationCancelAck
veto id = record {
  protocol_version = 3;
  config_id = 1;
  rotation_id = 9;
  plan_hash = 7;
  cancel_certificate_hash = 7;
  witness_id = id;
  witness_public_key = id;
  witness_signature = [];
}

abbrev vetoes : List WitnessRotationCancelAck
vetoes = veto 4 ∷ veto 2 ∷ veto 3 ∷ []

cancellation_validates :
    Rotation.validate_owner_rotation_cancel_witness_quorum_v3 trusting certificate vetoes card plan
      predecessor 20
    ≡ ok 7
unfolding Rotation.validate_owner_rotation_cancel_witness_quorum_v3 Rotation.check_vetoes
    Rotation.check_veto Rotation.other_veto Plan.validate_rotation_plan_v3 Plan.breaks_policy
    Plan.try_u16 same_context Validation.validate_recovery_card_v3 Validation.required_roster
    Validation.required_witness_quorum Validation.check_pins Validation.collect_pins
    Validation.witness_pins Validation.verify_signature Validation.bail_if Validation.written
    Transcripts.rotation_plan Transcripts.guardian_roster_v3 Votes.owner_rotation_cancel_certificate
    Activate.witness_rotation_cancel_ack refuse_if after guarded each any config_ref_into
    context_into same_config_ref is_direct_successor_of bounded_count unique_from unique_ids
    dpss_suite_id route_into to_be_bytes same_bytes bytes domain u16 u64 Set.empty Set.insert
    Set.contains Set.size Map.empty Map.insert Map.get saturating_add
cancellation_validates = refl

veto_meets_activation_example : 1 < common (4 ∷ 2 ∷ 3 ∷ []) (1 ∷ 2 ∷ 3 ∷ [])
veto_meets_activation_example =
    veto_meets_activation trusting certificate vetoes card plan predecessor left 20 7 (qc 3)
      cancellation_validates runs.0 (ground arith) refl refl
