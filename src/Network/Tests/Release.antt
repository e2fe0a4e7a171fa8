-- ===== src/Network/Tests/Release.antt =====
-- A plan and its intent, the certificate that begins it and the one that releases it.
use master_recovery.Prelude.{◌+◌, ℕ, ◌≡◌, refl, none, [], ◌∷◌, saturating_add, ok}
use master_recovery.Collections.Set
use master_recovery.Types.Rotation.{same_config_ref, is_direct_successor_of}
use master_recovery.Types.Epoch.{
  RotationIntent, planned_exit, RotationContext, zf_frost_ristretto255_rts_refresh_v1,
}
use master_recovery.Types.Ceremony.{
  GuardianRouteV3, RotationPlan, SignerRotationBeginVote, BeginRotationCertificate,
  SignerRotationReleaseVote, RotationReleaseCertificate,
}
use master_recovery.Types.RecoveryV3.{ConfigCapsuleV3}
use master_recovery.Wire.Bytes.{to_be_bytes, same_bytes}
use master_recovery.Wire.Transcript.{bytes, domain, u16, u64}
use master_recovery.Wire.Messages
use master_recovery.Wire.Rotation.{
  refuse_if, after, guarded, each, any, optional_bytes, config_ref_into, context_into,
  same_rotation, bounded_count, unique_from, unique_ids, dpss_suite_id, reason_id, route_into,
}
use master_recovery.Wire.Rotation.Plan as Transcripts
use master_recovery.Wire.Rotation.Votes
use master_recovery.Network.Validation as Validation
use master_recovery.Network.Validation.{check_votes, check_vote, check_threshold, same_context}
use master_recovery.Network.Validation.Plan as Plan
use master_recovery.Network.Validation.Rotation.{
  validate_begin_rotation_certificate_v3, validate_rotation_release_certificate_v3,
}
use master_recovery.Network.Validation.Intent as Intent
use master_recovery.Network.Validation.Replacement.{IsReplacement, accepted_plan-IsReplacement}
use master_recovery.Network.Validation.Delay.{IsReleased, rotation_release-IsReleased}
use master_recovery.Network.Tests.{trusting, epoch_ref, capsule}

abbrev pub predecessor : ConfigCapsuleV3
predecessor = capsule 1 0 none none

abbrev pub context : RotationContext
context = record {
  protocol_version = 3;
  config_ref = epoch_ref 1;
  rotation_id = 9;
  predecessor_capsule_hash = 7;
  recipient_key = [];
  nonce = 2;
  issued_at = 10;
  expiry = 100;
}

abbrev route : ℕ → GuardianRouteV3
route id = record {
  guardian_index = id;
  opaque_slot_id = id;
  mailbox = id ∷ [];
  guardian_public_key = id;
  session_recipient_key = [];
  operator_domain_commitment = id;
}

-- The route of a guardian that stays.
abbrev moved : ℕ → GuardianRouteV3
moved id = record (route id) { opaque_slot_id = 20 + id; mailbox = (20 + id) ∷ [] }

abbrev pub plan : RotationPlan
plan = record {
  context = context;
  intent_hash = 1;
  predecessor = epoch_ref 1;
  successor = epoch_ref 2;
  old_roster = route 1 ∷ route 2 ∷ [];
  new_roster = moved 1 ∷ route 3 ∷ [];
  old_roster_commitment = 7;
  new_roster_commitment = 7;
  old_guardian_threshold = 2;
  new_guardian_threshold = 2;
  data_shards = 2;
  total_shards = 2;
  dpss_suite = zf_frost_ristretto255_rts_refresh_v1;
  dpss_session_id = 1;
  dpss_qualified_set_commitment = 7;
  minimum_delay_secs = 5;
  preparation_deadline = 40;
  drain_deadline = 60;
}

abbrev begin_vote : SignerRotationBeginVote
begin_vote = record {
  context = context;
  intent_hash = 1;
  plan_hash = 7;
  old_roster_commitment = 7;
  new_roster_commitment = 7;
  signer_id = 1;
  signer_public_key = 11;
  signer_membership_proof = [];
  signer_signature = [];
}

abbrev begin : BeginRotationCertificate
begin = record {
  context = context;
  intent_hash = 1;
  plan_hash = 7;
  old_roster_commitment = 7;
  new_roster_commitment = 7;
  not_before_wall = 15;
  votes = begin_vote ∷ [];
}

abbrev release_vote : SignerRotationReleaseVote
release_vote = record {
  context = context;
  plan_hash = 7;
  begin_certificate_hash = 7;
  signer_id = 1;
  signer_public_key = 11;
  signer_membership_proof = [];
  signer_signature = [];
}

abbrev release : RotationReleaseCertificate
release = record {
  context = context;
  plan_hash = 7;
  begin_certificate_hash = 7;
  votes = release_vote ∷ [];
}

release_validates :
    validate_rotation_release_certificate_v3 trusting release begin plan predecessor 20 ≡ ok 7
unfolding validate_rotation_release_certificate_v3 validate_begin_rotation_certificate_v3
    Plan.validate_rotation_plan_v3 Plan.breaks_policy Plan.try_u16 check_votes check_vote
    check_threshold same_context Validation.validate_signer_membership Validation.verify_membership
    Validation.verify_signature Validation.bail_if Validation.written Messages.signer_leaf
    Transcripts.rotation_plan Transcripts.guardian_roster_v3 Votes.begin_rotation_certificate
    Votes.signer_rotation_begin_vote Votes.begin_vote_into Votes.other_begin
    Votes.rotation_release_certificate Votes.signer_rotation_release_vote Votes.release_vote_into
    Votes.other_release refuse_if after guarded each any optional_bytes config_ref_into context_into
    same_rotation same_config_ref is_direct_successor_of bounded_count unique_from unique_ids
    dpss_suite_id route_into to_be_bytes same_bytes bytes domain u16 u64 Set.empty Set.insert
    Set.contains Set.size saturating_add
release_validates = refl

rotation_release-IsReleased_example : IsReleased trusting release begin plan predecessor 20
rotation_release-IsReleased_example =
    rotation_release-IsReleased trusting release begin plan predecessor 20 7 release_validates

abbrev intent : RotationIntent
intent = record {
  context = context;
  reason = planned_exit;
  old_guardian_count = 2;
  old_guardian_threshold = 2;
  allowed_new_guardian_count = 2 ∷ [];
  allowed_new_guardian_threshold = 2 ∷ [];
  allowed_dpss_suites = zf_frost_ristretto255_rts_refresh_v1 ∷ [];
  selection_constraints_commitment = 7;
  witness_read_qc_hash = 0;
}

plan_validates :
    Intent.validate_rotation_plan_against_intent_v3 trusting
      (record plan { intent_hash = 7 })
      intent
      predecessor
      20
    ≡ ok 7
unfolding Intent.validate_rotation_plan_against_intent_v3 Intent.has_guardian Intent.route_map
    Intent.only_in Intent.is_stale_route Intent.any_stale_route Intent.id_set Intent.string_set
    Intent.repeats_identity Intent.check_replacement Transcripts.rotation_intent reason_id
    validate_rotation_release_certificate_v3 validate_begin_rotation_certificate_v3
    Plan.validate_rotation_plan_v3 Plan.breaks_policy Plan.try_u16 check_votes check_vote
    check_threshold same_context Validation.validate_signer_membership Validation.verify_membership
    Validation.verify_signature Validation.bail_if Validation.written Messages.signer_leaf
    Transcripts.rotation_plan Transcripts.guardian_roster_v3 Votes.begin_rotation_certificate
    Votes.signer_rotation_begin_vote Votes.begin_vote_into Votes.other_begin
    Votes.rotation_release_certificate Votes.signer_rotation_release_vote Votes.release_vote_into
    Votes.other_release refuse_if after guarded each any optional_bytes config_ref_into context_into
    same_rotation same_config_ref is_direct_successor_of bounded_count unique_from unique_ids
    dpss_suite_id route_into to_be_bytes same_bytes bytes domain u16 u64 Set.empty Set.insert
    Set.contains Set.size saturating_add
plan_validates = refl

accepted_plan-IsReplacement_example : IsReplacement trusting intent plan.old_roster plan.new_roster
accepted_plan-IsReplacement_example =
    accepted_plan-IsReplacement trusting (record plan { intent_hash = 7 }) intent predecessor 20 7
      plan_validates
