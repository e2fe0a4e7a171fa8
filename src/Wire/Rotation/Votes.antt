-- ===== src/Wire/Rotation/Votes.antt =====
-- crates/gp-wire/src/rotation.rs: the votes that begin and release a rotation, and the owner's cancellation.
use master_recovery.Prelude.{Bool, true, false, ◌||◌, not, map, length, ◌!=◌, Result}
use master_recovery.Types.Basic.{Bytes}
use master_recovery.Types.Ceremony.{
  SignerRotationBeginVote, BeginRotationCertificate, OwnerRotationCancelCertificate,
  OwnerRotationCancelAck, SignerRotationReleaseVote, RotationReleaseCertificate,
}
use master_recovery.Wire.Bytes.{ascii}
use master_recovery.Wire.Frame.{WireError}
use master_recovery.Wire.Transcript.{Writer, ◌>>◌, bytes, domain, u16, u64, id_bytes, transcript}
use master_recovery.Wire.Rotation.{
  max_rotation_actors, refuse_if, after, each, any, optional_bytes, context_into, same_rotation,
  bounded_count, unique_ids,
}

-- The test of a vote by the certificate that holds it.
unfoldable pub other_begin : BeginRotationCertificate → SignerRotationBeginVote → Bool
other_begin value vote =
    not (same_rotation value.context vote.context)
    || (vote.intent_hash != value.intent_hash
        || (vote.plan_hash != value.plan_hash
            || (vote.old_roster_commitment != value.old_roster_commitment
                || vote.new_roster_commitment != value.new_roster_commitment)))

-- The test of a vote by the certificate that holds it.
unfoldable pub other_release : RotationReleaseCertificate → SignerRotationReleaseVote → Bool
other_release value vote =
    not (same_rotation value.context vote.context)
    || (vote.plan_hash != value.plan_hash
        || vote.begin_certificate_hash != value.begin_certificate_hash)

unfoldable pub begin_vote_into : SignerRotationBeginVote → Bool → Writer
begin_vote_into vote include_signature =
    context_into vote.context
    >> bytes (id_bytes vote.intent_hash)
    >> bytes (id_bytes vote.plan_hash)
    >> bytes (id_bytes vote.old_roster_commitment)
    >> bytes (id_bytes vote.new_roster_commitment)
    >> u16 vote.signer_id
    >> bytes (id_bytes vote.signer_public_key)
    >> bytes vote.signer_membership_proof
    >> optional_bytes include_signature vote.signer_signature

unfoldable pub release_vote_into : SignerRotationReleaseVote → Bool → Writer
release_vote_into vote include_signature =
    context_into vote.context
    >> bytes (id_bytes vote.plan_hash)
    >> bytes (id_bytes vote.begin_certificate_hash)
    >> u16 vote.signer_id
    >> bytes (id_bytes vote.signer_public_key)
    >> bytes vote.signer_membership_proof
    >> optional_bytes include_signature vote.signer_signature

unfoldable pub signer_rotation_begin_vote : SignerRotationBeginVote → Result WireError Bytes
signer_rotation_begin_vote value =
    transcript (domain (ascii "gp/signer-rotation-begin-vote/v3") >> begin_vote_into value false)

unfoldable pub begin_rotation_certificate : BeginRotationCertificate → Result WireError Bytes
begin_rotation_certificate value = after (unique_ids (map (λ vote. vote.signer_id) value.votes)) (
    refuse_if (any (other_begin value) value.votes) (
      transcript (
        domain (ascii "gp/begin-rotation-certificate/v3")
        >> context_into value.context
        >> bytes (id_bytes value.intent_hash)
        >> bytes (id_bytes value.plan_hash)
        >> bytes (id_bytes value.old_roster_commitment)
        >> bytes (id_bytes value.new_roster_commitment)
        >> u64 value.not_before_wall
        >> bounded_count (length value.votes) max_rotation_actors
        >> each (λ (vote : SignerRotationBeginVote). begin_vote_into vote true) value.votes)))

unfoldable pub owner_rotation_cancel_certificate :
    OwnerRotationCancelCertificate → Result WireError Bytes
owner_rotation_cancel_certificate value = transcript (
    domain (ascii "gp/owner-rotation-cancel/v3")
    >> context_into value.context
    >> bytes (id_bytes value.plan_hash)
    >> u16 value.reason_code
    >> bytes value.cancel_response_recipient_key
    >> bytes (id_bytes value.owner_cancel_public_key))

unfoldable pub owner_rotation_cancel_ack : OwnerRotationCancelAck → Result WireError Bytes
owner_rotation_cancel_ack value = transcript (
    domain (ascii "gp/owner-rotation-cancel-ack/v3")
    >> context_into value.context
    >> bytes (id_bytes value.plan_hash)
    >> bytes (id_bytes value.cancel_certificate_hash)
    >> u16 value.guardian_index)

unfoldable pub signer_rotation_release_vote : SignerRotationReleaseVote → Result WireError Bytes
signer_rotation_release_vote value =
    transcript
      (domain (ascii "gp/signer-rotation-release-vote/v3") >> release_vote_into value false)

unfoldable pub rotation_release_certificate : RotationReleaseCertificate → Result WireError Bytes
rotation_release_certificate value = after (unique_ids (map (λ vote. vote.signer_id) value.votes)) (
    refuse_if (any (other_release value) value.votes) (
      transcript (
        domain (ascii "gp/rotation-release-certificate/v3")
        >> context_into value.context
        >> bytes (id_bytes value.plan_hash)
        >> bytes (id_bytes value.begin_certificate_hash)
        >> bounded_count (length value.votes) max_rotation_actors
        >> each (λ (vote : SignerRotationReleaseVote). release_vote_into vote true) value.votes)))
