-- ===== src/Wire/Rotation/Retire.antt =====
-- crates/gp-wire/src/rotation.rs: retirement and abort.
use master_recovery.Prelude.{Bool, true, false, map, length, Result}
use master_recovery.Types.Basic.{Bytes}
use master_recovery.Types.Activation.{
  RetirementNotice, RetirementAck, SignerRotationAbortVote, AbortRotationCertificate,
}
use master_recovery.Wire.Bytes.{ascii}
use master_recovery.Wire.Frame.{WireError}
use master_recovery.Wire.Transcript.{Writer, ◌>>◌, bytes, domain, u16, u64, id_bytes, transcript}
use master_recovery.Wire.Rotation.{
  max_rotation_actors, after, each, optional_bytes, context_into, bounded_count, unique_ids,
  state_id,
}

unfoldable pub signer_rotation_abort_vote_into : SignerRotationAbortVote → Bool → Writer
signer_rotation_abort_vote_into value include_signature =
    context_into value.context
    >> bytes (id_bytes value.plan_hash)
    >> u16 (state_id value.state_at_abort)
    >> u16 value.reason_code
    >> u16 value.signer_id
    >> bytes (id_bytes value.signer_public_key)
    >> bytes value.signer_membership_proof
    >> optional_bytes include_signature value.signer_signature

unfoldable pub retirement_notice : RetirementNotice → Result WireError Bytes
retirement_notice value = transcript (
    domain (ascii "gp/retirement-notice/v3")
    >> context_into value.context
    >> bytes (id_bytes value.plan_hash)
    >> bytes (id_bytes value.activation_qc_hash)
    >> u64 value.retired_epoch
    >> u64 value.drain_deadline)

unfoldable pub retirement_ack : RetirementAck → Result WireError Bytes
retirement_ack value = transcript (
    domain (ascii "gp/retirement-ack/v3")
    >> context_into value.context
    >> bytes (id_bytes value.plan_hash)
    >> bytes (id_bytes value.activation_qc_hash)
    >> u16 value.guardian_index
    >> u64 value.retired_epoch
    >> bytes (id_bytes value.tombstone_hash))

unfoldable pub abort_rotation_certificate : AbortRotationCertificate → Result WireError Bytes
abort_rotation_certificate value = after (unique_ids (map (λ vote. vote.signer_id) value.votes)) (
    transcript (
      domain (ascii "gp/abort-rotation-certificate/v3")
      >> context_into value.context
      >> bytes (id_bytes value.plan_hash)
      >> u16 (state_id value.state_at_abort)
      >> u16 value.reason_code
      >> bounded_count (length value.votes) max_rotation_actors
      >> each (λ (vote : SignerRotationAbortVote). signer_rotation_abort_vote_into vote true)
          value.votes))

unfoldable pub signer_rotation_abort_vote : SignerRotationAbortVote → Result WireError Bytes
signer_rotation_abort_vote value = transcript (
    domain (ascii "gp/signer-rotation-abort-vote/v3")
    >> signer_rotation_abort_vote_into value false)
