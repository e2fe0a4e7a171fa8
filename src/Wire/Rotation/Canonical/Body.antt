-- ===== src/Wire/Rotation/Canonical/Body.antt =====
-- What the messages of protocol v3 bind: their items, and the layout of each kind.
use master_recovery.Prelude.{List}
use master_recovery.Wire.Rotation.Items.{Item, Piece}
use master_recovery.Wire.Rotation.Described.{IsDescribed}
use master_recovery.Wire.Rotation.Described.Plan
use master_recovery.Wire.Rotation.Described.Votes
use master_recovery.Wire.Rotation.Described.Grants
use master_recovery.Wire.Rotation.Described.Prepare
use master_recovery.Wire.Rotation.Described.Activate
use master_recovery.Wire.Rotation.Described.Retire
use master_recovery.Wire.Rotation.Described.Recover
use master_recovery.Wire.Rotation.Described.Contexts
use master_recovery.Wire.Rotation.Canonical.{Kind, Message, kind, domain_of, write}

-- The items that a message binds, in order.
unfoldable pub body : Message → List Item
body (Message.guardian_roster_v3 routes) = Plan.guardian_roster_v3_items routes
body (Message.rotation_intent value) = Plan.rotation_intent_items value
body (Message.signer_rotation_intent_contribution value) =
    Plan.signer_rotation_intent_contribution_items value
body (Message.rotation_intent_share_context_v3 context intent_hash signer_id) =
    Plan.rotation_intent_share_context_v3_items context intent_hash signer_id
body (Message.rotation_plan value) = Plan.rotation_plan_items value
body (Message.signer_rotation_begin_vote value) = Votes.signer_rotation_begin_vote_items value
body (Message.begin_rotation_certificate value) = Votes.begin_rotation_certificate_items value
body (Message.owner_rotation_cancel_certificate value) =
    Votes.owner_rotation_cancel_certificate_items value
body (Message.owner_rotation_cancel_ack value) = Votes.owner_rotation_cancel_ack_items value
body (Message.signer_rotation_release_vote value) = Votes.signer_rotation_release_vote_items value
body (Message.rotation_release_certificate value) = Votes.rotation_release_certificate_items value
body (Message.old_share_unlock_grant value) = Grants.old_share_unlock_grant_items value
body (Message.old_share_unlock_grant_payload_context value fragment_key) =
    Grants.old_share_unlock_grant_payload_context_items value fragment_key
body (Message.new_share_wrap_grant value) = Grants.new_share_wrap_grant_items value
body (Message.new_share_wrap_grant_payload_context value fragment_key) =
    Grants.new_share_wrap_grant_payload_context_items value fragment_key
body (Message.dpss_protocol_message value) = Grants.dpss_protocol_message_items value
body (Message.ciphertext_fragment_contribution value) =
    Grants.ciphertext_fragment_contribution_items value
body (Message.prepared_record_leaf_v3 value) = Prepare.prepared_record_leaf_v3_items value
body (Message.new_guardian_prepared_ack value) = Prepare.new_guardian_prepared_ack_items value
body (Message.old_guardian_handoff_ack value) = Prepare.old_guardian_handoff_ack_items value
body (Message.rotation_ready_certificate value) = Prepare.rotation_ready_certificate_items value
body (Message.signer_rotation_activate_vote value) =
    Activate.signer_rotation_activate_vote_items value
body (Message.rotation_activate_certificate value) =
    Activate.rotation_activate_certificate_items value
body (Message.witness_activation_ack value) = Activate.witness_activation_ack_items value
body (Message.witness_rotation_cancel_ack value) = Activate.witness_rotation_cancel_ack_items value
body (Message.epoch_activation_qc value) = Activate.epoch_activation_qc_items value
body (Message.epoch_read_challenge value) = Activate.epoch_read_challenge_items value
body (Message.witness_epoch_read_response value) = Activate.witness_epoch_read_response_items value
body (Message.retirement_notice value) = Retire.retirement_notice_items value
body (Message.retirement_ack value) = Retire.retirement_ack_items value
body (Message.abort_rotation_certificate value) = Retire.abort_rotation_certificate_items value
body (Message.signer_rotation_abort_vote value) = Retire.signer_rotation_abort_vote_items value
body (Message.recovery_request_v3 value) = Recover.recovery_request_v3_items value
body (Message.recovery_request_digest_v3 value) = Recover.recovery_request_digest_v3_items value
body (Message.recovery_authorization_share_context_v3 request signer_id) =
    Recover.recovery_authorization_share_context_v3_items request signer_id
body (Message.signer_recovery_contribution_v3 value) =
    Recover.signer_recovery_contribution_v3_items value
body (Message.begin_recovery_certificate_v3 value) =
    Recover.begin_recovery_certificate_v3_items value
body (Message.signer_recovery_release_vote_v3 value) =
    Recover.signer_recovery_release_vote_v3_items value
body (Message.recovery_release_certificate_v3 value) =
    Recover.recovery_release_certificate_v3_items value
body (Message.owner_recovery_cancel_certificate_v3 value) =
    Recover.owner_recovery_cancel_certificate_v3_items value
body (Message.owner_recovery_cancel_ack_v3 value) = Recover.owner_recovery_cancel_ack_v3_items value
body (Message.guardian_recovery_contribution_v3 value) =
    Recover.guardian_recovery_contribution_v3_items value
body (Message.guardian_share_context_v3 config_ref guardian_index) =
    Contexts.guardian_share_context_v3_items config_ref guardian_index
body (Message.guardian_fragment_context_v3 config_ref guardian_index fragment_index) =
    Contexts.guardian_fragment_context_v3_items config_ref guardian_index fragment_index
body (Message.descriptor_context_v3 config_ref) = Contexts.descriptor_context_v3_items config_ref
body (Message.config_capsule_body_v3 value) = Contexts.config_capsule_body_v3_items value
body (Message.guardian_policy_body_v3 value) = Contexts.guardian_policy_body_v3_items value
body (Message.payload_context_v3 config_id payload_generation) =
    Contexts.payload_context_v3_items config_id payload_generation
body (Message.custody_challenge value) = Contexts.custody_challenge_items value
body (Message.custody_response value) = Contexts.custody_response_items value

unfoldable pub layout : Kind → List Piece
layout Kind.guardian_roster_v3 = Plan.guardian_roster_v3_layout
layout Kind.rotation_intent = Plan.rotation_intent_layout
layout Kind.signer_rotation_intent_contribution = Plan.signer_rotation_intent_contribution_layout
layout Kind.rotation_intent_share_context_v3 = Plan.rotation_intent_share_context_v3_layout
layout Kind.rotation_plan = Plan.rotation_plan_layout
layout Kind.signer_rotation_begin_vote = Votes.signer_rotation_begin_vote_layout
layout Kind.begin_rotation_certificate = Votes.begin_rotation_certificate_layout
layout Kind.owner_rotation_cancel_certificate = Votes.owner_rotation_cancel_certificate_layout
layout Kind.owner_rotation_cancel_ack = Votes.owner_rotation_cancel_ack_layout
layout Kind.signer_rotation_release_vote = Votes.signer_rotation_release_vote_layout
layout Kind.rotation_release_certificate = Votes.rotation_release_certificate_layout
layout Kind.old_share_unlock_grant = Grants.old_share_unlock_grant_layout
layout Kind.old_share_unlock_grant_payload_context =
    Grants.old_share_unlock_grant_payload_context_layout
layout Kind.new_share_wrap_grant = Grants.new_share_wrap_grant_layout
layout Kind.new_share_wrap_grant_payload_context =
    Grants.new_share_wrap_grant_payload_context_layout
layout Kind.dpss_protocol_message = Grants.dpss_protocol_message_layout
layout Kind.ciphertext_fragment_contribution = Grants.ciphertext_fragment_contribution_layout
layout Kind.prepared_record_leaf_v3 = Prepare.prepared_record_leaf_v3_layout
layout Kind.new_guardian_prepared_ack = Prepare.new_guardian_prepared_ack_layout
layout Kind.old_guardian_handoff_ack = Prepare.old_guardian_handoff_ack_layout
layout Kind.rotation_ready_certificate = Prepare.rotation_ready_certificate_layout
layout Kind.signer_rotation_activate_vote = Activate.signer_rotation_activate_vote_layout
layout Kind.rotation_activate_certificate = Activate.rotation_activate_certificate_layout
layout Kind.witness_activation_ack = Activate.witness_activation_ack_layout
layout Kind.witness_rotation_cancel_ack = Activate.witness_rotation_cancel_ack_layout
layout Kind.epoch_activation_qc = Activate.epoch_activation_qc_layout
layout Kind.epoch_read_challenge = Activate.epoch_read_challenge_layout
layout Kind.witness_epoch_read_response = Activate.witness_epoch_read_response_layout
layout Kind.retirement_notice = Retire.retirement_notice_layout
layout Kind.retirement_ack = Retire.retirement_ack_layout
layout Kind.abort_rotation_certificate = Retire.abort_rotation_certificate_layout
layout Kind.signer_rotation_abort_vote = Retire.signer_rotation_abort_vote_layout
layout Kind.recovery_request_v3 = Recover.recovery_request_v3_layout
layout Kind.recovery_request_digest_v3 = Recover.recovery_request_digest_v3_layout
layout Kind.recovery_authorization_share_context_v3 =
    Recover.recovery_authorization_share_context_v3_layout
layout Kind.signer_recovery_contribution_v3 = Recover.signer_recovery_contribution_v3_layout
layout Kind.begin_recovery_certificate_v3 = Recover.begin_recovery_certificate_v3_layout
layout Kind.signer_recovery_release_vote_v3 = Recover.signer_recovery_release_vote_v3_layout
layout Kind.recovery_release_certificate_v3 = Recover.recovery_release_certificate_v3_layout
layout Kind.owner_recovery_cancel_certificate_v3 =
    Recover.owner_recovery_cancel_certificate_v3_layout
layout Kind.owner_recovery_cancel_ack_v3 = Recover.owner_recovery_cancel_ack_v3_layout
layout Kind.guardian_recovery_contribution_v3 = Recover.guardian_recovery_contribution_v3_layout
layout Kind.guardian_share_context_v3 = Contexts.guardian_share_context_v3_layout
layout Kind.guardian_fragment_context_v3 = Contexts.guardian_fragment_context_v3_layout
layout Kind.descriptor_context_v3 = Contexts.descriptor_context_v3_layout
layout Kind.config_capsule_body_v3 = Contexts.config_capsule_body_v3_layout
layout Kind.guardian_policy_body_v3 = Contexts.guardian_policy_body_v3_layout
layout Kind.payload_context_v3 = Contexts.payload_context_v3_layout
layout Kind.custody_challenge = Contexts.custody_challenge_layout
layout Kind.custody_response = Contexts.custody_response_layout

-- A message writes its domain and its items, in the layout of its kind.
pub message-IsDescribed :
    (m : Message) → IsDescribed (write m) (domain_of (kind m)) (body m) (layout (kind m))
unfolding write kind domain_of body layout
message-IsDescribed (Message.guardian_roster_v3 routes) = Plan.guardian_roster_v3-IsDescribed routes
message-IsDescribed (Message.rotation_intent value) = Plan.rotation_intent-IsDescribed value
message-IsDescribed (Message.signer_rotation_intent_contribution value) =
    Plan.signer_rotation_intent_contribution-IsDescribed value
message-IsDescribed (Message.rotation_intent_share_context_v3 context intent_hash signer_id) =
    Plan.rotation_intent_share_context_v3-IsDescribed context intent_hash signer_id
message-IsDescribed (Message.rotation_plan value) = Plan.rotation_plan-IsDescribed value
message-IsDescribed (Message.signer_rotation_begin_vote value) =
    Votes.signer_rotation_begin_vote-IsDescribed value
message-IsDescribed (Message.begin_rotation_certificate value) =
    Votes.begin_rotation_certificate-IsDescribed value
message-IsDescribed (Message.owner_rotation_cancel_certificate value) =
    Votes.owner_rotation_cancel_certificate-IsDescribed value
message-IsDescribed (Message.owner_rotation_cancel_ack value) =
    Votes.owner_rotation_cancel_ack-IsDescribed value
message-IsDescribed (Message.signer_rotation_release_vote value) =
    Votes.signer_rotation_release_vote-IsDescribed value
message-IsDescribed (Message.rotation_release_certificate value) =
    Votes.rotation_release_certificate-IsDescribed value
message-IsDescribed (Message.old_share_unlock_grant value) =
    Grants.old_share_unlock_grant-IsDescribed value
message-IsDescribed (Message.old_share_unlock_grant_payload_context value fragment_key) =
    Grants.old_share_unlock_grant_payload_context-IsDescribed value fragment_key
message-IsDescribed (Message.new_share_wrap_grant value) =
    Grants.new_share_wrap_grant-IsDescribed value
message-IsDescribed (Message.new_share_wrap_grant_payload_context value fragment_key) =
    Grants.new_share_wrap_grant_payload_context-IsDescribed value fragment_key
message-IsDescribed (Message.dpss_protocol_message value) =
    Grants.dpss_protocol_message-IsDescribed value
message-IsDescribed (Message.ciphertext_fragment_contribution value) =
    Grants.ciphertext_fragment_contribution-IsDescribed value
message-IsDescribed (Message.prepared_record_leaf_v3 value) =
    Prepare.prepared_record_leaf_v3-IsDescribed value
message-IsDescribed (Message.new_guardian_prepared_ack value) =
    Prepare.new_guardian_prepared_ack-IsDescribed value
message-IsDescribed (Message.old_guardian_handoff_ack value) =
    Prepare.old_guardian_handoff_ack-IsDescribed value
message-IsDescribed (Message.rotation_ready_certificate value) =
    Prepare.rotation_ready_certificate-IsDescribed value
message-IsDescribed (Message.signer_rotation_activate_vote value) =
    Activate.signer_rotation_activate_vote-IsDescribed value
message-IsDescribed (Message.rotation_activate_certificate value) =
    Activate.rotation_activate_certificate-IsDescribed value
message-IsDescribed (Message.witness_activation_ack value) =
    Activate.witness_activation_ack-IsDescribed value
message-IsDescribed (Message.witness_rotation_cancel_ack value) =
    Activate.witness_rotation_cancel_ack-IsDescribed value
message-IsDescribed (Message.epoch_activation_qc value) =
    Activate.epoch_activation_qc-IsDescribed value
message-IsDescribed (Message.epoch_read_challenge value) =
    Activate.epoch_read_challenge-IsDescribed value
message-IsDescribed (Message.witness_epoch_read_response value) =
    Activate.witness_epoch_read_response-IsDescribed value
message-IsDescribed (Message.retirement_notice value) = Retire.retirement_notice-IsDescribed value
message-IsDescribed (Message.retirement_ack value) = Retire.retirement_ack-IsDescribed value
message-IsDescribed (Message.abort_rotation_certificate value) =
    Retire.abort_rotation_certificate-IsDescribed value
message-IsDescribed (Message.signer_rotation_abort_vote value) =
    Retire.signer_rotation_abort_vote-IsDescribed value
message-IsDescribed (Message.recovery_request_v3 value) =
    Recover.recovery_request_v3-IsDescribed value
message-IsDescribed (Message.recovery_request_digest_v3 value) =
    Recover.recovery_request_digest_v3-IsDescribed value
message-IsDescribed (Message.recovery_authorization_share_context_v3 request signer_id) =
    Recover.recovery_authorization_share_context_v3-IsDescribed request signer_id
message-IsDescribed (Message.signer_recovery_contribution_v3 value) =
    Recover.signer_recovery_contribution_v3-IsDescribed value
message-IsDescribed (Message.begin_recovery_certificate_v3 value) =
    Recover.begin_recovery_certificate_v3-IsDescribed value
message-IsDescribed (Message.signer_recovery_release_vote_v3 value) =
    Recover.signer_recovery_release_vote_v3-IsDescribed value
message-IsDescribed (Message.recovery_release_certificate_v3 value) =
    Recover.recovery_release_certificate_v3-IsDescribed value
message-IsDescribed (Message.owner_recovery_cancel_certificate_v3 value) =
    Recover.owner_recovery_cancel_certificate_v3-IsDescribed value
message-IsDescribed (Message.owner_recovery_cancel_ack_v3 value) =
    Recover.owner_recovery_cancel_ack_v3-IsDescribed value
message-IsDescribed (Message.guardian_recovery_contribution_v3 value) =
    Recover.guardian_recovery_contribution_v3-IsDescribed value
message-IsDescribed (Message.guardian_share_context_v3 config_ref guardian_index) =
    Contexts.guardian_share_context_v3-IsDescribed config_ref guardian_index
message-IsDescribed
      (Message.guardian_fragment_context_v3 config_ref guardian_index fragment_index) =
    Contexts.guardian_fragment_context_v3-IsDescribed config_ref guardian_index fragment_index
message-IsDescribed (Message.descriptor_context_v3 config_ref) =
    Contexts.descriptor_context_v3-IsDescribed config_ref
message-IsDescribed (Message.config_capsule_body_v3 value) =
    Contexts.config_capsule_body_v3-IsDescribed value
message-IsDescribed (Message.guardian_policy_body_v3 value) =
    Contexts.guardian_policy_body_v3-IsDescribed value
message-IsDescribed (Message.payload_context_v3 config_id payload_generation) =
    Contexts.payload_context_v3-IsDescribed config_id payload_generation
message-IsDescribed (Message.custody_challenge value) = Contexts.custody_challenge-IsDescribed value
message-IsDescribed (Message.custody_response value) = Contexts.custody_response-IsDescribed value
