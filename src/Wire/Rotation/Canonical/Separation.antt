-- ===== src/Wire/Rotation/Canonical/Separation.antt =====
-- Domain separation within protocol v3 and from protocol v2, and what the bytes of a message determine.
use master_recovery.Prelude.{ℕ, ◌≡◌, refl, sym, ap, ◌∙◌, if◌then◌else◌, List, [], ◌∷◌, arith, ok}
use master_recovery.Types.Basic.{Bytes}
use master_recovery.Wire.Bytes.{same_bytes}
use master_recovery.Wire.Fields.{encode, block-inj}
use master_recovery.Wire.Canonical as V2
use master_recovery.Wire.Encoding.Kinds.{write-encode}
use master_recovery.Wire.Encoding.Separation.{WordsFit, all_fit}
use master_recovery.Wire.Rotation.Items.{flatten, items-inj}
use master_recovery.Wire.Rotation.Canonical.{Kind, Message, kind, write, domain_of}
use master_recovery.Wire.Rotation.Canonical.Body.{body, layout, message-IsDescribed}

find_kind : Bytes → List Kind → Kind
find_kind bytes [] = Kind.rotation_plan
find_kind bytes (k ∷ ks) = if same_bytes bytes (domain_of k) then k else find_kind bytes ks

-- The kind with this domain.
kind_of : Bytes → Kind
kind_of bytes = find_kind bytes (
    Kind.guardian_roster_v3 ∷ Kind.rotation_intent ∷ Kind.signer_rotation_intent_contribution
    ∷ Kind.rotation_intent_share_context_v3 ∷ Kind.rotation_plan ∷ Kind.signer_rotation_begin_vote
    ∷ Kind.begin_rotation_certificate ∷ Kind.owner_rotation_cancel_certificate
    ∷ Kind.owner_rotation_cancel_ack ∷ Kind.signer_rotation_release_vote
    ∷ Kind.rotation_release_certificate ∷ Kind.old_share_unlock_grant
    ∷ Kind.old_share_unlock_grant_payload_context ∷ Kind.new_share_wrap_grant
    ∷ Kind.new_share_wrap_grant_payload_context ∷ Kind.dpss_protocol_message
    ∷ Kind.ciphertext_fragment_contribution ∷ Kind.prepared_record_leaf_v3
    ∷ Kind.new_guardian_prepared_ack ∷ Kind.old_guardian_handoff_ack
    ∷ Kind.rotation_ready_certificate ∷ Kind.signer_rotation_activate_vote
    ∷ Kind.rotation_activate_certificate ∷ Kind.witness_activation_ack
    ∷ Kind.witness_rotation_cancel_ack ∷ Kind.epoch_activation_qc ∷ Kind.epoch_read_challenge
    ∷ Kind.witness_epoch_read_response ∷ Kind.retirement_notice ∷ Kind.retirement_ack
    ∷ Kind.abort_rotation_certificate ∷ Kind.signer_rotation_abort_vote ∷ Kind.recovery_request_v3
    ∷ Kind.recovery_request_digest_v3 ∷ Kind.recovery_authorization_share_context_v3
    ∷ Kind.signer_recovery_contribution_v3 ∷ Kind.begin_recovery_certificate_v3
    ∷ Kind.signer_recovery_release_vote_v3 ∷ Kind.recovery_release_certificate_v3
    ∷ Kind.owner_recovery_cancel_certificate_v3 ∷ Kind.owner_recovery_cancel_ack_v3
    ∷ Kind.guardian_recovery_contribution_v3 ∷ Kind.guardian_share_context_v3
    ∷ Kind.guardian_fragment_context_v3 ∷ Kind.descriptor_context_v3 ∷ Kind.config_capsule_body_v3
    ∷ Kind.guardian_policy_body_v3 ∷ Kind.payload_context_v3 ∷ Kind.custody_challenge
    ∷ Kind.custody_response ∷ [])

kind_of-domain_of : (k : Kind) → kind_of (domain_of k) ≡ k
unfolding kind_of find_kind same_bytes domain_of
kind_of-domain_of Kind.guardian_roster_v3 = refl
kind_of-domain_of Kind.rotation_intent = refl
kind_of-domain_of Kind.signer_rotation_intent_contribution = refl
kind_of-domain_of Kind.rotation_intent_share_context_v3 = refl
kind_of-domain_of Kind.rotation_plan = refl
kind_of-domain_of Kind.signer_rotation_begin_vote = refl
kind_of-domain_of Kind.begin_rotation_certificate = refl
kind_of-domain_of Kind.owner_rotation_cancel_certificate = refl
kind_of-domain_of Kind.owner_rotation_cancel_ack = refl
kind_of-domain_of Kind.signer_rotation_release_vote = refl
kind_of-domain_of Kind.rotation_release_certificate = refl
kind_of-domain_of Kind.old_share_unlock_grant = refl
kind_of-domain_of Kind.old_share_unlock_grant_payload_context = refl
kind_of-domain_of Kind.new_share_wrap_grant = refl
kind_of-domain_of Kind.new_share_wrap_grant_payload_context = refl
kind_of-domain_of Kind.dpss_protocol_message = refl
kind_of-domain_of Kind.ciphertext_fragment_contribution = refl
kind_of-domain_of Kind.prepared_record_leaf_v3 = refl
kind_of-domain_of Kind.new_guardian_prepared_ack = refl
kind_of-domain_of Kind.old_guardian_handoff_ack = refl
kind_of-domain_of Kind.rotation_ready_certificate = refl
kind_of-domain_of Kind.signer_rotation_activate_vote = refl
kind_of-domain_of Kind.rotation_activate_certificate = refl
kind_of-domain_of Kind.witness_activation_ack = refl
kind_of-domain_of Kind.witness_rotation_cancel_ack = refl
kind_of-domain_of Kind.epoch_activation_qc = refl
kind_of-domain_of Kind.epoch_read_challenge = refl
kind_of-domain_of Kind.witness_epoch_read_response = refl
kind_of-domain_of Kind.retirement_notice = refl
kind_of-domain_of Kind.retirement_ack = refl
kind_of-domain_of Kind.abort_rotation_certificate = refl
kind_of-domain_of Kind.signer_rotation_abort_vote = refl
kind_of-domain_of Kind.recovery_request_v3 = refl
kind_of-domain_of Kind.recovery_request_digest_v3 = refl
kind_of-domain_of Kind.recovery_authorization_share_context_v3 = refl
kind_of-domain_of Kind.signer_recovery_contribution_v3 = refl
kind_of-domain_of Kind.begin_recovery_certificate_v3 = refl
kind_of-domain_of Kind.signer_recovery_release_vote_v3 = refl
kind_of-domain_of Kind.recovery_release_certificate_v3 = refl
kind_of-domain_of Kind.owner_recovery_cancel_certificate_v3 = refl
kind_of-domain_of Kind.owner_recovery_cancel_ack_v3 = refl
kind_of-domain_of Kind.guardian_recovery_contribution_v3 = refl
kind_of-domain_of Kind.guardian_share_context_v3 = refl
kind_of-domain_of Kind.guardian_fragment_context_v3 = refl
kind_of-domain_of Kind.descriptor_context_v3 = refl
kind_of-domain_of Kind.config_capsule_body_v3 = refl
kind_of-domain_of Kind.guardian_policy_body_v3 = refl
kind_of-domain_of Kind.payload_context_v3 = refl
kind_of-domain_of Kind.custody_challenge = refl
kind_of-domain_of Kind.custody_response = refl

-- The domains of the two messages with the same bytes, and the bytes after them.
parts :
    (m n : Message) (t : Bytes)
    → write m ≡ ok t
    → write n ≡ ok t
    → (domain_of (kind m) ≡ domain_of (kind n))
      × (encode (flatten (body m)) ≡ encode (flatten (body n)))
unfolding encode
parts m n t hm hn =
    let (em, fm) = (message-IsDescribed m).writes t hm in
    let (en, fn) = (message-IsDescribed n).writes t hn in
    block-inj (domain_of (kind m)) (domain_of (kind n)) (encode (flatten (body m)))
      (encode (flatten (body n))) (omega (arith, fm.0)) (omega (arith, fn.0)) (sym em ∙ en)

-- Two messages of protocol v3 that are written as the same bytes are of one kind.
pub v3_kinds_separated :
    (m n : Message) (t : Bytes) → write m ≡ ok t → write n ≡ ok t → kind m ≡ kind n
v3_kinds_separated m n t hm hn =
    sym (kind_of-domain_of (kind m)) ∙ ap kind_of (parts m n t hm hn).0 ∙ kind_of-domain_of (kind n)

-- Two messages of protocol v3 that are written as the same bytes, and whose words are in the range of
-- their types, have the same items: fields, and rows of fields.
pub v3_bytes_determine :
    (m n : Message) (t : Bytes)
    → WordsFit (flatten (body m))
    → WordsFit (flatten (body n))
    → write m ≡ ok t
    → write n ≡ ok t
    → body m ≡ body n
v3_bytes_determine m n t wm wn hm hn =
    let dm = message-IsDescribed m in
    let dn = message-IsDescribed n in
    let same = v3_kinds_separated m n t hm hn in
    items-inj (layout (kind m)) (body m) (body n) dm.laid_out (rw same dn.laid_out)
      (all_fit (flatten (body m)) wm (dm.writes t hm).1.1)
      (all_fit (flatten (body n)) wn (dn.writes t hn).1.1) (parts m n t hm hn).1

last : ℕ → Bytes → ℕ
last d [] = d
last d (b ∷ bs) = last b bs

version_one : (k : V2.Kind) → last 0 (V2.domain_of k) ≡ 49
unfolding last V2.domain_of
version_one V2.Kind.recovery_request = refl
version_one V2.Kind.signer_approval = refl
version_one V2.Kind.signer_leaf = refl
version_one V2.Kind.request_digest_preimage = refl
version_one V2.Kind.descriptor_context = refl
version_one V2.Kind.recipient_share_context = refl
version_one V2.Kind.guardian_release_context = refl
version_one V2.Kind.owner_cancel = refl
version_one V2.Kind.owner_cancel_ack = refl
version_one V2.Kind.release_vote = refl
version_one V2.Kind.guardian_contribution = refl
version_one V2.Kind.guardian_leaf = refl
version_one V2.Kind.guardian_share_context = refl
version_one V2.Kind.payload_context = refl
version_one V2.Kind.node_provision_context = refl
version_one V2.Kind.mailbox_transport_context = refl

version_three : (k : Kind) → last 0 (domain_of k) ≡ 51
unfolding last domain_of
version_three Kind.guardian_roster_v3 = refl
version_three Kind.rotation_intent = refl
version_three Kind.signer_rotation_intent_contribution = refl
version_three Kind.rotation_intent_share_context_v3 = refl
version_three Kind.rotation_plan = refl
version_three Kind.signer_rotation_begin_vote = refl
version_three Kind.begin_rotation_certificate = refl
version_three Kind.owner_rotation_cancel_certificate = refl
version_three Kind.owner_rotation_cancel_ack = refl
version_three Kind.signer_rotation_release_vote = refl
version_three Kind.rotation_release_certificate = refl
version_three Kind.old_share_unlock_grant = refl
version_three Kind.old_share_unlock_grant_payload_context = refl
version_three Kind.new_share_wrap_grant = refl
version_three Kind.new_share_wrap_grant_payload_context = refl
version_three Kind.dpss_protocol_message = refl
version_three Kind.ciphertext_fragment_contribution = refl
version_three Kind.prepared_record_leaf_v3 = refl
version_three Kind.new_guardian_prepared_ack = refl
version_three Kind.old_guardian_handoff_ack = refl
version_three Kind.rotation_ready_certificate = refl
version_three Kind.signer_rotation_activate_vote = refl
version_three Kind.rotation_activate_certificate = refl
version_three Kind.witness_activation_ack = refl
version_three Kind.witness_rotation_cancel_ack = refl
version_three Kind.epoch_activation_qc = refl
version_three Kind.epoch_read_challenge = refl
version_three Kind.witness_epoch_read_response = refl
version_three Kind.retirement_notice = refl
version_three Kind.retirement_ack = refl
version_three Kind.abort_rotation_certificate = refl
version_three Kind.signer_rotation_abort_vote = refl
version_three Kind.recovery_request_v3 = refl
version_three Kind.recovery_request_digest_v3 = refl
version_three Kind.recovery_authorization_share_context_v3 = refl
version_three Kind.signer_recovery_contribution_v3 = refl
version_three Kind.begin_recovery_certificate_v3 = refl
version_three Kind.signer_recovery_release_vote_v3 = refl
version_three Kind.recovery_release_certificate_v3 = refl
version_three Kind.owner_recovery_cancel_certificate_v3 = refl
version_three Kind.owner_recovery_cancel_ack_v3 = refl
version_three Kind.guardian_recovery_contribution_v3 = refl
version_three Kind.guardian_share_context_v3 = refl
version_three Kind.guardian_fragment_context_v3 = refl
version_three Kind.descriptor_context_v3 = refl
version_three Kind.config_capsule_body_v3 = refl
version_three Kind.guardian_policy_body_v3 = refl
version_three Kind.payload_context_v3 = refl
version_three Kind.custody_challenge = refl
version_three Kind.custody_response = refl

-- No bytes are both a message of protocol v2 and one of protocol v3.
pub versions_separated :
    (m : V2.Message) (n : Message) (t : Bytes) → V2.write m ≡ ok t → ¬ (write n ≡ ok t)
unfolding encode
versions_separated m n t hm hn =
    let (em, fm) = write-encode m t hm in
    let (en, fn) = (message-IsDescribed n).writes t hn in
    let (domains, rest) =
      block-inj (V2.domain_of (V2.kind m)) (domain_of (kind n)) (encode (V2.body m))
        (encode (flatten (body n))) (omega (arith, fm.0)) (omega (arith, fn.0)) (sym em ∙ en) in
    let digits : 49 ≡ 51 =
      sym (version_one (V2.kind m)) ∙ ap (last 0) domains ∙ version_three (kind n) in
    absurd (omega (arith, digits))
