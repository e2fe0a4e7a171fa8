-- ===== src/Wire/Encoding/Separation.antt =====
-- Domain separation, and what the bytes of a message determine.
use master_recovery.Prelude.{
  ◌^◌, ◌<◌, ◌≡◌, refl, sym, ap, ◌∙◌, if◌then◌else◌, List, [], ◌∷◌, arith, ok,
}
use master_recovery.Wire.Bytes.{same_bytes}
use master_recovery.Types.Basic.{Bytes}
use master_recovery.Wire.Fields.{
  Field, word, block, shapes, encode, AllFit, block-inj, encode-injective,
}
use master_recovery.Wire.Canonical.{Message, Kind, kind, write, domain_of, body, layout}
use master_recovery.Wire.Encoding.{BlocksFit}
use master_recovery.Wire.Encoding.Kinds.{write-encode}

find_kind : Bytes → List Kind → Kind
find_kind bytes [] = Kind.recovery_request
find_kind bytes (k ∷ ks) = if same_bytes bytes (domain_of k) then k else find_kind bytes ks

-- The kind with this domain.
kind_of : Bytes → Kind
kind_of bytes = find_kind bytes (
    Kind.recovery_request ∷ Kind.signer_approval ∷ Kind.signer_leaf ∷ Kind.request_digest_preimage
    ∷ Kind.descriptor_context ∷ Kind.recipient_share_context ∷ Kind.guardian_release_context
    ∷ Kind.owner_cancel ∷ Kind.owner_cancel_ack ∷ Kind.release_vote ∷ Kind.guardian_contribution
    ∷ Kind.guardian_leaf ∷ Kind.guardian_share_context ∷ Kind.payload_context
    ∷ Kind.node_provision_context ∷ Kind.mailbox_transport_context ∷ [])

kind_of-domain_of : (k : Kind) → kind_of (domain_of k) ≡ k
unfolding kind_of find_kind same_bytes domain_of
kind_of-domain_of Kind.recovery_request = refl
kind_of-domain_of Kind.signer_approval = refl
kind_of-domain_of Kind.signer_leaf = refl
kind_of-domain_of Kind.request_digest_preimage = refl
kind_of-domain_of Kind.descriptor_context = refl
kind_of-domain_of Kind.recipient_share_context = refl
kind_of-domain_of Kind.guardian_release_context = refl
kind_of-domain_of Kind.owner_cancel = refl
kind_of-domain_of Kind.owner_cancel_ack = refl
kind_of-domain_of Kind.release_vote = refl
kind_of-domain_of Kind.guardian_contribution = refl
kind_of-domain_of Kind.guardian_leaf = refl
kind_of-domain_of Kind.guardian_share_context = refl
kind_of-domain_of Kind.payload_context = refl
kind_of-domain_of Kind.node_provision_context = refl
kind_of-domain_of Kind.mailbox_transport_context = refl

-- Two messages that are written as the same bytes are of one kind.
pub kinds_separated :
    (m n : Message) (t : Bytes) → write m ≡ ok t → write n ≡ ok t → kind m ≡ kind n
unfolding encode
kinds_separated m n t hm hn =
    let (em, fm) = write-encode m t hm in
    let (en, fn) = write-encode n t hn in
    let (domains, rest) =
      block-inj (domain_of (kind m)) (domain_of (kind n)) (encode (body m)) (encode (body n))
        (omega (arith, fm.0)) (omega (arith, fn.0)) (sym em ∙ en) in
    sym (kind_of-domain_of (kind m)) ∙ ap kind_of domains ∙ kind_of-domain_of (kind n)

-- The words of a message are in the range of their types.
abbrev pub WordFits : Field → Type 0
WordFits (word w n) = n < 256 ^ w
WordFits (block b) = Unit {0}

abbrev pub WordsFit : List Field → Type 0
WordsFit [] = Unit {0}
WordsFit (f ∷ fs) = WordFits f × WordsFit fs

pub all_fit : (fs : List Field) → WordsFit fs → BlocksFit fs → AllFit fs
all_fit [] hw hb = tt
all_fit (word w n ∷ fs) hw hb = (hw.0, all_fit fs hw.1 hb.1)
all_fit (block b ∷ fs) hw hb = (omega (arith, hb.0), all_fit fs hw.1 hb.1)

shapes-body : (m : Message) → shapes (body m) ≡ layout (kind m)
unfolding body layout kind
shapes-body (Message.recovery_request request) = refl
shapes-body (Message.signer_approval request signer_id encrypted_share) = refl
shapes-body (Message.signer_leaf signer_id public_key) = refl
shapes-body (Message.request_digest_preimage request) = refl
shapes-body (Message.descriptor_context config_id config_version) = refl
shapes-body (Message.recipient_share_context request signer_id) = refl
shapes-body (Message.guardian_release_context request guardian_index) = refl
shapes-body (Message.owner_cancel certificate) = refl
shapes-body (Message.owner_cancel_ack ack) = refl
shapes-body (Message.release_vote vote) = refl
shapes-body (Message.guardian_contribution contribution) = refl
shapes-body
      (Message.guardian_leaf config_id config_version guardian_index fragment_hash
        encrypted_share_hash) =
    refl
shapes-body (Message.guardian_share_context config_id config_version guardian_index) = refl
shapes-body (Message.payload_context config_id config_version) = refl
shapes-body (Message.node_provision_context node_id role) = refl
shapes-body (Message.mailbox_transport_context mailbox direction) = refl

-- Two messages that are written as the same bytes, and whose words are in the range of their types,
-- have the same fields.
pub bytes_determine_fields :
    (m n : Message) (t : Bytes)
    → WordsFit (body m)
    → WordsFit (body n)
    → write m ≡ ok t
    → write n ≡ ok t
    → body m ≡ body n
unfolding encode
bytes_determine_fields m n t wm wn hm hn =
    let (em, fm) = write-encode m t hm in
    let (en, fn) = write-encode n t hn in
    let (domains, rest) =
      block-inj (domain_of (kind m)) (domain_of (kind n)) (encode (body m)) (encode (body n))
        (omega (arith, fm.0)) (omega (arith, fn.0)) (sym em ∙ en) in
    encode-injective (body m) (body n) (all_fit (body m) wm fm.1) (all_fit (body n) wn fn.1)
      (shapes-body m ∙ ap layout (kinds_separated m n t hm hn) ∙ sym (shapes-body n)) rest
