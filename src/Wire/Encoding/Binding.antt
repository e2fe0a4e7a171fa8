-- ===== src/Wire/Encoding/Binding.antt =====
-- The transcripts of a request, an owner's cancellation and an approval determine what they bind.
use master_recovery.Prelude.{ℕ, ◌^◌, ◌<◌, ◌≡◌, refl, sym, ◌∙◌, [], arith, Result, ok, err, ok-bind}
use master_recovery.Types.Basic.{
  Bytes, Id32, SealedMessage, CryptoSuite, x_wing_x_cha_cha20_poly1305_ed25519,
}
use master_recovery.Types.Recovery.{RecoveryRequest, OwnerCancelCertificate}
use master_recovery.Wire.Bytes.{ascii, to_be_bytes-injective}
use master_recovery.Wire.Transcript.{Writer, ◌>>◌, bytes, domain, u16, id_bytes, nested}
use master_recovery.Wire.Frame.{WireError}
use master_recovery.Wire.Fields.{encode}
use master_recovery.Wire.Messages.{suite_id}
use master_recovery.Wire.Messages
use master_recovery.Wire.Canonical.{Message, write, body, request_fields}
use master_recovery.Wire.Encoding.{recovery_request-encode}
use master_recovery.Wire.Encoding.Separation.{bytes_determine_fields, WordsFit}

-- The fields of a request are in the range of their types.
pub record IsRequest (r : RecoveryRequest) : Type 0 where
  pub protocol_version : r.protocol_version < 256 ^ 2
  pub config_id : r.config_id < 256 ^ 32
  pub config_version : r.config_version < 256 ^ 8
  pub request_id : r.request_id < 256 ^ 32
  pub requested_at : r.requested_at < 256 ^ 8
  pub nonce : r.nonce < 256 ^ 32
  pub expiry : r.expiry < 256 ^ 8

suite_one : (s t : CryptoSuite) → s ≡ t
suite_one x_wing_x_cha_cha20_poly1305_ed25519 x_wing_x_cha_cha20_poly1305_ed25519 = refl

suite_fits : (s : CryptoSuite) → suite_id s < 256 ^ 2
unfolding suite_id
suite_fits x_wing_x_cha_cha20_poly1305_ed25519 = omega arith

request-WordsFit :
    (r : RecoveryRequest) → IsRequest r → WordsFit (body (Message.recovery_request r))
unfolding body
request-WordsFit r h = (
  h.protocol_version,
  (
    suite_fits r.crypto_suite,
    (tt, (h.config_version, (tt, (tt, (h.requested_at, (tt, (h.expiry, tt))))))),
  ),
)

same_id : (a b : Id32) → a < 256 ^ 32 → b < 256 ^ 32 → id_bytes a ≡ id_bytes b → a ≡ b
same_id a b ha hb e = to_be_bytes-injective 32 a b ha hb e

request-fields :
    (r s : RecoveryRequest)
    → IsRequest r
    → IsRequest s
    → body (Message.recovery_request r) ≡ body (Message.recovery_request s)
    → r ≡ s
unfolding body
request-fields r s hr hs e =
    let config = same_id r.config_id s.config_id hr.config_id hs.config_id (cc e) in
    let request = same_id r.request_id s.request_id hr.request_id hs.request_id (cc e) in
    let nonce = same_id r.nonce s.nonce hr.nonce hs.nonce (cc e) in
    let suite = suite_one r.crypto_suite s.crypto_suite in cc (e, config, request, nonce, suite)

-- Two requests in range with the same canonical bytes are the same request.
pub request_bytes_determine :
    (r s : RecoveryRequest) (t : Bytes)
    → IsRequest r
    → IsRequest s
    → Messages.recovery_request r ≡ ok t
    → Messages.recovery_request s ≡ ok t
    → r ≡ s
unfolding write
request_bytes_determine r s t hr hs er es = request-fields r s hr hs (
    bytes_determine_fields (Message.recovery_request r) (Message.recovery_request s) t
      (request-WordsFit r hr) (request-WordsFit s hs) er es)

nested-ok :
    (w : Result WireError Bytes) (out t : Bytes) → nested w out ≡ ok t → (u : Bytes) × (w ≡ ok u)
unfolding nested
nested-ok (ok u) out t h = (u, refl)
nested-ok (err e) out t h = absurd (cc h)

approval-request :
    (r : RecoveryRequest) (i : ℕ) (m : SealedMessage) (t : Bytes)
    → Messages.signer_approval r i m ≡ ok t
    → (u : Bytes) × (Messages.recovery_request r ≡ ok u)
unfolding Messages.signer_approval
approval-request r i m t h =
    let rest : Writer =
      nested (Messages.recovery_request r)
      >> u16 i
      >> bytes m.kem_ciphertext
      >> bytes m.payload.nonce
      >> bytes m.payload.ciphertext in
    let (a, ea, ha) = ok-bind (domain (ascii "gp/signer-approval/v1") []) rest t h in
    let (b, eb, hb) =
      ok-bind (nested (Messages.recovery_request r) a)
        (u16 i >> bytes m.kem_ciphertext >> bytes m.payload.nonce >> bytes m.payload.ciphertext) t
        ha in
    nested-ok (Messages.recovery_request r) a b eb

-- Two approvals in range that are written as the same bytes are of one request, one signer and one
-- encrypted share.
pub approval_bytes_determine :
    (r s : RecoveryRequest) (i j : ℕ) (m n : SealedMessage) (t : Bytes)
    → IsRequest r
    → IsRequest s
    → i < 256 ^ 2
    → j < 256 ^ 2
    → Messages.signer_approval r i m ≡ ok t
    → Messages.signer_approval s j n ≡ ok t
    → (r ≡ s) × (i ≡ j) × (m ≡ n)
unfolding write body
approval_bytes_determine r s i j m n t hr hs hi hj er es =
    let (u, eu) = approval-request r i m t er in
    let (v, ev) = approval-request s j n t es in
    let fields =
      bytes_determine_fields (Message.signer_approval r i m) (Message.signer_approval s j n) t
        (tt, (hi, (tt, (tt, (tt, tt))))) (tt, (hj, (tt, (tt, (tt, tt))))) er es in
    let inner : encode (request_fields r) ≡ encode (request_fields s) = cc fields in
    let bytes : u ≡ v =
      (recovery_request-encode r u eu).0 ∙ inner ∙ sym (recovery_request-encode s v ev).0 in
    (request_bytes_determine r s u hr hs eu (rw bytes ev), cc fields, cc fields)

-- The fields of a cancellation are in the range of their types.
pub record IsCertificate (c : OwnerCancelCertificate) : Type 0 where
  pub protocol_version : c.protocol_version < 256 ^ 2
  pub config_id : c.config_id < 256 ^ 32
  pub config_version : c.config_version < 256 ^ 8
  pub request_id : c.request_id < 256 ^ 32
  pub request_digest : c.request_digest < 256 ^ 32
  pub reason_code : c.reason_code < 256 ^ 2
  pub nonce : c.nonce < 256 ^ 32
  pub issued_at : c.issued_at < 256 ^ 8
  pub owner_cancel_public_key : c.owner_cancel_public_key < 256 ^ 32

-- Two cancellations in range that are written as the same bytes, and have one signature, are the
-- same.
pub cancel_bytes_determine :
    (c d : OwnerCancelCertificate) (t : Bytes)
    → IsCertificate c
    → IsCertificate d
    → Messages.owner_cancel c ≡ ok t
    → Messages.owner_cancel d ≡ ok t
    → c.owner_signature ≡ d.owner_signature
    → c ≡ d
unfolding write body
cancel_bytes_determine c d t hc hd ec ed signature =
    let fields =
      bytes_determine_fields (Message.owner_cancel c) (Message.owner_cancel d) t
        (
          hc.protocol_version,
          (
            tt,
            (
              hc.config_version,
              (tt, (tt, (tt, (tt, (hc.reason_code, (tt, (hc.issued_at, (tt, tt)))))))),
            ),
          ),
        )
        (
          hd.protocol_version,
          (
            tt,
            (
              hd.config_version,
              (tt, (tt, (tt, (tt, (hd.reason_code, (tt, (hd.issued_at, (tt, tt)))))))),
            ),
          ),
        )
        ec ed in
    let config = same_id c.config_id d.config_id hc.config_id hd.config_id (cc fields) in
    let request = same_id c.request_id d.request_id hc.request_id hd.request_id (cc fields) in
    let digest =
      same_id c.request_digest d.request_digest hc.request_digest hd.request_digest (cc fields) in
    let nonce = same_id c.nonce d.nonce hc.nonce hd.nonce (cc fields) in
    let key =
      same_id c.owner_cancel_public_key d.owner_cancel_public_key hc.owner_cancel_public_key
        hd.owner_cancel_public_key (cc fields) in
    cc (fields, config, request, digest, nonce, key, signature)
