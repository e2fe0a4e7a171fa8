-- ===== src/Wire/Tests.antt =====
-- Concrete frames and transcripts, after the tests of crates/gp-wire/src/lib.rs.
mod Rotation
use master_recovery.Prelude.{ℕ, ◌≤◌, ◌≡◌, ◌↔◌, refl, true, [], ◌∷◌, arith, length, ok, err, is_ok}
use master_recovery.Types.Basic.{Bytes, SealedMessage, x_wing_x_cha_cha20_poly1305_ed25519}
use master_recovery.Types.Recovery.{RecoveryRequest, OwnerCancelCertificate}
use master_recovery.Wire.Bytes.{ascii, to_be_bytes, from_be_bytes}
use master_recovery.Wire.Frame.{max_field_len, frame, get_prefix, deframe, invalid_frame}
use master_recovery.Wire.Frame.RoundTrip.{frame_iff_deframe, truncated_frame_refused}
use master_recovery.Wire.Transcript.{domain, u16, u64, nested}
use master_recovery.Wire.Fields.{block, encode_field, encode}
use master_recovery.Wire.Messages
use master_recovery.Wire.Canonical.{Kind, Message, kind, write, body, domain_of, request_fields}
use master_recovery.Wire.Encoding.Separation.{kinds_separated, bytes_determine_fields}
use master_recovery.Wire.Encoding.Binding.{
  IsRequest, request_bytes_determine, approval_bytes_determine, IsCertificate,
  cancel_bytes_determine,
}
use master_recovery.Wire.Encoding.Total.{request_written_iff}

abbrev hello : Bytes
hello = ascii "hello"

frames_hello : frame hello ≡ ok (0 ∷ 0 ∷ 0 ∷ 5 ∷ hello)
unfolding frame to_be_bytes
frames_hello = refl

deframes_hello : deframe (0 ∷ 0 ∷ 0 ∷ 5 ∷ hello) ≡ ok hello
unfolding deframe get_prefix from_be_bytes
deframes_hello = refl

frame_iff_deframe_example :
    (frame hello ≡ ok (0 ∷ 0 ∷ 0 ∷ 5 ∷ hello)) ↔ (deframe (0 ∷ 0 ∷ 0 ∷ 5 ∷ hello) ≡ ok hello)
frame_iff_deframe_example = frame_iff_deframe hello (0 ∷ 0 ∷ 0 ∷ 5 ∷ hello) (ground arith)

truncated_hello_is_refused : deframe (0 ∷ 0 ∷ 0 ∷ 5 ∷ 104 ∷ []) ≡ err invalid_frame
truncated_hello_is_refused =
    truncated_frame_refused hello (0 ∷ 0 ∷ 0 ∷ 5 ∷ hello) 5 frames_hello (omega arith)

abbrev request : RecoveryRequest
request = record {
  protocol_version = 2;
  crypto_suite = x_wing_x_cha_cha20_poly1305_ed25519;
  config_id = 1;
  config_version = 3;
  request_id = 2;
  recovery_recipient_key = 4 ∷ 5 ∷ [];
  requested_at = 10;
  nonce = 3;
  expiry = 1000;
}

request-IsRequest : IsRequest request
request-IsRequest = record {
  protocol_version = omega arith;
  config_id = omega arith;
  config_version = omega arith;
  request_id = omega arith;
  requested_at = omega arith;
  nonce = omega arith;
  expiry = omega arith;
}

abbrev request_bytes : Bytes
request_bytes =
    encode (block (domain_of Kind.recovery_request) ∷ body (Message.recovery_request request))

request_runs : write (Message.recovery_request request) ≡ ok request_bytes
unfolding write Messages.recovery_request encode encode_field body domain_of to_be_bytes domain u16
    u64
request_runs = refl

request_runs_alone : Messages.recovery_request request ≡ ok request_bytes
unfolding write
request_runs_alone = request_runs

kinds_separated_example :
    kind (Message.recovery_request request) ≡ kind (Message.recovery_request request)
kinds_separated_example =
    kinds_separated (Message.recovery_request request) (Message.recovery_request request)
      request_bytes request_runs request_runs

bytes_determine_fields_example :
    body (Message.recovery_request request) ≡ body (Message.recovery_request request)
unfolding body Messages.suite_id
bytes_determine_fields_example =
    bytes_determine_fields (Message.recovery_request request) (Message.recovery_request request)
      request_bytes (ground arith) (ground arith) request_runs request_runs

request_is_determined : request ≡ request
request_is_determined =
    request_bytes_determine request request request_bytes request-IsRequest request-IsRequest
      request_runs_alone request_runs_alone

abbrev signer : ℕ
signer = 1

abbrev share : SealedMessage
share = record { kem_ciphertext = 7 ∷ []; payload = record { nonce = 8 ∷ []; ciphertext = 9 ∷ [] } }

abbrev approval_bytes : Bytes
approval_bytes =
    encode (block (domain_of Kind.signer_approval) ∷ body (Message.signer_approval request 1 share))

approval_runs : Messages.signer_approval request 1 share ≡ ok approval_bytes
unfolding Messages.signer_approval Messages.recovery_request encode encode_field body domain_of
    request_fields to_be_bytes domain u16 u64 nested
approval_runs = refl

approval_bytes_determine_example : (request ≡ request) × (signer ≡ signer) × (share ≡ share)
approval_bytes_determine_example =
    approval_bytes_determine request request signer signer share share approval_bytes
      request-IsRequest request-IsRequest (omega arith) (omega arith) approval_runs approval_runs

abbrev certificate : OwnerCancelCertificate
certificate = record {
  protocol_version = 2;
  config_id = 1;
  config_version = 3;
  request_id = 2;
  request_digest = 5;
  recovery_recipient_key = 4 ∷ 5 ∷ [];
  cancel_response_recipient_key = 6 ∷ [];
  reason_code = 1;
  nonce = 9;
  issued_at = 20;
  owner_cancel_public_key = 11;
  owner_signature = 12 ∷ [];
}

certificate-IsCertificate : IsCertificate certificate
certificate-IsCertificate = record {
  protocol_version = omega arith;
  config_id = omega arith;
  config_version = omega arith;
  request_id = omega arith;
  request_digest = omega arith;
  reason_code = omega arith;
  nonce = omega arith;
  issued_at = omega arith;
  owner_cancel_public_key = omega arith;
}

abbrev certificate_bytes : Bytes
certificate_bytes =
    encode (block (domain_of Kind.owner_cancel) ∷ body (Message.owner_cancel certificate))

certificate_runs : Messages.owner_cancel certificate ≡ ok certificate_bytes
unfolding Messages.owner_cancel encode encode_field body domain_of to_be_bytes domain u16 u64
certificate_runs = refl

cancel_bytes_determine_holds : certificate ≡ certificate
cancel_bytes_determine_holds =
    cancel_bytes_determine certificate certificate certificate_bytes certificate-IsCertificate
      certificate-IsCertificate certificate_runs certificate_runs refl

request_written_iff_holds :
    (is_ok (Messages.recovery_request request) ≡ true)
    ↔ (length request.recovery_recipient_key ≤ max_field_len)
request_written_iff_holds = request_written_iff request
