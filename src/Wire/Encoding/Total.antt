-- ===== src/Wire/Encoding/Total.antt =====
-- A request is written unless its recipient key is over the bound on a field.
use master_recovery.Prelude.{
  ℕ, ◌≤◌, ◌≡◌, refl, ap, ◌↔◌, [], ◌++◌, arith, length, Result, ok, is_ok, true, Result-cases, inl,
  inr, ◌>>=◌ as bind, ◌∙◌,
}
use master_recovery.Types.Basic.{Bytes, Id32}
use master_recovery.Types.Recovery.{RecoveryRequest}
use master_recovery.Wire.Bytes.{ascii, to_be_bytes, length-to_be_bytes}
use master_recovery.Wire.Frame.{max_field_len, WireError}
use master_recovery.Wire.Transcript.{Writer, ◌>>◌, bytes, domain, u16, u64, id_bytes, transcript}
use master_recovery.Wire.Canonical.{request_fields}
use master_recovery.Wire.Encoding.{recovery_request-encode}
use master_recovery.Wire.Messages
use master_recovery.Wire.Messages.{suite_id}

-- A writer that never fails.
record IsTotal (w : Writer) : Type 0 where
  runs : (out : Bytes) → (u : Bytes) × (w out ≡ ok u)

bytes-IsTotal : (b : Bytes) → length b ≤ max_field_len → IsTotal (bytes b)
unfolding bytes
bytes-IsTotal b h = record { runs = λ out. ((out ++ to_be_bytes 4 (length b)) ++ b, ground arith) }

id-IsTotal : (id : Id32) → IsTotal (bytes (id_bytes id))
id-IsTotal id = bytes-IsTotal (id_bytes id) (omega (arith, length-to_be_bytes 32 id))

u16-IsTotal : (n : ℕ) → IsTotal (u16 n)
unfolding u16
u16-IsTotal n = record { runs = λ out. (out ++ to_be_bytes 2 n, refl) }

u64-IsTotal : (n : ℕ) → IsTotal (u64 n)
unfolding u64
u64-IsTotal n = record { runs = λ out. (out ++ to_be_bytes 8 n, refl) }

infixr 5 ◌⊕◌
◌⊕◌ : {w v : Writer} → IsTotal w → IsTotal v → IsTotal (w >> v)
◌⊕◌ {w} {v} hw hv = record {
  runs = λ out.
      let (u, eu) = hw.runs out in
      let (t, et) = hv.runs u in (t, ap (λ (r : Result WireError Bytes). bind r v) eu ∙ et);
}

domain-IsTotal : (b : Bytes) → length b ≤ max_field_len → IsTotal (domain b)
unfolding domain
domain-IsTotal b h = bytes-IsTotal b h

finished : {w : Writer} → IsTotal w → is_ok (transcript w) ≡ true
finished h = let (u, e) = h.runs [] in ap is_ok e

request-written :
    (r : RecoveryRequest)
    → length r.recovery_recipient_key ≤ max_field_len
    → is_ok (Messages.recovery_request r) ≡ true
unfolding Messages.recovery_request
request-written r h = finished (
    domain-IsTotal (ascii "gp/recovery-request/v1") (omega arith)
    ⊕ u16-IsTotal r.protocol_version
    ⊕ u16-IsTotal (suite_id r.crypto_suite)
    ⊕ id-IsTotal r.config_id
    ⊕ u64-IsTotal r.config_version
    ⊕ id-IsTotal r.request_id
    ⊕ bytes-IsTotal r.recovery_recipient_key h
    ⊕ u64-IsTotal r.requested_at
    ⊕ id-IsTotal r.nonce
    ⊕ u64-IsTotal r.expiry)

written-request :
    (r : RecoveryRequest)
    → is_ok (Messages.recovery_request r) ≡ true
    → length r.recovery_recipient_key ≤ max_field_len
unfolding request_fields
written-request r h = elim (Result-cases (Messages.recovery_request r)) [
  | inl (t, e) ↦ (recovery_request-encode r t e).1.1.1.1.1.1.1.0
  | inr (e, f) ↦ absurd (cc (h, f))
]

-- A request is written exactly when its recipient key is not over the bound on a field.
pub request_written_iff :
    (r : RecoveryRequest)
    → (is_ok (Messages.recovery_request r) ≡ true)
      ↔ (length r.recovery_recipient_key ≤ max_field_len)
request_written_iff r = (written-request r, request-written r)
