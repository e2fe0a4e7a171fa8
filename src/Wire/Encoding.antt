-- ===== src/Wire/Encoding.antt =====
-- What each transcript function writes: the encoding of its domain and of the fields of its message.

pub mod Kinds
pub mod Separation
pub mod Binding
pub mod Total
use mathlib.Core.List.{append_assoc, append-nil}
use master_recovery.Prelude.{
  ℕ, ◌^◌, ◌≤◌, ◌≡◌, refl, sym, ap, ◌∙◌, List, [], ◌∷◌, ◌++◌, arith, length, ok-bind, ltb,
  if◌then◌else◌, Result, ok, err, Result-cases, inl, inr,
}
use master_recovery.Types.Basic.{Bytes}
use master_recovery.Types.Recovery.{RecoveryRequest}
use master_recovery.Wire.Bytes.{ascii, to_be_bytes}
use master_recovery.Wire.Frame.{max_field_len, WireError, u32_len}
use master_recovery.Wire.Transcript.{
  Writer, ◌>>◌, bytes, u16, u32, u64, nested, id_bytes, transcript, domain,
}
use master_recovery.Wire.Fields.{Field, word, block, encode_field, encode}
use master_recovery.Wire.Messages
use master_recovery.Wire.Messages.{suite_id}
use master_recovery.Wire.Canonical.{Message, write, domain_of, request_fields, body}

-- The blocks are within the bound on a field.
abbrev pub BlockFits : Field → Type 0
BlockFits (word w n) = Unit {0}
BlockFits (block b) = length b ≤ max_field_len

abbrev pub BlocksFit : List Field → Type 0
BlocksFit [] = Unit {0}
BlocksFit (f ∷ fs) = BlockFits f × BlocksFit fs

-- A writer that appends the encoding of these fields where it succeeds.
pub record Writes (w : Writer) (fs : List Field) : Type 0 where
  pub written : (out t : Bytes) → w out ≡ ok t → (t ≡ out ++ encode fs) × BlocksFit fs

pub bytes-Writes : (b : Bytes) → Writes (bytes b) (block b ∷ [])
unfolding bytes encode encode_field
bytes-Writes b = record {
  written = λ out t h.
      let small : length b ≤ max_field_len = ground arith in
      let shape : t ≡ (out ++ to_be_bytes 4 (length b)) ++ b = ground arith in
      (
        rw (append-nil (to_be_bytes 4 (length b) ++ b))
            (shape ∙ append_assoc out (to_be_bytes 4 (length b)) b),
        (small, tt),
      );
}

pub u16-Writes : (n : ℕ) → Writes (u16 n) (word 2 n ∷ [])
unfolding u16 encode encode_field
u16-Writes n = record {
  written = λ out t h. (rw (append-nil (to_be_bytes 2 n)) (ground arith), (tt, tt));
}

pub u64-Writes : (n : ℕ) → Writes (u64 n) (word 8 n ∷ [])
unfolding u64 encode encode_field
u64-Writes n = record {
  written = λ out t h. (rw (append-nil (to_be_bytes 8 n)) (ground arith), (tt, tt));
}

pub u32-Writes : (n : ℕ) → Writes (u32 n) (word 4 n ∷ [])
unfolding u32 encode encode_field
u32-Writes n = record {
  written = λ out t h. (rw (append-nil (to_be_bytes 4 n)) (ground arith), (tt, tt));
}

pub encode-append : (fs gs : List Field) → encode (fs ++ gs) ≡ encode fs ++ encode gs
unfolding encode
encode-append [] gs = refl
encode-append (f ∷ fs) gs =
    ap (λ (r : Bytes). encode_field f ++ r) (encode-append fs gs)
    ∙ sym (append_assoc (encode_field f) (encode fs) (encode gs))

pub BlocksFit-append : (fs gs : List Field) → BlocksFit fs → BlocksFit gs → BlocksFit (fs ++ gs)
BlocksFit-append [] gs hf hg = hg
BlocksFit-append (f ∷ fs) gs hf hg = (hf.0, BlocksFit-append fs gs hf.1 hg)

then-split :
    (w v : Writer) (out t : Bytes)
    → (w >> v) out ≡ ok t
    → (u : Bytes) × (w out ≡ ok u) × (v u ≡ ok t)
then-split w v out t h = ok-bind (w out) v t h

pub then-Writes :
    (w v : Writer) (fs gs : List Field) → Writes w fs → Writes v gs → Writes (w >> v) (fs ++ gs)
then-Writes w v fs gs hw hv = record {
  written = λ out t h.
      let (u, first, second) = then-split w v out t h in
      let (eu, bu) = hw.written out u first in
      let (et, bt) = hv.written u t second in
      (
        et
            ∙ ap (λ (q : Bytes). q ++ encode gs) eu
            ∙ append_assoc out (encode fs) (encode gs)
            ∙ ap (λ (q : Bytes). out ++ q) (sym (encode-append fs gs)),
        BlocksFit-append fs gs bu bt,
      );
}

infixr 5 ◌⊕◌
pub ◌⊕◌ :
    {w v : Writer} {fs gs : List Field} → Writes w fs → Writes v gs → Writes (w >> v) (fs ++ gs)
◌⊕◌ {w} {v} {fs} {gs} hw hv = then-Writes w v fs gs hw hv

pub finished :
    {w : Writer} {fs : List Field} (t : Bytes)
    → Writes w fs
    → transcript w ≡ ok t
    → (t ≡ encode fs) × BlocksFit fs
finished t hw h = hw.written [] t h

pub domain-Writes : (b : Bytes) → Writes (domain b) (block b ∷ [])
unfolding domain
domain-Writes b = bytes-Writes b

recovery_request-encode :
    (request : RecoveryRequest) (t : Bytes)
    → Messages.recovery_request request ≡ ok t
    → (t ≡ encode (request_fields request)) × BlocksFit (request_fields request)
unfolding Messages.recovery_request request_fields
recovery_request-encode request t h =
    finished t
      (domain-Writes (ascii "gp/recovery-request/v1")
        ⊕ u16-Writes request.protocol_version
        ⊕ u16-Writes (suite_id request.crypto_suite)
        ⊕ bytes-Writes (id_bytes request.config_id)
        ⊕ u64-Writes request.config_version
        ⊕ bytes-Writes (id_bytes request.request_id)
        ⊕ bytes-Writes request.recovery_recipient_key
        ⊕ u64-Writes request.requested_at
        ⊕ bytes-Writes (id_bytes request.nonce)
        ⊕ u64-Writes request.expiry)
      h

nested_case :
    (request : RecoveryRequest) (out t : Bytes) (r : Result WireError Bytes)
    → Messages.recovery_request request ≡ r
    → nested r out ≡ ok t
    → (t ≡ out ++ encode (block (encode (request_fields request)) ∷ []))
      × BlocksFit (block (encode (request_fields request)) ∷ [])
unfolding nested
nested_case request out t (err error) e k = absurd (cc k)
nested_case request out t (ok inner) e k =
    rw (← (recovery_request-encode request inner e).0) ((bytes-Writes inner).written out t k)

nested-Writes :
    (request : RecoveryRequest)
    → Writes
        (nested (Messages.recovery_request request))
        (block (encode (request_fields request)) ∷ [])
nested-Writes request = record {
  written = λ out t h. nested_case request out t (Messages.recovery_request request) refl h;
}
