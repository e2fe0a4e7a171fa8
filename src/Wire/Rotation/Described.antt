-- ===== src/Wire/Rotation/Described.antt =====
-- What the shared writers of protocol v3 write, and the description of a whole transcript.
pub mod Plan
pub mod Votes
pub mod Grants
pub mod Prepare
pub mod Activate
pub mod Retire
pub mod Recover
pub mod Contexts
use mathlib.Core.List.{append_assoc, append-nil}
use master_recovery.Prelude.{
  ℕ, ◌≡◌, refl, sym, ap, ◌∙◌, subst, Bool, true, false, ◌||◌, List, [], ◌∷◌, ◌++◌, map, arith,
  length, ltb, leb, ◌==◌, ◌!=◌, if◌then◌else◌, Result, ok, err, ok-bind, ◌>>=◌ as bind,
}
use master_recovery.Types.Basic.{Bytes, SealedMessage, AeadCiphertext, protocol_version_v3}
use master_recovery.Types.Rotation.{ConfigRef}
use master_recovery.Types.Epoch.{RotationContext}
use master_recovery.Types.Ceremony.{GuardianRouteV3}
use master_recovery.Wire.Frame.{WireError, invalid_value}
use master_recovery.Wire.Transcript.{
  Writer, ◌>>◌, bytes, u16, u64, domain, nested, id_bytes, transcript,
}
use master_recovery.Wire.Fields.{Field, word, block, encode, Shape, shapes}
use master_recovery.Wire.Encoding.{
  BlocksFit, Writes, ◌⊕◌, then-Writes, bytes-Writes, u16-Writes, u64-Writes, domain-Writes,
  finished,
}
use master_recovery.Wire.Rotation.{
  refuse_if, after, guarded, each, optional_bytes, config_ref_into, context_into, bounded_count,
  sealed_into, route_into, max_rotation_actors,
}
use master_recovery.Wire.Rotation.Items.{Item, Piece, plain, rows, concat, flatten, Conforms}

pub guarded-Writes :
    (bad : Bool) {w : Writer} {fs : List Field} → Writes w fs → Writes (guarded bad w) fs
unfolding guarded
guarded-Writes true h = record { written = λ out t e. absurd (cc e) }
guarded-Writes false h = record { written = λ out t e. h.written out t e }

pub count-Writes : (n max : ℕ) → Writes (bounded_count n max) (word 2 n ∷ [])
unfolding bounded_count
count-Writes n max = record { written = λ out t e. (u16-Writes n).written out t (ground arith) }

skip-Writes : (w : Writer) → ((out : Bytes) → w out ≡ ok out) → Writes w []
unfolding encode
skip-Writes w h = record { written = λ out t e. (ground (arith, h out, append-nil out), tt) }

pub each-Writes {ℓ} :
    {A : Type ℓ} (f : A → Writer) (g : A → List Field) (l : List A)
    → ((a : A) → Writes (f a) (g a))
    → Writes (each f l) (concat (map g l))
unfolding each concat
each-Writes f g [] h = skip-Writes (each f []) (λ out. refl)
each-Writes f g (x ∷ xs) h =
    then-Writes (f x) (each f xs) (g x) (concat (map g xs)) (h x) (each-Writes f g xs h)

-- Nothing comes after.
pub ends : {w : Writer} {fs : List Field} → Writes w fs → Writes w (fs ++ [])
ends {w} {fs} h = rw (append-nil fs) h

-- The fields of a signature that is left out, or written.
abbrev pub signature_fields : Bool → Bytes → List Field
signature_fields true signature = block signature ∷ []
signature_fields false signature = []

pub optional-Writes :
    (include : Bool) (signature : Bytes)
    → Writes (optional_bytes include signature) (signature_fields include signature)
unfolding optional_bytes
optional-Writes true signature = record {
  written = λ out t e. (bytes-Writes signature).written out t e;
}
optional-Writes false signature = skip-Writes (optional_bytes false signature) (λ out. refl)

abbrev pub config_ref_fields : ConfigRef → List Field
config_ref_fields value =
    block (id_bytes value.config_id)
    ∷ word 8 value.payload_generation
    ∷ word 8 value.authorization_epoch
    ∷ word 8 value.guardian_epoch
    ∷ block (id_bytes value.epoch_binding)
    ∷ []

pub config_ref-Writes :
    (value : ConfigRef) → Writes (config_ref_into value) (config_ref_fields value)
unfolding config_ref_into
config_ref-Writes value =
    bytes-Writes (id_bytes value.config_id)
    ⊕ u64-Writes value.payload_generation
    ⊕ u64-Writes value.authorization_epoch
    ⊕ u64-Writes value.guardian_epoch
    ⊕ bytes-Writes (id_bytes value.epoch_binding)

abbrev pub context_fields : RotationContext → List Field
context_fields value =
    word 2 value.protocol_version
    ∷ (config_ref_fields value.config_ref
        ++ block (id_bytes value.rotation_id)
          ∷ block (id_bytes value.predecessor_capsule_hash)
          ∷ block value.recipient_key
          ∷ block (id_bytes value.nonce)
          ∷ word 8 value.issued_at
          ∷ word 8 value.expiry
          ∷ [])

pub context-Writes : (value : RotationContext) → Writes (context_into value) (context_fields value)
unfolding context_into
context-Writes value = guarded-Writes _ (
    u16-Writes value.protocol_version
    ⊕ config_ref-Writes value.config_ref
    ⊕ bytes-Writes (id_bytes value.rotation_id)
    ⊕ bytes-Writes (id_bytes value.predecessor_capsule_hash)
    ⊕ bytes-Writes value.recipient_key
    ⊕ bytes-Writes (id_bytes value.nonce)
    ⊕ u64-Writes value.issued_at
    ⊕ u64-Writes value.expiry)

abbrev pub sealed_fields : SealedMessage → List Field
sealed_fields sealed =
    block sealed.kem_ciphertext ∷ block sealed.payload.nonce ∷ block sealed.payload.ciphertext ∷ []

pub sealed-Writes : (sealed : SealedMessage) → Writes (sealed_into sealed) (sealed_fields sealed)
unfolding sealed_into
sealed-Writes sealed =
    bytes-Writes sealed.kem_ciphertext
    ⊕ bytes-Writes sealed.payload.nonce
    ⊕ bytes-Writes sealed.payload.ciphertext

abbrev pub route_fields : GuardianRouteV3 → List Field
route_fields route =
    word 2 route.guardian_index
    ∷ block (id_bytes route.opaque_slot_id)
    ∷ block route.mailbox
    ∷ block (id_bytes route.guardian_public_key)
    ∷ block route.session_recipient_key
    ∷ block (id_bytes route.operator_domain_commitment)
    ∷ []

pub route-Writes : (route : GuardianRouteV3) → Writes (route_into route) (route_fields route)
unfolding route_into
route-Writes route = guarded-Writes _ (
    u16-Writes route.guardian_index
    ⊕ bytes-Writes (id_bytes route.opaque_slot_id)
    ⊕ bytes-Writes route.mailbox
    ⊕ bytes-Writes (id_bytes route.guardian_public_key)
    ⊕ bytes-Writes route.session_recipient_key
    ⊕ bytes-Writes (id_bytes route.operator_domain_commitment))

-- A transcript that writes its domain and its items, which have this layout.
pub record IsDescribed (r : Result WireError Bytes) (d : Bytes) (is : List Item) (ps : List Piece)
    : Type 0 where
  pub writes :
      (t : Bytes)
      → r ≡ ok t
      → (t ≡ encode (block d ∷ flatten is)) × BlocksFit (block d ∷ flatten is)
  pub laid_out : Conforms ps is

pub described :
    {w : Writer} {is : List Item} {ps : List Piece} (d : Bytes)
    → Writes w (flatten is)
    → Conforms ps is
    → IsDescribed (transcript (domain d >> w)) d is ps
described {w} {is} {ps} d h c = record {
  writes = λ t e. finished t (domain-Writes d ⊕ h) e;
  laid_out = c;
}

pub refused-IsDescribed :
    (bad : Bool) {r : Result WireError Bytes} {d : Bytes} {is : List Item} {ps : List Piece}
    → IsDescribed r d is ps
    → IsDescribed (refuse_if bad r) d is ps
unfolding refuse_if
refused-IsDescribed true h = record { writes = λ t e. absurd (cc e); laid_out = h.laid_out }
refused-IsDescribed false h = record { writes = λ t e. h.writes t e; laid_out = h.laid_out }

pub after-IsDescribed :
    (checked : Result WireError (Unit {0})) {r : Result WireError Bytes} {d : Bytes}
    {is : List Item} {ps : List Piece}
    → IsDescribed r d is ps
    → IsDescribed (after checked r) d is ps
unfolding after
after-IsDescribed checked {r} h = record {
  writes = λ t e. h.writes t (ok-bind checked (λ _. r) t e).2;
  laid_out = h.laid_out;
}

nested_case :
    (r : Result WireError Bytes) (d : Bytes) (fs : List Field) (ps : List Piece) (out t : Bytes)
    → IsDescribed r d (plain fs ∷ []) ps
    → nested r out ≡ ok t
    → (t ≡ out ++ encode (block (encode (block d ∷ (fs ++ []))) ∷ []))
      × BlocksFit (block (encode (block d ∷ (fs ++ []))) ∷ [])
unfolding nested flatten
nested_case (err error) d fs ps out t h e = absurd (cc e)
nested_case (ok inner) d fs ps out t h e =
    rw (← (h.writes inner refl).0) ((bytes-Writes inner).written out t e)

-- The bytes of another transcript, as one field.
pub nested-described :
    {r : Result WireError Bytes} {d : Bytes} {fs : List Field} {ps : List Piece}
    → IsDescribed r d (plain fs ∷ []) ps
    → Writes (nested r) (block (encode (block d ∷ (fs ++ []))) ∷ [])
nested-described {r} {d} {fs} {ps} h = record {
  written = λ out t e. nested_case r d fs ps out t h e;
}

abbrev pub b : Shape
b = Shape.block

abbrev pub w2 : Shape
w2 = Shape.word 2

abbrev pub w4 : Shape
w4 = Shape.word 4

abbrev pub w8 : Shape
w8 = Shape.word 8

abbrev pub config_ref_shapes : List Shape
config_ref_shapes = b ∷ w8 ∷ w8 ∷ w8 ∷ b ∷ []

abbrev pub context_shapes : List Shape
context_shapes = w2 ∷ (config_ref_shapes ++ b ∷ b ∷ b ∷ b ∷ w8 ∷ w8 ∷ [])

abbrev pub sealed_shapes : List Shape
sealed_shapes = b ∷ b ∷ b ∷ []

abbrev pub route_shapes : List Shape
route_shapes = w2 ∷ b ∷ b ∷ b ∷ b ∷ b ∷ []
