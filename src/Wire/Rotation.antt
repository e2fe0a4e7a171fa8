-- ===== src/Wire/Rotation.antt =====
-- crates/gp-wire/src/rotation.rs: what the transcripts of protocol v3 share. `refuse_if` is an early
-- `return Err(WireError::InvalidValue)`, and `after` a check with `?`.
pub mod Ids
pub mod Meeting
pub mod Quorum
pub mod Items
pub mod Described
pub mod Plan
pub mod Votes
pub mod Grants
pub mod Prepare
pub mod Activate
pub mod Retire
pub mod Recover
pub mod Contexts
pub mod Canonical
use master_recovery.Prelude.{
  ℕ, ◌-◌, ◌^◌, Bool, true, false, ◌&&◌, ◌||◌, not, List, [], ◌∷◌, ltb, leb, ◌==◌, ◌!=◌,
  if◌then◌else◌, Result, ok, err, ◌>>=◌ as bind,
}
use master_recovery.Collections.Set
use master_recovery.Collections.Set.{Set}
use master_recovery.Types.Basic.{Bytes, Id32, SealedMessage, AeadCiphertext, protocol_version_v3}
use master_recovery.Types.Rotation.{ConfigRef, same_config_ref, RotationState}
use master_recovery.Types.Epoch.{DpssSuiteId, RotationReason, RotationContext}
use master_recovery.Types.Ceremony.{DpssPhase, GuardianRouteV3}
use master_recovery.Wire.Frame.{WireError, invalid_value, duplicate_actor}
use master_recovery.Wire.Transcript.{Writer, ◌>>◌, bytes, u16, u64, id_bytes}

abbrev pub max_rotation_actors : ℕ
max_rotation_actors = 4096

abbrev pub max_config_witnesses : ℕ
max_config_witnesses = 4096

unfoldable pub refuse_if : Bool → Result WireError Bytes → Result WireError Bytes
refuse_if bad rest = if bad then err invalid_value else rest

unfoldable pub after : Result WireError (Unit {0}) → Result WireError Bytes → Result WireError Bytes
after checked rest = bind checked (λ _. rest)

-- An early return in a function that writes into a transcript.
unfoldable pub guarded : Bool → Writer → Writer
guarded bad w out = if bad then err invalid_value else w out

-- `for item in items { f(out, item)?; }`
unfoldable pub each {ℓ} : {A : Type ℓ} → (A → Writer) → List A → Writer
each f [] out = ok out
each f (item ∷ items) out = bind (f item out) (each f items)

-- `items.iter().any(p)`
unfoldable pub any {ℓ} : {A : Type ℓ} → (A → Bool) → List A → Bool
any p [] = false
any p (item ∷ items) = p item || any p items

abbrev pub is_empty {ℓ} : {A : Type ℓ} → List A → Bool
is_empty [] = true
is_empty (item ∷ items) = false

-- `if include_signature { out.bytes(signature)?; }`
unfoldable pub optional_bytes : Bool → Bytes → Writer
optional_bytes true signature out = bytes signature out
optional_bytes false signature out = ok out

unfoldable pub config_ref_into : ConfigRef → Writer
config_ref_into value =
    bytes (id_bytes value.config_id)
    >> u64 value.payload_generation
    >> u64 value.authorization_epoch
    >> u64 value.guardian_epoch
    >> bytes (id_bytes value.epoch_binding)

unfoldable pub context_into : RotationContext → Writer
context_into value =
    guarded (value.protocol_version != protocol_version_v3 || leb value.expiry value.issued_at) (
      u16 value.protocol_version
      >> config_ref_into value.config_ref
      >> bytes (id_bytes value.rotation_id)
      >> bytes (id_bytes value.predecessor_capsule_hash)
      >> bytes value.recipient_key
      >> bytes (id_bytes value.nonce)
      >> u64 value.issued_at
      >> u64 value.expiry)

unfoldable pub same_rotation : RotationContext → RotationContext → Bool
same_rotation left right =
    left.protocol_version == right.protocol_version
    && (same_config_ref left.config_ref right.config_ref
        && (left.rotation_id == right.rotation_id
            && left.predecessor_capsule_hash == right.predecessor_capsule_hash))

unfoldable pub bounded_count : ℕ → ℕ → Writer
bounded_count len max out =
    if ltb (2 ^ 16 - 1) len
    then err invalid_value
    else if ltb max len
    then err invalid_value
    else u16 len out

-- The loop of `unique_ids`, with the identifiers seen so far. One that is out of range is not
-- inserted.
unfoldable pub unique_from : Set → List ℕ → Result WireError (Unit {0})
unique_from unique [] = ok tt
unique_from unique (id ∷ ids) =
    let rest = unique_from (Set.insert unique id) ids in
    if id == 0 || ltb max_rotation_actors id
    then err (if Set.contains unique id then duplicate_actor else invalid_value)
    else if Set.contains unique id
    then err duplicate_actor
    else rest

unfoldable pub unique_ids : List ℕ → Result WireError (Unit {0})
unique_ids ids = unique_from Set.empty ids

-- `any(|x| !seen.insert(x))` over the blocks of a custody message.
unfoldable pub repeats_from : Set → List ℕ → Bool
repeats_from seen [] = false
repeats_from seen (i ∷ is) = Set.contains seen i || repeats_from (Set.insert seen i) is

unfoldable pub no_repeats : List ℕ → Result WireError (Unit {0})
no_repeats is = if repeats_from Set.empty is then err duplicate_actor else ok tt

unfoldable pub dpss_suite_id : DpssSuiteId → ℕ
dpss_suite_id DpssSuiteId.zf_frost_ristretto255_rts_refresh_v1 = 1

unfoldable pub dpss_phase_id : DpssPhase → ℕ
dpss_phase_id DpssPhase.repair_round1 = 1
dpss_phase_id DpssPhase.repair_round2 = 2
dpss_phase_id DpssPhase.repair_round3 = 3
dpss_phase_id DpssPhase.refresh_round1 = 4
dpss_phase_id DpssPhase.refresh_round2 = 5
dpss_phase_id DpssPhase.finalize = 6

unfoldable pub reason_id : RotationReason → ℕ
reason_id RotationReason.planned_exit = 1
reason_id RotationReason.custody_failure = 2
reason_id RotationReason.unavailable = 3
reason_id RotationReason.suspected_compromise = 4
reason_id RotationReason.diversity_policy = 5
reason_id RotationReason.proactive_refresh = 6
reason_id RotationReason.security_upgrade = 7
reason_id RotationReason.owner_assisted_migration = 8

unfoldable pub state_id : RotationState → ℕ
state_id RotationState.proposed = 1
state_id RotationState.delay_pending = 2
state_id RotationState.preparing = 3
state_id RotationState.ready = 4
state_id RotationState.activating = 5
state_id RotationState.active = 6
state_id RotationState.draining = 7
state_id RotationState.retired = 8
state_id RotationState.aborted = 9

-- `u16::from` of a Boolean.
abbrev pub bool_u16 : Bool → ℕ
bool_u16 true = 1
bool_u16 false = 0

unfoldable pub sealed_into : SealedMessage → Writer
sealed_into sealed =
    bytes sealed.kem_ciphertext >> bytes sealed.payload.nonce >> bytes sealed.payload.ciphertext

unfoldable pub route_into : GuardianRouteV3 → Writer
route_into route =
    guarded (route.guardian_index == 0 || ltb max_rotation_actors route.guardian_index) (
      u16 route.guardian_index
      >> bytes (id_bytes route.opaque_slot_id)
      >> bytes route.mailbox
      >> bytes (id_bytes route.guardian_public_key)
      >> bytes route.session_recipient_key
      >> bytes (id_bytes route.operator_domain_commitment))
