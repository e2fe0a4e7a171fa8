-- ===== src/Network/Validation.antt =====
-- crates/gp-network/src/rotation_protocol.rs: the checks that certificates share. A `bail!` is an error
-- of `ProtocolError`. The hash, the signature check and the
-- Merkle check of gp-crypto, which wrap third-party libraries, are a parameter.
pub mod Recovery
pub mod Plan
pub mod Intent
pub mod Rotation
pub mod Ready
pub mod Activation
pub mod Select
pub mod Steps
pub mod Backing
pub mod Fork
pub mod Highest
pub mod Reads
pub mod Given
pub mod Latest
pub mod Replacement
pub mod Veto
pub mod Delay
use master_recovery.Prelude.{
  ℕ, ◌-◌, ◌*◌, ◌+◌, Bool, true, false, ◌&&◌, ◌||◌, not, Option, none, some, List, [], ◌∷◌, length,
  ltb, ◌==◌, ◌!=◌, if◌then◌else◌, Result, ok, err, ok_or, ◌>>=◌, ◌>>◌, u64_max,
}
use master_recovery.Collections.Set
use master_recovery.Collections.Set.{Set}
use master_recovery.Collections.Map
use master_recovery.Collections.Map.{Map}
use master_recovery.Types.Basic.{Id32, Bytes, protocol_version_v3}
use master_recovery.Types.Rotation.{same_config_ref}
use master_recovery.Types.Epoch.{RotationContext}
use master_recovery.Types.RecoveryV3.{RecoveryCardV3, WitnessPin, ConfigCapsuleV3}
use master_recovery.Wire.Bytes.{same_bytes}
use master_recovery.Wire.Frame.{WireError}
use master_recovery.Wire.Messages
use master_recovery.Wire.Rotation.{any, is_empty}

pub data ProtocolError : Type 0 where
  wire : WireError → ProtocolError
  crypto size_overflow length_conversion : ProtocolError
  invalid_card small_roster invalid_pin : ProtocolError
  invalid_signer_id invalid_request wrong_digest invalid_vote no_threshold : ProtocolError
  mismatched_cancellation malformed_plan mismatched_roster outside_intent : ProtocolError
  not_one_replacement stale_route reused_identity : ProtocolError
  mismatched_begin mismatched_release mismatched_abort : ProtocolError
  unpinned_witness invalid_witness no_witness_quorum : ProtocolError
  incomplete_ready outside_roster : ProtocolError
  mismatched_activation mismatched_capsule invalid_genesis no_activation : ProtocolError
  mismatched_qc other_configuration no_capsule conflicting_capsules no_genesis_agreement :
      ProtocolError

-- `sha256`, and whether `verify` and `merkle_verify` succeed.
pub record Crypto : Type 0 where
  pub sha256 : Bytes → Id32
  pub verify : Id32 → Bytes → Bytes → Bool
  pub merkle_verify : Id32 → Id32 → ℕ → ℕ → Bytes → Bool

-- `if bad { bail!(..) }`
unfoldable pub bail_if : Bool → ProtocolError → Result ProtocolError (Unit {0})
bail_if bad error = if bad then err error else ok tt

-- `?` on a transcript.
unfoldable pub written : Result WireError Bytes → Result ProtocolError Bytes
written (ok transcript) = ok transcript
written (err error) = err (wire error)

-- The derived `==` of `RotationContext`.
unfoldable pub same_context : RotationContext → RotationContext → Bool
same_context a b =
    a.protocol_version == b.protocol_version
    && (same_config_ref a.config_ref b.config_ref
        && (a.rotation_id == b.rotation_id
            && (a.predecessor_capsule_hash == b.predecessor_capsule_hash
                && (same_bytes a.recipient_key b.recipient_key
                    && (a.nonce == b.nonce
                        && (a.issued_at == b.issued_at && a.expiry == b.expiry))))))

unfoldable pub required_witness_quorum : ℕ → Result ProtocolError ℕ
required_witness_quorum fault_bound =
    if ltb u64_max (fault_bound * 2)
    then err size_overflow
    else if ltb u64_max (fault_bound * 2 + 1)
    then err size_overflow
    else ok (fault_bound * 2 + 1)

unfoldable pub required_roster : ℕ → Result ProtocolError ℕ
required_roster fault_bound =
    if ltb u64_max (fault_bound * 3)
    then err size_overflow
    else if ltb u64_max (fault_bound * 3 + 1)
    then err size_overflow
    else ok (fault_bound * 3 + 1)

-- The loop over the pinned witnesses, with the identifiers, keys and mailboxes before.
unfoldable pub check_pins :
    Set → Set → List Bytes → List WitnessPin → Result ProtocolError (Unit {0})
check_pins ids keys mailboxes [] = ok tt
check_pins ids keys mailboxes (pin ∷ pins) =
    let rest =
      check_pins (Set.insert ids pin.witness_id) (Set.insert keys pin.public_key)
        (pin.mailbox ∷ mailboxes) pins in
    if pin.witness_id == 0
      || (is_empty pin.mailbox
          || (Set.contains ids pin.witness_id
              || (Set.contains keys pin.public_key || any (same_bytes pin.mailbox) mailboxes)))
    then err invalid_pin
    else rest

unfoldable pub validate_recovery_card_v3 : RecoveryCardV3 → Result ProtocolError (Unit {0})
validate_recovery_card_v3 card = do
  bail_if (card.protocol_version != protocol_version_v3 || card.witness_fault_bound == 0)
      invalid_card
  roster ← required_roster card.witness_fault_bound
  bail_if (ltb (length card.witnesses) roster) small_roster
  check_pins Set.empty Set.empty [] card.witnesses

unfoldable pub collect_pins : Map WitnessPin → List WitnessPin → Map WitnessPin
collect_pins pins [] = pins
collect_pins pins (pin ∷ rest) = collect_pins (Map.insert pins pin.witness_id pin) rest

unfoldable pub witness_pins : RecoveryCardV3 → Map WitnessPin
witness_pins card = collect_pins Map.empty card.witnesses

-- What a certificate holds of one signer: whether the vote differs from the certificate, the signer, and
-- the transcript that is signed.
pub record SignedVote : Type 0 where
  pub mismatched : Bool
  pub signer_id : ℕ
  pub signer_public_key : Id32
  pub signer_membership_proof : Bytes
  pub transcript : Result WireError Bytes
  pub signer_signature : Bytes

module _ (c : Crypto) where
  -- `verify(..)?`
  unfoldable pub verify_signature : Id32 → Bytes → Bytes → Result ProtocolError (Unit {0})
  verify_signature public_key transcript signature =
      bail_if (not (c.verify public_key transcript signature)) crypto

  -- The Merkle proof that a signer is in the committed set.
  unfoldable pub verify_membership :
      ℕ → Id32 → Bytes → ConfigCapsuleV3 → Result ProtocolError (Unit {0})
  verify_membership signer_id signer_public_key membership_proof capsule = do
    leaf ← written (Messages.signer_leaf signer_id signer_public_key)
    bail_if
        (not (
          c.merkle_verify capsule.signer_set_commitment (c.sha256 leaf) (signer_id - 1)
            capsule.signer_count membership_proof))
        crypto

  unfoldable pub validate_signer_membership :
      ℕ → Id32 → Bytes → ConfigCapsuleV3 → Result ProtocolError (Unit {0})
  validate_signer_membership signer_id signer_public_key membership_proof capsule = do
    bail_if (signer_id == 0 || ltb capsule.signer_count signer_id) invalid_signer_id
    verify_membership signer_id signer_public_key membership_proof capsule

  -- The body of the loop over the votes of a certificate, after the tests on identifiers.
  unfoldable pub check_vote : ConfigCapsuleV3 → SignedVote → Result ProtocolError (Unit {0})
  check_vote capsule vote = do
    validate_signer_membership vote.signer_id vote.signer_public_key vote.signer_membership_proof
        capsule
    transcript ← written vote.transcript
    verify_signature vote.signer_public_key transcript vote.signer_signature

  -- The loop over the votes, from the identifiers seen before to those seen in the end.
  unfoldable pub check_votes : ConfigCapsuleV3 → Set → List SignedVote → Result ProtocolError Set
  check_votes capsule ids [] = ok ids
  check_votes capsule ids (vote ∷ votes) =
      let rest = check_votes capsule (Set.insert ids vote.signer_id) votes in
      if vote.mismatched || Set.contains ids vote.signer_id
      then err invalid_vote
      else check_vote capsule vote >> rest

  -- The votes, and a threshold of them.
  unfoldable pub check_threshold :
      ConfigCapsuleV3 → List SignedVote → Result ProtocolError (Unit {0})
  check_threshold capsule votes = do
    ids ← check_votes capsule Set.empty votes
    bail_if (ltb (Set.size ids) capsule.signer_threshold) no_threshold
