-- ===== src/Network/Validation/Ready.antt =====
-- crates/gp-network/src/rotation_protocol.rs: the certificate that a successor epoch is prepared.
use master_recovery.Prelude.{
  ℕ, ◌||◌, not, List, [], ◌∷◌, map, length, ltb, leb, ◌!=◌, Result, ok, ok_or, ◌>>=◌, ◌>>◌,
}
use master_recovery.Collections.Map
use master_recovery.Collections.Map.{Map}
use master_recovery.Types.Basic.{Id32, Bytes}
use master_recovery.Types.Rotation.{same_config_ref}
use master_recovery.Types.Ceremony.{RotationPlan, GuardianRouteV3}
use master_recovery.Types.Activation.{
  RotationReadyCertificate, NewGuardianPreparedAck, OldGuardianHandoffAck,
}
use master_recovery.Types.RecoveryV3.{ConfigCapsuleV3}
use master_recovery.Wire.Frame.{WireError}
use master_recovery.Wire.Rotation.Prepare
use master_recovery.Network.Validation.{
  ProtocolError, incomplete_ready, outside_roster, Crypto, bail_if, written, same_context,
  verify_signature,
}
use master_recovery.Network.Validation.Plan.{validate_rotation_plan_v3}

-- The keys of a roster by the guardian's index.
unfoldable pub roster_keys : Map Id32 → List GuardianRouteV3 → Map Id32
roster_keys keys [] = keys
roster_keys keys (route ∷ routes) =
    roster_keys (Map.insert keys route.guardian_index route.guardian_public_key) routes

-- What a guardian signs: its index, the transcript and the signature.
pub record SignedAck : Type 0 where
  pub guardian_index : ℕ
  pub transcript : Result WireError Bytes
  pub guardian_signature : Bytes

abbrev pub signed_prepared : NewGuardianPreparedAck → SignedAck
signed_prepared ack = record {
  guardian_index = ack.new_guardian_index;
  transcript = Prepare.new_guardian_prepared_ack ack;
  guardian_signature = ack.guardian_signature;
}

abbrev pub signed_handoff : OldGuardianHandoffAck → SignedAck
signed_handoff ack = record {
  guardian_index = ack.old_guardian_index;
  transcript = Prepare.old_guardian_handoff_ack ack;
  guardian_signature = ack.guardian_signature;
}

module _ (c : Crypto) where
  unfoldable pub check_ack : Map Id32 → SignedAck → Result ProtocolError (Unit {0})
  check_ack keys ack = do
    key ← ok_or (Map.get keys ack.guardian_index) outside_roster
    transcript ← written ack.transcript
    verify_signature c key transcript ack.guardian_signature

  unfoldable pub check_acks : Map Id32 → List SignedAck → Result ProtocolError (Unit {0})
  check_acks keys [] = ok tt
  check_acks keys (ack ∷ acks) = check_ack keys ack >> check_acks keys acks

  unfoldable pub validate_rotation_ready_certificate_v3 :
      RotationReadyCertificate → RotationPlan → ConfigCapsuleV3 → ℕ → Result ProtocolError Id32
  validate_rotation_ready_certificate_v3 ready plan predecessor now = do
    plan_hash ← validate_rotation_plan_v3 c plan predecessor now
    transcript ← written (Prepare.rotation_ready_certificate ready)
    bail_if
        (not (same_context ready.context plan.context)
          || (ready.plan_hash != plan_hash
              || (not (same_config_ref ready.successor plan.successor)
                  || (leb plan.preparation_deadline now
                      || (length ready.prepared_acks != length plan.new_roster
                          || ltb (length ready.old_handoff_acks) plan.old_guardian_threshold)))))
        incomplete_ready
    check_acks (roster_keys Map.empty plan.new_roster) (map signed_prepared ready.prepared_acks)
    check_acks (roster_keys Map.empty plan.old_roster) (map signed_handoff ready.old_handoff_acks)
    ok (c.sha256 transcript)
