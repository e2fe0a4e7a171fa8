-- ===== src/Wire/Tests/Rotation.antt =====
-- Concrete transcripts of protocol v3, after the tests of crates/gp-wire/src/rotation.rs.
use master_recovery.Prelude.{◌≡◌, ◌↔◌, refl, [], ◌∷◌, arith, Result, ok, err}
use master_recovery.Collections.Set
use master_recovery.Types.Basic.{Bytes, x_wing_x_cha_cha20_poly1305_ed25519}
use master_recovery.Types.Recovery.{RecoveryRequest}
use master_recovery.Types.Activation.{EpochReadChallenge}
use master_recovery.Wire.Bytes.{to_be_bytes}
use master_recovery.Wire.Frame.{WireError, duplicate_actor}
use master_recovery.Wire.Transcript.{bytes, domain, u16, u64}
use master_recovery.Wire.Messages
use master_recovery.Wire.Canonical as V2
use master_recovery.Wire.Rotation.{refuse_if, max_rotation_actors, unique_from, unique_ids}
use master_recovery.Wire.Rotation.Activate
use master_recovery.Wire.Rotation.Items.{flatten}
use master_recovery.Wire.Rotation.Ids.{AllWithin, Distinct, unique_ids_iff}
use master_recovery.Wire.Encoding.Separation.{WordsFit}
use master_recovery.Wire.Rotation.Canonical.{Message, kind, write}
use master_recovery.Wire.Rotation.Canonical.Body.{body}
use master_recovery.Wire.Rotation.Canonical.Separation.{
  v3_kinds_separated, v3_bytes_determine, versions_separated,
}

abbrev challenge : EpochReadChallenge
challenge = record {
  protocol_version = 3;
  config_id = 1;
  client_nonce = 2;
  response_recipient_key = 5 ∷ [];
  issued_at = 10;
  expiry = 20;
}

abbrev message : Message
message = Message.epoch_read_challenge challenge

abbrev or_nothing : Result WireError Bytes → Bytes
or_nothing (ok transcript) = transcript
or_nothing (err error) = []

abbrev challenge_bytes : Bytes
challenge_bytes = or_nothing (Activate.epoch_read_challenge challenge)

challenge_runs : write message ≡ ok challenge_bytes
unfolding write Activate.epoch_read_challenge refuse_if to_be_bytes bytes domain u16 u64
challenge_runs = refl

v3_kinds_separated_example : kind message ≡ kind message
v3_kinds_separated_example =
    v3_kinds_separated message message challenge_bytes challenge_runs challenge_runs

message-WordsFit : WordsFit (flatten (body message))
unfolding body flatten
message-WordsFit = ground arith

v3_bytes_determine_example : body message ≡ body message
v3_bytes_determine_example =
    v3_bytes_determine message message challenge_bytes message-WordsFit message-WordsFit
      challenge_runs challenge_runs

abbrev request : RecoveryRequest
request = record {
  protocol_version = 2;
  crypto_suite = x_wing_x_cha_cha20_poly1305_ed25519;
  config_id = 1;
  config_version = 3;
  request_id = 2;
  recovery_recipient_key = 4 ∷ 5 ∷ [];
  requested_at = 10;
  nonce = 3;
  expiry = 1000;
}

abbrev request_bytes : Bytes
request_bytes = or_nothing (Messages.recovery_request request)

request_written : V2.write (V2.Message.recovery_request request) ≡ ok request_bytes
unfolding V2.write Messages.recovery_request Messages.suite_id to_be_bytes bytes domain u16 u64
request_written = refl

versions_separated_example : ¬ (write message ≡ ok request_bytes)
versions_separated_example =
    versions_separated (V2.Message.recovery_request request) message request_bytes request_written

repeated_actor_is_refused : unique_ids (3 ∷ 1 ∷ 3 ∷ []) ≡ err duplicate_actor
unfolding unique_ids unique_from Set.empty Set.insert Set.contains
repeated_actor_is_refused = refl

unique_ids_iff_example :
    (unique_ids (3 ∷ 1 ∷ 4 ∷ []) ≡ ok tt)
    ↔ (AllWithin max_rotation_actors (3 ∷ 1 ∷ 4 ∷ []) × Distinct (3 ∷ 1 ∷ 4 ∷ []))
unique_ids_iff_example = unique_ids_iff (3 ∷ 1 ∷ 4 ∷ [])
