-- ===== src/Storage/Tests.antt =====
-- Concrete stores, after the tests of crates/gp-storage/src/rotation.rs.
use master_recovery.Prelude.{
  ℕ, ◌≡◌, ◌≢◌, ◌⊎◌, ◌<◌, refl, true, arith, none, [], ◌∷◌, ok, err, is_ok, saturating_add,
}
use master_recovery.Collections.Map
use master_recovery.Collections.Map.{Map}
use master_recovery.Collections.Set
use master_recovery.Collections.Set.{Set}
use master_recovery.Types.Basic.{Id32, x_wing_x_cha_cha20_poly1305_ed25519}
use master_recovery.Types.Config.{ConfigCapsule}
use master_recovery.Types.Rotation.{ConfigRef, is_direct_successor_of}
use master_recovery.Types.Epoch.{
  GuardianEpochState, GuardianRecordV3, EpochActivationQc, zf_frost_ristretto255_rts_refresh_v1,
}
use master_recovery.Core.Witness as Machine
use master_recovery.Core.Witness.{EpochWitnessMachine, accept_successor}
use master_recovery.Storage.{conflict, replay, not_durable}
use master_recovery.Storage.Witness
use master_recovery.Storage.Witness.{
  WitnessEpochStore, persist_successor_before_ack, cancel_pending_successor,
}
use master_recovery.Storage.Witness.Lock.{
  stored_successor_answers, SameView, cancel_undoes_persist, Holds, store_follows_machine,
}
use master_recovery.Storage.Votes
use master_recovery.Storage.Votes.{SignerRotationStore, lock_plan, lock_plans, one_plan}
use master_recovery.Storage.Replay
use master_recovery.Storage.Replay.{
  SignerState, Observation, observe, observe_all, no_replay, ConfigStore, put, versions_rise,
}
use master_recovery.Storage.Epoch.{
  GuardianEpochStore, DpssSessionJournal, new, new_candidate, empty_store, with_epoch_state,
}
use master_recovery.Storage.Epoch.Rotate
use master_recovery.Storage.Epoch.Rotate.{prepare_successor, activate_successor, install}
use master_recovery.Storage.Epoch.Drain.{retire_epoch}
use master_recovery.Storage.Epoch.Calls.{prepares, aborts, perform, run}
use master_recovery.Storage.Epoch.Invariant.{IsConsistent, refused_call_unchanged}
use master_recovery.Storage.Epoch.Keeps.{reached_store-IsConsistent}
use master_recovery.Storage.Epoch.Course.{
  ended_rotation_refused, HandsOver, activate_successor-HandsOver,
}

abbrev config : ℕ → Id32 → ConfigRef
config epoch marker = record {
  config_id = 1;
  payload_generation = 1;
  authorization_epoch = 1;
  guardian_epoch = epoch;
  epoch_binding = marker;
}

abbrev child : Id32
child = 2

abbrev sibling : Id32
sibling = 3

abbrev witness : WitnessEpochStore
witness = Witness.new (config 1 1) 1

abbrev stored : WitnessEpochStore
stored = (persist_successor_before_ack witness (config 1 1) 1 (config 2 2) 2).0

stored_successor_answers_holds :
    (persist_successor_before_ack stored (config 1 1) 1 (config 2 2) child ≡ (stored, ok tt))
    × (persist_successor_before_ack stored (config 1 1) 1 (config 2 3) sibling
        ≡ (stored, err conflict))
unfolding Witness.new persist_successor_before_ack is_direct_successor_of Map.get Map.empty
    saturating_add
stored_successor_answers_holds =
    stored_successor_answers witness (config 1 1) (config 2 2) (config 2 3) 1 child sibling refl
      refl (λ e. omega arith)

cancel_undoes_persist_holds :
    (is_ok (cancel_pending_successor stored 1 1 2 2).1 ≡ true)
    × SameView (cancel_pending_successor stored 1 1 2 2).0 witness
unfolding Witness.new persist_successor_before_ack is_direct_successor_of Map.get Map.empty
    Map.insert Map.remove Set.empty Set.contains Set.insert saturating_add
cancel_undoes_persist_holds = cancel_undoes_persist witness (config 1 1) (config 2 2) 1 2 refl refl

abbrev machine : EpochWitnessMachine
machine = Machine.new 1 1 1

machine_held : Holds witness machine
unfolding Witness.new Machine.new Map.get Map.empty Map.insert Map.remove Set.empty Set.contains
    Set.insert saturating_add
machine_held = record { config_id = refl; epoch = refl; hash = refl; locks = λ h. refl }

store_follows_machine_example :
    (is_ok (persist_successor_before_ack witness (config 1 1) 1 (config 2 2) 2).1 ≡ true)
    × Holds stored (accept_successor machine (config 1 1) 1 (config 2 2) 2 true).0
unfolding Machine.new Witness.new accept_successor is_direct_successor_of Map.get Map.empty
    Map.insert Map.remove Set.empty Set.contains Set.insert saturating_add
store_follows_machine_example =
    store_follows_machine witness machine (config 1 1) (config 2 2) 1 2 true machine_held refl

abbrev signer_store : SignerRotationStore
signer_store = Votes.new

one_plan_holds : child ≡ child
unfolding Votes.new lock_plan lock_plans Map.get Map.empty Map.insert Map.remove Set.empty
    Set.contains Set.insert saturating_add
one_plan_holds = one_plan signer_store ((9, 8) ∷ []) 1 child child refl refl

abbrev signer : SignerState
signer = record {
  signer_id = 1;
  mailbox = [];
  authorization_share = [];
  signing_seed = 1;
  signing_public_key = 1;
  membership_proof = [];
  policy = record {
    config_id = 1;
    config_version = 1;
    signer_set_commitment = 1;
    signer_threshold = 2;
  };
  seen_requests = Map.empty;
  seen_nonces = Set.empty;
}

abbrev observation : Id32 → Id32 → Observation
observation request_id nonce = record {
  config_id = 1;
  config_version = 1;
  request_id = request_id;
  nonce = nonce;
  request_digest = 7;
}

no_replay_example : (child ≢ sibling) × (child ≢ sibling)
unfolding observe observe_all Replay.observe_request Replay.validate_config Map.get Map.empty
    Map.insert Map.remove Set.empty Set.contains Set.insert saturating_add
no_replay_example =
    no_replay signer [] (observation child child) (observation sibling sibling) refl refl

abbrev guardian_record : ℕ → Id32 → GuardianRecordV3
guardian_record epoch marker = record {
  opaque_slot_id = marker;
  guardian_index = 1;
  fragment_index = 1;
  encrypted_ciphertext_fragment = record { nonce = []; ciphertext = [] };
  encrypted_dek_share = record { nonce = []; ciphertext = [] };
  merkle_path_proof = [];
  custody_root = marker;
  policy = record {
    config_ref = config epoch marker;
    epoch_state = GuardianEpochState.prepared;
    signer_set_commitment = 2;
    signer_count = 3;
    signer_threshold = 2;
    owner_cancel_public_key = 3;
    minimum_recovery_delay = 10;
    guardian_material_root = 4;
    dpss_suite = zf_frost_ristretto255_rts_refresh_v1;
    dpss_public_commitment = 5;
    predecessor_capsule_hash = 1;
    activation_qc_hash = none;
    drain_deadline = none;
  };
}

abbrev journal : DpssSessionJournal
journal = record {
  rotation_id = 6;
  plan_hash = 7;
  session_id = 8;
  qualified_set_digest = 9;
  phase = 1;
  next_sequence = 1;
  provider_public_journal = 10 ∷ [];
  encrypted_provider_secret_journal = record { nonce = []; ciphertext = 11 ∷ [] };
}

abbrev activation : EpochActivationQc
activation = record {
  protocol_version = 3;
  config_id = 1;
  rotation_id = 6;
  predecessor_epoch = 1;
  predecessor_capsule_hash = 1;
  successor_epoch = 2;
  successor_capsule_hash = 2;
  activation_certificate_hash = 5;
  witness_fault_bound = 1;
  witness_acks = [];
}

abbrev fresh_store : GuardianEpochStore
fresh_store = new (guardian_record 1 1) 1

abbrev prepared_store : GuardianEpochStore
prepared_store = run fresh_store (prepares 6 7 (guardian_record 2 2) journal ∷ [])

reached_store-IsConsistent_example :
    IsConsistent (run fresh_store (aborts 6 7 ∷ []))
    × IsConsistent (run (new_candidate (config 1 1) 1) (aborts 6 7 ∷ []))
reached_store-IsConsistent_example =
    reached_store-IsConsistent (guardian_record 1 1) (config 1 1) 1 (aborts 6 7 ∷ [])

prepared_store-IsConsistent : IsConsistent prepared_store
prepared_store-IsConsistent =
    (reached_store-IsConsistent (guardian_record 1 1) (config 1 1) 1
      (prepares 6 7 (guardian_record 2 2) journal ∷ [])).0

refused_call_unchanged_example : (perform prepared_store (aborts 6 8)).0 ≡ prepared_store
unfolding run perform prepare_successor Rotate.abort_prepared new empty_store is_direct_successor_of
    Map.get Map.empty Map.insert Map.remove Set.empty Set.contains Set.insert saturating_add
refused_call_unchanged_example =
    refused_call_unchanged prepared_store (aborts 6 8) prepared_store-IsConsistent refl

ended_rotation_refused_example :
    prepare_successor
      (run (perform prepared_store (aborts 6 7)).0 [])
      6
      7
      (guardian_record 2 2)
      journal
    ≡ (run (perform prepared_store (aborts 6 7)).0 [], err replay)
unfolding run perform prepare_successor Rotate.abort_prepared new empty_store is_direct_successor_of
    Map.get Map.empty Map.insert Map.remove Set.empty Set.contains Set.insert saturating_add
ended_rotation_refused_example =
    ended_rotation_refused prepared_store (aborts 6 7) [] 6 7 (guardian_record 2 2) journal refl
      refl

abbrev activated_store : GuardianEpochStore
activated_store = (activate_successor prepared_store 6 7 activation 5 20 Set.empty).0

activate_successor-HandsOver_example : HandsOver prepared_store activated_store 20
unfolding run perform prepare_successor activate_successor install new empty_store
    is_direct_successor_of Map.get Map.empty Map.insert Map.remove Set.empty Set.contains Set.insert
    saturating_add
activate_successor-HandsOver_example =
    activate_successor-HandsOver prepared_store
      (with_epoch_state (guardian_record 1 1) GuardianEpochState.active) 6 7 activation 5 20
      Set.empty prepared_store-IsConsistent refl refl

abbrev capsule : ℕ → ConfigCapsule
capsule version = record {
  protocol_version = 2;
  crypto_suite = x_wing_x_cha_cha20_poly1305_ed25519;
  config_id = 1;
  config_version = version;
  signer_count = 3;
  signer_threshold = 2;
  guardian_count = 3;
  guardian_threshold = 2;
  minimum_recovery_delay = 10;
  signer_set_commitment = 1;
  owner_cancel_public_key = 1;
  guardian_material_commitment = 1;
  encrypted_recovery_descriptor = record { nonce = []; ciphertext = [] };
  max_request_lifetime = 100;
}

abbrev capsule_store : ConfigStore
capsule_store = record { capsules = Map.insert Map.empty 1 (capsule 1) }

versions_rise_holds :
    (Replay.get (put capsule_store (capsule 2)).0 1 ≡ ok (capsule 1))
    ⊎ ((Replay.get (put capsule_store (capsule 2)).0 1 ≡ ok (capsule 2))
        × ((capsule 1).config_version < (capsule 2).config_version))
unfolding Replay.get put Map.get Map.empty Map.insert
versions_rise_holds = versions_rise capsule_store (capsule 1) (capsule 2) 1 refl

retires_at_the_deadline : (retire_epoch activated_store 1 20).1 ≡ ok 1
unfolding run perform prepare_successor activate_successor install retire_epoch new empty_store
    is_direct_successor_of Map.get Map.empty Map.insert Map.remove Set.empty Set.contains Set.insert
    saturating_add
retires_at_the_deadline = refl

drains_before_the_deadline : (retire_epoch activated_store 1 19).1 ≡ err not_durable
unfolding run perform prepare_successor activate_successor install retire_epoch new empty_store
    is_direct_successor_of Map.get Map.empty Map.insert Map.remove Set.empty Set.contains Set.insert
    saturating_add
drains_before_the_deadline = refl
