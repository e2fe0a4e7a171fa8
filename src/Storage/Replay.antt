-- ===== src/Storage/Replay.antt =====
-- crates/gp-storage/src/lib.rs: `SignerState`, the requests that a signer has seen, and
-- `ConfigStore`, the capsules with their versions.
use master_recovery.Prelude.{
  ℕ, ◌≡◌, ◌≢◌, ◌<◌, ◌⊎◌, true, ◌||◌, none, some, List, [], ◌∷◌, arith, ◌!=◌, leb, if◌then◌else◌,
  Result, ok, err, is_ok, ok_or,
}
use master_recovery.Collections.Map
use master_recovery.Collections.Map.{Map}
use master_recovery.Collections.Set
use master_recovery.Collections.Set.{Set}
use master_recovery.Types.Basic.{Id32, Bytes}
use master_recovery.Types.Config.{ConfigCapsule, SignerPolicy}
use master_recovery.Storage.{StorageError, wrong_configuration, replay, stale_version, not_found}

pub record SignerState : Type 0 where
  pub signer_id : ℕ
  pub mailbox : Bytes
  pub authorization_share : Bytes
  pub signing_seed : Id32
  pub signing_public_key : Id32
  pub membership_proof : Bytes
  pub policy : SignerPolicy
  pub seen_requests : Map Id32
  pub seen_nonces : Set

unfoldable pub validate_config : SignerState → Id32 → ℕ → Result StorageError (Unit {0})
validate_config s config_id config_version =
    if s.policy.config_id != config_id || s.policy.config_version != config_version
    then err wrong_configuration
    else ok tt

-- The nonce is inserted, and its novelty tested, only if the request id is new.
unfoldable pub observe_request :
    SignerState → Id32 → ℕ → Id32 → Id32 → Id32 → SignerState × Result StorageError (Unit {0})
observe_request s config_id config_version request_id nonce request_digest =
    elim (validate_config s config_id config_version) [
      | err e ↦ (s, err e)
      | ok _ ↦
          if Map.contains_key s.seen_requests request_id || Set.contains s.seen_nonces nonce
          then (s, err replay)
          else (
            record s {
              seen_nonces = Set.insert s.seen_nonces nonce;
              seen_requests = Map.insert s.seen_requests request_id request_digest;
            },
            ok tt,
          )
    ]

-- A request that a signer is asked about: configuration, version, id, nonce and digest.
pub record Observation : Type 0 where
  pub config_id : Id32
  pub config_version : ℕ
  pub request_id : Id32
  pub nonce : Id32
  pub request_digest : Id32

unfoldable pub observe : SignerState → Observation → SignerState × Result StorageError (Unit {0})
observe s o = observe_request s o.config_id o.config_version o.request_id o.nonce o.request_digest

unfoldable pub observe_all : SignerState → List Observation → SignerState
observe_all s [] = s
observe_all s (o ∷ os) = observe_all (observe s o).0 os

seen-step :
    (s : SignerState) (o : Observation) (i n : Id32)
    → (Map.contains_key s.seen_requests i ≡ true
        → Map.contains_key (observe s o).0.seen_requests i ≡ true)
      × (Set.contains s.seen_nonces n ≡ true → Set.contains (observe s o).0.seen_nonces n ≡ true)
unfolding observe observe_request validate_config
seen-step s o i n = (
  λ h. ground (arith, Map.get-insert s.seen_requests o.request_id i o.request_digest),
  λ h. ground (arith, Set.contains-insert s.seen_nonces o.nonce n),
)

seen-all :
    (s : SignerState) (os : List Observation) (i n : Id32)
    → Map.contains_key s.seen_requests i ≡ true
    → Set.contains s.seen_nonces n ≡ true
    → (Map.contains_key (observe_all s os).seen_requests i ≡ true)
      × (Set.contains (observe_all s os).seen_nonces n ≡ true)
unfolding observe_all
seen-all s [] i n hi hn = (hi, hn)
seen-all s (o ∷ os) i n hi hn =
    seen-all (observe s o).0 os i n ((seen-step s o i n).0 hi) ((seen-step s o i n).1 hn)

observed :
    (s : SignerState) (o : Observation)
    → is_ok (observe s o).1 ≡ true
    → (Map.contains_key (observe s o).0.seen_requests o.request_id ≡ true)
      × (Set.contains (observe s o).0.seen_nonces o.nonce ≡ true)
unfolding observe observe_request validate_config
observed s o h = (
  ground (arith, Map.get-insert s.seen_requests o.request_id o.request_id o.request_digest),
  ground (arith, Set.contains-insert s.seen_nonces o.nonce o.nonce),
)

-- Two requests that a signer accepts, whatever it observes in between, differ in their identifiers
-- and in their nonces.
pub no_replay :
    (s : SignerState) (between : List Observation) (o p : Observation)
    → is_ok (observe s o).1 ≡ true
    → is_ok (observe (observe_all (observe s o).0 between) p).1 ≡ true
    → (o.request_id ≢ p.request_id) × (o.nonce ≢ p.nonce)
unfolding observe observe_request validate_config
no_replay s between o p first second =
    let (i, n) = observed s o first in
    let (ai, an) = seen-all (observe s o).0 between o.request_id o.nonce i n in
    (λ e. ground (arith, ai, e), λ e. ground (arith, an, e))

pub record ConfigStore : Type 0 where
  pub capsules : Map ConfigCapsule

unfoldable pub put : ConfigStore → ConfigCapsule → ConfigStore × Result StorageError (Unit {0})
put s capsule =
    let stored : ConfigStore = record {
      capsules = Map.insert s.capsules capsule.config_id capsule;
    } in
    elim (Map.get s.capsules capsule.config_id) [
      | some existing ↦
          if leb capsule.config_version existing.config_version
          then (s, err stale_version)
          else (stored, ok tt)
      | none ↦ (stored, ok tt)
    ]

unfoldable pub get : ConfigStore → Id32 → Result StorageError ConfigCapsule
get s config_id = ok_or (Map.get s.capsules config_id) not_found

-- A stored capsule is still what `get` answers with after any put, or `get` answers with the new one
-- and its version is higher.
pub versions_rise :
    (s : ConfigStore) (c d : ConfigCapsule) (i : Id32)
    → get s i ≡ ok c
    → (get (put s d).0 i ≡ ok c)
      ⊎ ((get (put s d).0 i ≡ ok d) × (c.config_version < d.config_version))
unfolding get put
versions_rise s c d i h = ground (arith, Map.get-insert s.capsules d.config_id i d)
