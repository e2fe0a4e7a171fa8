-- ===== src/Lib.antt =====
-- Master Recovery: the protocol state machines, the canonical transcripts, the checks of certificates
-- and the stores of a recovery system in which signers approve a recovery, guardians hold the fragments and release them
-- after a delay, and witnesses vouch for the current epoch of guardians.
--
-- The parts and how they interact:
--
-- - gp-core (crates/gp-core) decides. A recipient drives a `RecoveryMachine`; each v2 guardian keeps a
--   `GuardianMachine`, which accepts a Begin, waits out its delay and authorizes a release, unless the
--   owner cancels. In v3 a `RotationMachine` hands the guardians' material to a successor epoch, an
--   `EpochWitnessMachine` admits one successor for each predecessor, and an `EpochRecoveryMachine` runs
--   recoveries over the active and the draining epochs.
-- - gp-wire (crates/gp-wire) gives every message the bytes that are signed, hashed or authenticated.
-- - gp-crypto (crates/gp-crypto) splits a secret among signers and recovers it, around a Shamir library.
-- - gp-network (crates/gp-network) checks certificates, plans, capsules and the reads of the witnesses
--   before a node acts on them: the transcripts of gp-wire under signatures and Merkle proofs.
-- - gp-storage (crates/gp-storage) keeps what must survive a restart: the prepared, active and draining
--   records of a guardian, the votes of a signer, the locks of a witness.
-- - gp-types (crates/gp-types) has the data that all of these share.
--
-- Which file models which part:
--
-- - Types: gp-types. An `Id32` is the number that its 32 bytes spell, so that equality of arrays is
--   equality of numbers; a vector of bytes is a list of numbers; an unsigned word is a number.
-- - Collections: `BTreeMap` and `BTreeSet`, behind the laws of lookup and membership.
-- - Prelude: numbers and their tests, lists, results, `saturating_add` at 2 ^ 64 - 1.
-- - Core/Recovery: `RecoveryMachine` (crates/gp-core/src/lib.rs). `apply` is `apply`; Path has what its
--   runs satisfy.
-- - Core/Guardian: `GuardianMachine` (crates/gp-core/src/lib.rs). `begin_at`, `cancel`,
--   `authorize_release_at` and `state` are the methods of these names. History logs every call with its
--   answer, Agreement ties a machine's fields to the log, Answers and Permanence use that.
-- - Core/Rotation: `RotationMachine` (crates/gp-core/src/rotation.rs). `dispatch` is the `match` of
--   `apply`, clause by clause in its order.
-- - Core/Witness: `EpochWitnessMachine` (crates/gp-core/src/rotation.rs).
-- - Core/Epoch: `EpochRecoveryMachine` (crates/gp-core/src/rotation.rs), with a log as for Guardian.
-- - Wire/Bytes, Wire/Frame: big-endian words, `frame` and `deframe` (crates/gp-wire/src/lib.rs).
-- - Wire/Transcript, Wire/Messages: `Transcript` and the sixteen functions that write messages.
-- - Wire/Fields, Wire/Canonical, Wire/Encoding: transcripts as lists of fields, and what bytes determine.
-- - Wire/Rotation: the fifty transcripts of protocol v3 (crates/gp-wire/src/rotation.rs), one function
--   each under its name, in Plan, Votes, Grants, Prepare, Activate, Retire, Recover and Contexts; a
--   `for` loop is `each`, an early return `refuse_if` or `after`. Described and its children give each
--   transcript as a list of items, Canonical gathers all messages. Ids and Meeting are about lists of
--   distinct actors, Quorum about the certificate of 2f+1 witnesses.
-- - Crypto/Secret: `split_secret` and `recover_secret` (crates/gp-crypto/src/lib.rs). `SeenIndices` is the
--   array of four words; the Shamir library is the record `Shamir`.
-- - Network/Validation: crates/gp-network/src/rotation_protocol.rs, one function for each of its checks;
--   Recovery, Plan, Intent, Rotation, Ready, Activation and Select have the functions, Backing, Delay,
--   Replacement, Fork, Veto, Reads, Given and Latest the theorems. `check_votes` is the loop over votes that
--   five certificates repeat, `SignedVote` what it reads of a vote.
-- - Storage/Epoch: `GuardianEpochStore` (crates/gp-storage/src/rotation.rs); Rotate and Drain have its
--   operations, Calls any sequence of them.
-- - Storage/Witness, Storage/Votes: `WitnessEpochStore` and `SignerRotationStore` of the same file.
-- - Storage/Replay: `SignerState` and `ConfigStore` (crates/gp-storage/src/lib.rs).
--
-- A method that takes `&mut self` is a function from the state and the arguments to the state after it
-- and the result, on error paths too. Clocks, the validity of certificates and digests are arguments, as
-- they are in the source: whoever calls a machine has checked the signatures. Nothing is bounded and
-- there is no fuel: every loop of these parts is over a list. A word's range is a hypothesis where a
-- theorem needs it, and additions saturate as in the source.
--
-- The third-party code is a parameter: `Shamir` for the sharing of a secret, `Crypto` for the hash, the
-- signature check and the Merkle check that crates/gp-crypto wraps. No theorem assumes anything of them.
-- At most 4096 actors take part in a certificate, as in the source.
--
-- Not modelled: the rest of crates/gp-crypto, which is the layout of erasure-coded fragments, the inputs
-- of key derivation, Merkle leaves and wrappers of third-party ciphers and of FROST; the network nodes and
-- their persistence (the rest of crates/gp-network), which are sockets, files and the decisions taken on
-- top of these parts; the mailbox transport (crates/gp-transport); the simulator (crates/gp-sim); the
-- interfaces (crates/gp-cli, crates/gp-ipc, crates/gp-gui-sim), the benchmarks, the tools and the
-- documents, which hold no logic of the protocol.
-- Of crates/gp-storage/src/lib.rs, the map of a guardian's records by slot and the printing are left out.
mod Prelude
pub mod Collections
pub mod Types
pub mod Core
pub mod Wire
pub mod Storage
pub mod Crypto
pub mod Network
