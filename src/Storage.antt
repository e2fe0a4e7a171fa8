-- ===== src/Storage.antt =====
-- crates/gp-storage: what the nodes keep on disk, and the one error type of its operations.
pub mod Witness
pub mod Votes
pub mod Replay
pub mod Epoch
mod Tests

pub data StorageError : Type 0 where
  not_found stale_version wrong_configuration replay conflict : StorageError
  invalid_epoch not_durable no_prepared_successor already_activated injected_failure : StorageError
