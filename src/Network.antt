-- ===== src/Network.antt =====
-- crates/gp-network: what a node checks before it acts on a message.
pub mod Validation
mod Tests
