-- ===== src/Wire.antt =====
-- crates/gp-wire: length-prefixed frames, and the canonical transcripts that are signed and hashed.
pub mod Bytes
pub mod Frame
pub mod Fields
pub mod Transcript
pub mod Messages
pub mod Canonical
pub mod Encoding
pub mod Rotation
mod Tests
