-- ===== src/Types.antt =====
-- crates/gp-types: the protocol's data types. An `Id32`, and any other array of 32 bytes, is the
-- number that its bytes spell, the first byte the most significant: equality of arrays is equality
-- of numbers, and the transcripts write the bytes back. A `Vec<u8>` is a list of bytes, a `String`
-- the list of its UTF-8 bytes, and an unsigned word a number.
pub mod Basic
pub mod Recovery
pub mod Rotation
pub mod Epoch
pub mod Config
pub mod Ceremony
pub mod Activation
pub mod RecoveryV3
