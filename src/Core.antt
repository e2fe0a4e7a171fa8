-- ===== src/Core.antt =====
-- crates/gp-core: the deterministic state machines of recovery and of guardian rotation. Clocks,
-- certificate checks and network observations are arguments. A method on `&mut self` returns the
-- new state with its result; nothing is rolled back on an early return, as in the source.
pub mod Recovery
pub mod Guardian
pub mod Rotation
pub mod Witness
pub mod Epoch
