-- ===== src/Collections.antt =====
-- `BTreeMap` and `BTreeSet` of the standard library, as far as the program uses them.
pub mod Map
pub mod Set
