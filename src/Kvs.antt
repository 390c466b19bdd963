-- ===== src/Kvs.antt =====
-- src/dare/dare_kvs_sm.c: the key-value store that the state machine is created with.
pub mod Key
pub mod Chain
pub mod Table
pub mod Lookup
pub mod Size
pub mod Spec
pub mod Tests
