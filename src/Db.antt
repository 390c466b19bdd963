-- ===== src/Db.antt =====
-- src/db/db-interface.c: the records that the proxy stores, and that a snapshot is made of.
pub mod Records
pub mod Dump
pub mod Tests
