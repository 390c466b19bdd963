-- ===== src/Config.antt =====
-- src/include/dare/dare_config.h: the group configuration.
pub mod Cid
