-- ===== src/Log.antt =====
-- src/include/dare/dare_log.h: the circular buffer of log entries that every server keeps.
pub mod Mem
pub mod State
pub mod Entry
pub mod Offsets
pub mod Scan
pub mod Append
pub mod Tests
pub mod Frame
pub mod Written
pub mod NewEntry
pub mod Layout
pub mod Walk
pub mod Route
pub mod Placed
pub mod Refine
pub mod Push
pub mod Window
pub mod Tail
pub mod Grow
pub mod AppendEntry
pub mod NcBuf
pub mod Brim
pub mod Order
