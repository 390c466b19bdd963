-- ===== src/Rc.antt =====
-- src/dare/dare_ibv_rc.c: what a server writes to the others, and reads from them, over reliable
-- connections.
pub mod Wrid
pub mod State
pub mod Completion
pub mod Send
pub mod Adjust
pub mod Replicate
pub mod WriteLogs
pub mod Wait
pub mod Finished
pub mod WaitMajority
pub mod Vote
pub mod ReplicatedVote
pub mod Parts
pub mod LrStep
pub mod Commit
pub mod Ends
pub mod KeepLog
pub mod Forward
pub mod WriteForward
pub mod Access
pub mod Fence
pub mod Tests
pub mod WaitTests
