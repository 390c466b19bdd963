-- ===== src/Server.antt =====
-- src/dare/dare_server.c: a server of the group, its election, its log and its configuration.
pub mod Sid
pub mod State
pub mod Step
pub mod Gives
pub mod Election
pub mod Vote
pub mod VoteSafety
pub mod HighestTerm
pub mod KeepSid
pub mod VoteRequests
pub mod VoteEnds
pub mod UpdateCid
pub mod Reconfig
pub mod Apply
pub mod Count
pub mod Heartbeat
pub mod Prune
pub mod Recover
pub mod Poll
pub mod Majority
pub mod Candidate
pub mod Stale
pub mod PruneSafety
pub mod PruneHead
pub mod SmRequest
pub mod HbReceive
pub mod Sample
pub mod Tests
