-- ===== src/Strategy/Weighted.antt =====
-- GetNextBackendByWeightedRoundRobin of internal/lb/strategy.go: its loop, the current weights after
-- some calls, and a cycle of calls.
pub mod Loop
pub mod Single
pub mod Tracks
pub mod Calls
pub mod Cycle
