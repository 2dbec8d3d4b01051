-- ===== src/Reputation.antt =====
-- pkg/reputation: the reputation of peers.
pub mod Double
pub mod Records
pub mod Scoring
pub mod Tracker
pub mod Consistency
pub mod Runs
pub mod Soundness
pub mod Ranking
mod Tests
