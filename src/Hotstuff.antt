-- ===== src/Hotstuff.antt =====
-- hotstuff/: the consensus engine of one replica.
pub mod Types
pub mod State
pub mod Engine
pub mod Ancestry
pub mod Commits
pub mod Runs
pub mod Frames
pub mod Safety
pub mod Voting
pub mod Quorums
mod Examples
