-- ===== src/Storage.antt =====
-- storage/: the database, the stores of the chain, the state and the tree, and their commit.
pub mod Database
pub mod ChainStore
pub mod StateStore
pub mod MerkleStore
pub mod Storage
pub mod Overlay
pub mod Commits
pub mod Written
pub mod Reads
pub mod Committed
pub mod States
pub mod Failures
pub mod Unfinished
pub mod Verified
pub mod Queries
pub mod Toys
mod VerifiedExamples
mod Examples
