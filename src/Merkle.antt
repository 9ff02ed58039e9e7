-- ===== src/Merkle.antt =====
-- merkle/: the Merkle tree of the state.
pub mod TreeCalc
pub mod Position
pub mod Tree
pub mod Encoding
pub mod Shape
pub mod Spec
pub mod Groups
pub mod Parents
pub mod Levels
pub mod Updates
pub mod Commit
pub mod Loop
pub mod Results
pub mod Refines
pub mod Returns
pub mod Verify
mod Examples
mod UpdateExamples
