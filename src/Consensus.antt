-- ===== src/Consensus.antt =====
-- consensus/: the rotation of leaders around the engine, and what goes to the engine.
pub mod Rotator
pub mod Views
pub mod Validator
pub mod Handlers
pub mod Admission
pub mod Received
pub mod Voting
mod ValidatorExamples
mod DriverExamples
mod EngineExamples
mod GenesisExamples
mod CleanupExamples
pub mod Cleanup
pub mod Cleaned
pub mod Driver
pub mod Applied
pub mod Leaf
pub mod Models
pub mod Stored
pub mod Certified
pub mod Creation
pub mod Genesis
pub mod Created
pub mod Kept
pub mod Finished
mod Examples
