-- ===== src/Execution.antt =====
-- execution/: chaincode calls, the trackers of their state changes, and the execution of a block.
pub mod Tracker
pub mod Chaincode
pub mod TxExecuter
pub mod BlkExecuter
pub mod Bottom
pub mod Agreement
pub mod Steps
pub mod Depth
pub mod Serial
pub mod Execute
pub mod Query
pub mod Changes
pub mod Bincc
pub mod Toys
mod Examples
