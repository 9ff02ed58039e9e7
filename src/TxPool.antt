-- ===== src/TxPool.antt =====
-- txpool/: the pool of transactions that wait for a block.
pub mod TxStore
pub mod Queues
pub mod Pooled
pub mod Sync
pub mod Arrived
pub mod Available
mod Examples
mod SyncExamples
