-- ===== src/Execution/Bincc.antt =====
-- execution/bincc/: a chaincode that runs as a process of its own and talks to the node over two pipes.
pub mod Processes
pub mod Messages
pub mod Programs
pub mod Orders
pub mod Exchange
pub mod Served
pub mod Native
mod Examples
