-- ===== src/Core.antt =====
-- core/: keys and signatures, validators, votes, certificates, blocks and transactions.
pub mod Crypto
pub mod Validators
pub mod Certs
pub mod Blocks
pub mod Quorum
pub mod Building
pub mod Signing
pub mod Wire
mod Examples
