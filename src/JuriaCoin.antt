-- ===== src/JuriaCoin.antt =====
-- chaincodes/juriacoin/juria_coin.go: a coin with a minter and balances.
pub mod Coin
pub mod Values
pub mod Transfers
mod Examples
