-- ===== src/TxPool/Available.antt =====
-- What a synchronisation of txpool/txpool.go makes available.
use hs_blockchain.TxPool.TxStore.{TxStore}
