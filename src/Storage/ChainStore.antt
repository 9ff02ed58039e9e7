-- ===== src/Storage/ChainStore.antt =====
-- storage/chain_store.go: blocks, certificates, transactions and their commits in the database. A block,
-- a certificate and a transaction are stored as their messages.
use hs_blockchain.Prelude.{ℕ, Bool, Option, none, some, List, [], ◌∷◌, Bytes, map, ◌+◌, ◌*◌}
use hs_blockchain.Core.Crypto.{Crypto, be64}
use hs_blockchain.Core.Certs.{PbQuorumCert, QuorumCert}
use hs_blockchain.Core.Blocks.{PbBlock, Block, PbTransaction, Transaction}
use hs_blockchain.Core.Wire.{
  BlockCommit, PbTxCommit, Proto, Read, found, panicked, ◌>>=◌, from_option, unmarshal_block,
  unmarshal_qc, unmarshal_tx,
}
use hs_blockchain.Storage.Database.{
  Badger, UpdateFunc, has_key, column, col_block_by_hash, col_block_hash_by_height,
  col_block_height, col_last_qc, col_block_commit_by_hash, col_tx_by_hash, col_tx_commit_by_hash,
}

-- binary.BigEndian.Uint64; fewer than eight bytes are a panic.
unfoldable pub be64_value : Bytes → Read ℕ
be64_value (a ∷ b ∷ c ∷ d ∷ e ∷ f ∷ g ∷ h ∷ rest) =
    found (((((((a * 256 + b) * 256 + c) * 256 + d) * 256 + e) * 256 + f) * 256 + g) * 256 + h)
be64_value _ = panicked

module _ {D : Type 0} (db : Badger D) (c : Crypto) (proto : Proto) where
  -- getBlockHeight
  unfoldable pub get_block_height : D → Read ℕ
  unfolding be64_value
  get_block_height d = from_option (db.get (column col_block_height []) d) >>= be64_value

  -- getBlockHashByHeight
  unfoldable pub get_block_hash_by_height : ℕ → D → Read Bytes
  unfolding be64
  get_block_hash_by_height height d =
      from_option (db.get (column col_block_hash_by_height (be64 height)) d)

  -- getBlock
  unfoldable pub get_block : Bytes → D → Read Block
  unfolding unmarshal_block
  get_block hash d =
      from_option (db.get (column col_block_by_hash hash) d) >>= unmarshal_block c proto

  -- getBlockByHeight
  unfoldable pub get_block_by_height : ℕ → D → Read Block
  unfolding get_block get_block_hash_by_height
  get_block_by_height height d = get_block_hash_by_height height d >>= λ hash. get_block hash d

  -- getLastBlock
  unfoldable pub get_last_block : D → Read Block
  unfolding get_block_height get_block_by_height
  get_last_block d = get_block_height d >>= λ height. get_block_by_height height d

  -- getLastQC
  unfoldable pub get_last_qc : D → Read QuorumCert
  unfolding unmarshal_qc
  get_last_qc d = from_option (db.get (column col_last_qc []) d) >>= unmarshal_qc c proto

  -- getBlockCommit
  unfoldable pub get_block_commit : Bytes → D → Read BlockCommit
  get_block_commit hash d = from_option (db.get (column col_block_commit_by_hash hash) d) >>= λ b.
      from_option (proto.unmarshal_block_commit b)

  -- getTx
  unfoldable pub get_tx : Bytes → D → Read Transaction
  unfolding unmarshal_tx
  get_tx hash d = from_option (db.get (column col_tx_by_hash hash) d) >>= unmarshal_tx c proto

  -- hasTx
  unfoldable pub has_tx : Bytes → D → Bool
  unfolding has_key
  has_tx hash d = has_key db (column col_tx_by_hash hash) d

  -- getTxCommit
  unfoldable pub get_tx_commit : Bytes → D → Read PbTxCommit
  get_tx_commit hash d = from_option (db.get (column col_tx_commit_by_hash hash) d) >>= λ b.
      from_option (proto.unmarshal_tx_commit b)

  -- What is set of a message: the error of Marshal, or Set.
  unfoldable pub set_marshalled : Bytes → Option Bytes → UpdateFunc D
  set_marshalled key none d = none
  set_marshalled key (some val) d = db.set key val d

  -- setBlockHeight
  unfoldable pub set_block_height : ℕ → UpdateFunc D
  unfolding be64
  set_block_height height d = db.set (column col_block_height []) (be64 height) d

  -- setBlockByHash
  unfoldable pub set_block_by_hash : PbBlock → UpdateFunc D
  unfolding set_marshalled
  set_block_by_hash blk =
      set_marshalled (column col_block_by_hash blk.hash) (proto.marshal_block blk)

  -- setBlockHashByHeight
  unfoldable pub set_block_hash_by_height : PbBlock → UpdateFunc D
  unfolding be64
  set_block_hash_by_height blk d =
      db.set (column col_block_hash_by_height (be64 blk.height)) blk.hash d

  -- setBlock
  unfoldable pub set_block : PbBlock → List (UpdateFunc D)
  unfolding set_block_by_hash set_block_hash_by_height
  set_block blk = set_block_by_hash blk ∷ set_block_hash_by_height blk ∷ []

  -- setLastQC; a block may have no certificate.
  unfoldable pub set_last_qc : Option PbQuorumCert → UpdateFunc D
  unfolding set_marshalled
  set_last_qc none d = some d
  set_last_qc (some qc) d = set_marshalled (column col_last_qc []) (proto.marshal_qc qc) d

  -- setBlockCommit
  unfoldable pub set_block_commit : BlockCommit → UpdateFunc D
  unfolding set_marshalled
  set_block_commit bcm =
      set_marshalled (column col_block_commit_by_hash bcm.hash) (proto.marshal_block_commit bcm)

  -- setTx
  unfoldable pub set_tx : PbTransaction → UpdateFunc D
  unfolding set_marshalled
  set_tx tx = set_marshalled (column col_tx_by_hash tx.hash) (proto.marshal_tx tx)

  -- setTxs
  unfoldable pub set_txs : List PbTransaction → List (UpdateFunc D)
  unfolding set_tx
  set_txs txs = map set_tx txs

  -- setTxCommit
  unfoldable pub set_tx_commit : PbTxCommit → UpdateFunc D
  unfolding set_marshalled
  set_tx_commit txc =
      set_marshalled (column col_tx_commit_by_hash txc.hash) (proto.marshal_tx_commit txc)

  -- setTxCommits
  unfoldable pub set_tx_commits : List PbTxCommit → List (UpdateFunc D)
  unfolding set_tx_commit
  set_tx_commits txcs = map set_tx_commit txcs
