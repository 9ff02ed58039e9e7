-- ===== src/Storage/Storage.antt =====
-- storage/storage.go: the commit of a block in four transactions, and the verification of a state value.
-- The lock of the state is held through one write or one verification, each of which is one step here.
use hs_blockchain.Prelude.{
  ℕ, Bool, true, false, Option, none, some, List, [], ◌∷◌, ◌++◌, Bytes, if◌then◌else◌,
}
use hs_blockchain.Core.Crypto.{Crypto}
use hs_blockchain.Core.Certs.{PbQuorumCert}
use hs_blockchain.Core.Blocks.{PbBlock, PbTransaction}
use hs_blockchain.Core.Wire.{
  StateChange, BlockCommit, PbTxCommit, Proto, Read, found, failed, panicked,
}
use hs_blockchain.Merkle.TreeCalc.{TreeCalc}
use hs_blockchain.Merkle.Position.{new_position, int_bytes, set_int_bytes}
use hs_blockchain.Merkle.Tree.{Data, Node, UpdateResult, update, root, verify}
use hs_blockchain.Storage.Database.{
  Badger, UpdateFunc, Write, done, failed, panicked, ◌then◌, update_badger_db,
}
use hs_blockchain.Storage.ChainStore.{
  get_block_height, set_block_height, set_block, set_last_qc, set_block_commit, set_txs,
  set_tx_commits,
}
use hs_blockchain.Storage.StateStore.{
  get_state_value, get_merkle_index, load_prev_values, load_prev_tree_indexes, set_new_tree_indexes,
  compute_updated_tree_nodes, commit_state_changes,
}
use hs_blockchain.Storage.MerkleStore.{merkle_store, get_leaf_count, commit_update}

pub record CommitData : Type 0 where
  pub block : PbBlock
  -- the certificate of the committed block, where there is one
  pub qc : Option PbQuorumCert
  pub transactions : List PbTransaction
  pub block_commit : BlockCommit
  pub tx_commits : List PbTxCommit
  pub merkle_update : Option UpdateResult

abbrev pub has_changes : List StateChange → Bool
has_changes [] = false
has_changes (sc ∷ scs) = true

-- What the storage is made of: the database, the codecs, the hash and the tree, and the order in which
-- the workers of a tree's update answer.
pub record Config (D : Type 0) : Type 0 where
  pub db : Badger D
  pub crypto : Crypto
  pub proto : Proto
  pub hash : Bytes → Bytes
  pub tc : TreeCalc
  pub arrive : ℕ → List Node → List Node

module _ {D : Type 0} (cfg : Config D) where
  -- GetBlockHeight: 0 in a store without a block; a stored height has eight bytes.
  unfoldable pub committed_height : D → ℕ
  unfolding get_block_height
  committed_height d = elim (get_block_height (cfg.db) (cfg.crypto) (cfg.proto) d) [
    | found h ↦ h
    | failed ↦ 0
    | panicked ↦ 0
  ]

  -- GetMerkleRoot
  unfoldable pub get_merkle_root : D → Data
  unfolding root merkle_store
  get_merkle_root d = elim (root cfg.hash cfg.tc (merkle_store cfg.db d)) [
    | none ↦ none
    | some n ↦ n.node_data
  ]

  -- VerifyState: nil for a key without a value; a missing leaf and a failed verification panic.
  unfoldable pub verify_state : Bytes → D → Read (Option Bytes)
  unfolding get_state_value get_merkle_index verify merkle_store new_position set_int_bytes
  verify_state key d = elim (get_state_value (cfg.db) d key) [
    | none ↦ found none
    | some value ↦ elim (get_merkle_index (cfg.db) d key) [
      | none ↦ panicked
      | some idx ↦
          let node : Node = record {
            position = new_position 0 (set_int_bytes 0 idx);
            node_data = some (cfg.hash value);
          } in
          elim (verify cfg.hash cfg.tc (merkle_store cfg.db d) cfg.arrive (node ∷ [])) [
            | none ↦ panicked
            | some ok ↦ if ok then found (some value) else panicked
          ]
    ]
  ]

  -- The changes of computeMerkleUpdate with their leaves, and the new leaf count.
  unfoldable pub indexed_changes : D → List StateChange → List StateChange × ℕ
  unfolding load_prev_values load_prev_tree_indexes set_new_tree_indexes get_leaf_count
  indexed_changes d scs =
      set_new_tree_indexes (load_prev_tree_indexes (cfg.db) d (load_prev_values (cfg.db) d scs))
        (get_leaf_count (cfg.db) d)

  -- computeMerkleUpdate; `none` is a panic of Update.
  unfoldable pub compute_merkle_update : D → CommitData → Option CommitData
  unfolding indexed_changes compute_updated_tree_nodes update merkle_store int_bytes
  compute_merkle_update d data' =
      let (scs, leaf_count) = indexed_changes d data'.block_commit.state_changes in
      elim (update cfg.hash cfg.tc (merkle_store cfg.db d) cfg.arrive
        (compute_updated_tree_nodes cfg.hash scs) leaf_count) [
          | none ↦ none
          | some upd ↦ some (record data' {
            merkle_update = some upd;
            block_commit = record (data'.block_commit) {
              leaf_count = int_bytes upd.leaf_count;
              merkle_root = upd.root.node_data;
              state_changes = scs;
            };
          })
        ]

  -- The updates of writeChainData.
  unfoldable pub chain_updates : CommitData → List (UpdateFunc D)
  unfolding set_block set_last_qc set_txs set_tx_commits
  chain_updates data' =
      set_block (cfg.db) (cfg.crypto) (cfg.proto) data'.block
      ++ (set_last_qc (cfg.db) (cfg.crypto) (cfg.proto) data'.qc
          ∷ (set_txs (cfg.db) (cfg.crypto) (cfg.proto) data'.transactions
              ++ set_tx_commits (cfg.db) (cfg.crypto) (cfg.proto) data'.tx_commits))

  -- writeChainData
  unfoldable pub write_chain_data : CommitData → D → Write D
  unfolding chain_updates update_badger_db
  write_chain_data data' = update_badger_db (cfg.db) (chain_updates data')

  -- writeBlockCommit
  unfoldable pub write_block_commit : CommitData → D → Write D
  unfolding set_block_commit update_badger_db
  write_block_commit data' =
      update_badger_db (cfg.db)
        (set_block_commit (cfg.db) (cfg.crypto) (cfg.proto) data'.block_commit ∷ [])

  -- writeStateMerkleTree; changes without an update of the tree are a nil pointer.
  unfoldable pub write_state_merkle_tree : CommitData → D → Write D
  unfolding commit_state_changes commit_update update_badger_db
  write_state_merkle_tree data' d =
      if has_changes data'.block_commit.state_changes
      then elim (data'.merkle_update) [
        | none ↦ panicked d
        | some upd ↦
            update_badger_db (cfg.db)
              (commit_state_changes (cfg.db) data'.block_commit.state_changes
                ++ commit_update (cfg.db) upd)
              d
      ]
      else done d

  -- setCommitedBlockHeight
  unfoldable pub set_committed_block_height : ℕ → D → Write D
  unfolding set_block_height update_badger_db
  set_committed_block_height height =
      update_badger_db (cfg.db) (set_block_height (cfg.db) (cfg.crypto) (cfg.proto) height ∷ [])

  -- writeCommitData
  unfoldable pub write_commit_data : CommitData → D → Write D
  unfolding write_chain_data write_block_commit write_state_merkle_tree set_committed_block_height
  write_commit_data data' d =
      write_chain_data data' d
      then write_block_commit data'
      then write_state_merkle_tree data'
      then set_committed_block_height data'.block.height

  -- commit; `elapsed` is the time that the update of the tree takes.
  unfoldable pub commit : ℕ → CommitData → D → Write D
  unfolding compute_merkle_update write_commit_data
  commit elapsed data' d =
      if has_changes data'.block_commit.state_changes
      then elim (compute_merkle_update d data') [
        | none ↦ panicked d
        | some new ↦
            write_commit_data
              (record new { block_commit = record (new.block_commit) { elapsed_merkle = elapsed } })
              d
      ]
      else write_commit_data data' d
