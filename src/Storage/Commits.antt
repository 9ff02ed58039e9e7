-- ===== src/Storage/Commits.antt =====
-- The entries that a commit of storage/storage.go sets in a database whose calls do not fail.
use hs_blockchain.Prelude.{
  ◌≡◌, refl, Bool-cases, Option, none, some, List, [], ◌∷◌, ◌++◌, Bytes, if◌then◌else◌, map, inl,
  inr,
}
use hs_blockchain.Core.Crypto.{be64}
use hs_blockchain.Core.Certs.{PbQuorumCert}
use hs_blockchain.Core.Blocks.{PbBlock, PbTransaction}
use hs_blockchain.Core.Wire.{StateChange, BlockCommit, PbTxCommit, Proto}
use hs_blockchain.Merkle.Position.{int_bytes}
use hs_blockchain.Merkle.Tree.{written, Node, UpdateResult}
use hs_blockchain.Storage.Database.{◌then◌}
use hs_blockchain.Storage.ChainStore.{
  set_marshalled, set_block, set_block_by_hash, set_block_hash_by_height, set_last_qc, set_tx,
  set_txs, set_tx_commit, set_tx_commits,
}
use hs_blockchain.Storage.StateStore.{
  set_state_value, set_tree_index, moves_leaf, commit_state_change, commit_state_changes,
}
use hs_blockchain.Storage.MerkleStore.{
  set_merkle_node, set_merkle_nodes, set_leaf_count, set_tree_height, commit_update,
}
use hs_blockchain.Storage.Storage.{CommitData, Config, chain_updates}
use hs_blockchain.Storage.Overlay.{Entry, Sets, AllSets, AllSets-append, AllSets-map}

-- proto.Marshal does not fail on the messages.
pub record Marshals (proto : Proto) : Type 0 where
  pub block : (m : PbBlock) → (b : Bytes) × (proto.marshal_block m ≡ some b)
  pub qc : (m : PbQuorumCert) → (b : Bytes) × (proto.marshal_qc m ≡ some b)
  pub tx : (m : PbTransaction) → (b : Bytes) × (proto.marshal_tx m ≡ some b)
  pub block_commit : (m : BlockCommit) → (b : Bytes) × (proto.marshal_block_commit m ≡ some b)
  pub tx_commit : (m : PbTxCommit) → (b : Bytes) × (proto.marshal_tx_commit m ≡ some b)

module _ (proto : Proto) where
  abbrev pub block_entries : PbBlock → List Entry
  block_entries blk =
      some (1 ∷ blk.hash, written (proto.marshal_block blk))
      ∷ some (2 ∷ be64 blk.height, blk.hash)
      ∷ []

  abbrev pub qc_entry : Option PbQuorumCert → Entry
  qc_entry none = none
  qc_entry (some qc) = some (4 ∷ [], written (proto.marshal_qc qc))

  abbrev pub tx_entry : PbTransaction → Entry
  tx_entry tx = some (7 ∷ tx.hash, written (proto.marshal_tx tx))

  abbrev pub tx_commit_entry : PbTxCommit → Entry
  tx_commit_entry txc = some (8 ∷ txc.hash, written (proto.marshal_tx_commit txc))

  abbrev pub chain_entries : CommitData → List Entry
  chain_entries data' =
      block_entries data'.block
      ++ (qc_entry data'.qc
          ∷ (map tx_entry data'.transactions ++ map tx_commit_entry data'.tx_commits))

  abbrev pub commit_entries : CommitData → List Entry
  commit_entries data' =
      some (5 ∷ data'.block_commit.hash, written (proto.marshal_block_commit data'.block_commit))
      ∷ []

abbrev pub change_entries : StateChange → List Entry
change_entries sc =
    some (9 ∷ sc.key, sc.value)
    ∷ (if moves_leaf sc then some (10 ∷ sc.key, written sc.tree_index) ∷ [] else [])

abbrev pub changes_entries : List StateChange → List Entry
changes_entries [] = []
changes_entries (sc ∷ scs) = change_entries sc ++ changes_entries scs

abbrev pub node_entry : Node → Entry
node_entry n = some (13 ∷ n.position.bytes, written n.node_data)

abbrev pub tree_entries : UpdateResult → List Entry
tree_entries upd =
    map node_entry upd.leaves
    ++ (map node_entry upd.branches
        ++ (some (12 ∷ [], int_bytes upd.leaf_count) ∷ some (11 ∷ [], upd.height ∷ []) ∷ []))

abbrev pub state_entries : List StateChange → Option UpdateResult → List Entry
state_entries [] upd = []
state_entries (sc ∷ scs) none = []
state_entries (sc ∷ scs) (some upd) = changes_entries (sc ∷ scs) ++ tree_entries upd

abbrev pub height_entries : CommitData → List Entry
height_entries data' = some (3 ∷ [], be64 data'.block.height) ∷ []

-- All entries of a commit, in order.
abbrev pub all_entries : Proto → CommitData → List Entry
all_entries proto data' =
    chain_entries proto data'
    ++ (commit_entries proto data'
        ++ (state_entries data'.block_commit.state_changes data'.merkle_update
            ++ height_entries data'))

module _ {D : Type 0} (cfg : Config D) (marshals : Marshals cfg.proto) where
  pub set_marshalled-written :
      (k : Bytes) (m : Option Bytes) (d : D)
      → (b : Bytes) × (m ≡ some b)
      → set_marshalled (cfg.db) (cfg.crypto) (cfg.proto) k m d ≡ cfg.db.set k (written m) d
  unfolding set_marshalled
  set_marshalled-written k m d (b, e) = rw e refl

  qc-Sets :
      (qc : Option PbQuorumCert)
      → Sets cfg.db (set_last_qc (cfg.db) (cfg.crypto) (cfg.proto) qc) (qc_entry cfg.proto qc)
  unfolding set_last_qc
  qc-Sets none = λ d. refl
  qc-Sets (some qc) = λ d. set_marshalled-written (4 ∷ []) _ d (marshals.qc qc)

  pub chain-AllSets :
      (data' : CommitData)
      → AllSets cfg.db (chain_updates cfg data') (chain_entries cfg.proto data')
  unfolding chain_updates set_block set_block_by_hash set_block_hash_by_height set_txs set_tx
      set_tx_commits set_tx_commit
  chain-AllSets data' = (
    λ d. set_marshalled-written (1 ∷ data'.block.hash) _ d (marshals.block data'.block),
    (
      λ d. refl,
      (
        qc-Sets data'.qc,
        AllSets-append cfg.db _ _ _ _
            (AllSets-map cfg.db _ (tx_entry cfg.proto) data'.transactions
              (λ tx d. set_marshalled-written (7 ∷ tx.hash) _ d (marshals.tx tx)))
            (AllSets-map cfg.db _ (tx_commit_entry cfg.proto) data'.tx_commits
              (λ txc d. set_marshalled-written (8 ∷ txc.hash) _ d (marshals.tx_commit txc))),
      ),
    ),
  )

  change-AllSets :
      (sc : StateChange) → AllSets cfg.db (commit_state_change cfg.db sc) (change_entries sc)
  unfolding commit_state_change set_state_value set_tree_index
  change-AllSets sc = elim (Bool-cases (moves_leaf sc)) [
    | inl e ↦ rw e (λ d. refl, (λ d. refl, tt))
    | inr e ↦ rw e (λ d. refl, tt)
  ]

  pub changes-AllSets :
      (scs : List StateChange)
      → AllSets cfg.db (commit_state_changes cfg.db scs) (changes_entries scs)
  unfolding commit_state_changes
  changes-AllSets [] = tt
  changes-AllSets (sc ∷ scs) =
      AllSets-append cfg.db (commit_state_change cfg.db sc) (commit_state_changes cfg.db scs)
        (change_entries sc) (changes_entries scs) (change-AllSets sc) (changes-AllSets scs)

  pub tree-AllSets :
      (upd : UpdateResult) → AllSets cfg.db (commit_update cfg.db upd) (tree_entries upd)
  unfolding commit_update set_merkle_nodes set_merkle_node set_leaf_count set_tree_height
  tree-AllSets upd =
      AllSets-append cfg.db _ _ _ _ (AllSets-map cfg.db _ node_entry upd.leaves (λ n d. refl)) (
        AllSets-append cfg.db _ _ _ _ (AllSets-map cfg.db _ node_entry upd.branches (λ n d. refl))
          (λ d. refl, (λ d. refl, tt)))
