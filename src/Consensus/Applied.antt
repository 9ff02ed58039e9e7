-- ===== src/Consensus/Applied.antt =====
-- consensus/hs_driver.go: what a commit of the engine leaves in the node's storage, against the serial
-- execution of the block.
use hs_blockchain.Prelude.{
  ℕ, ◌≡◌, ◌∙◌, refl, sym, ap, subst, Option, some, List, [], Bytes, map, lookup, length, ◌+◌, ◌%◌,
  ◌^◌, ◌<◌, ◌≤◌,
}
use hs_blockchain.Core.Blocks.{PbBlock, Block, Transaction}
use hs_blockchain.Core.Wire.{found, unmarshal_block}
use hs_blockchain.Execution.Tracker.{Tracker, new_state_tracker}
use hs_blockchain.Execution.TxExecuter.{TxInput}
use hs_blockchain.Execution.BlkExecuter.{serial_loop}
use hs_blockchain.Execution.Serial.{execute_block-serial_loop}
use hs_blockchain.Execution.Execute.{get_state_changes, tx_inputs, execute}
use hs_blockchain.Execution.Changes.{stored, last_value-serial_loop}
use hs_blockchain.Merkle.Levels.{IsShuffle}
use hs_blockchain.Merkle.Tree.{written}
use hs_blockchain.Storage.Database.{IsDatabase, IsReliable}
use hs_blockchain.Storage.ChainStore.{get_last_block}
use hs_blockchain.Storage.StateStore.{get_state_value}
use hs_blockchain.Storage.Storage.{indexed_changes}
use hs_blockchain.Storage.Commits.{Marshals}
use hs_blockchain.Storage.Committed.{commit-get_last_block}
use hs_blockchain.Storage.States.{pair_of, last_value, commit-HoldsValues}
use hs_blockchain.TxPool.Sync.{get_txs_to_execute}
use hs_blockchain.Consensus.Cleanup.{clean_state_on_committed}
use hs_blockchain.Consensus.Driver.{
  Node, State, committed, commit_data, after_commit, commit_txs, commit_found, pool_over,
  commit_block,
}

-- The reference: the state that the transactions leave, one after the other, over the node's state.
abbrev pub serial_end : {D : Type 0} → Node D → State D → List TxInput → Tracker
serial_end node s inputs =
    (serial_loop node.registry (get_state_value node.storage.db s.db) (new_state_tracker [])
      inputs).0

module _ {D : Type 0} (node : Node D) (two : 1 < node.storage.tc.bfactor)
    (shuffles : (k : ℕ) → IsShuffle (node.storage.arrive k))
    (marshals : Marshals node.storage.proto) (lawful : IsDatabase node.storage.db)
    (reliable : IsReliable node.storage.db) where
  commit_data-changes :
      (bexe : PbBlock) (txs : List Transaction) (old : List Bytes) (inputs : List TxInput)
      (s : State D)
      → (commit_data node bexe txs old inputs s).block_commit.state_changes
        ≡ get_state_changes (serial_end node s inputs)
  unfolding commit_data execute
  commit_data-changes bexe txs old inputs s =
      ap (λ r. get_state_changes r.0)
        (execute_block-serial_loop node.registry (get_state_value node.storage.db s.db)
          node.schedule inputs)

  commit_data-values :
      (bexe : PbBlock) (txs : List Transaction) (old : List Bytes) (inputs : List TxInput)
      (s : State D) (key : Bytes) (x : Option Bytes)
      → last_value key
          (map pair_of (commit_data node bexe txs old inputs s).block_commit.state_changes)
          x
        ≡ stored (lookup key (serial_end node s inputs).changes) x
  commit_data-values bexe txs old inputs s key x =
      ap (λ scs. last_value key (map pair_of scs) x) (commit_data-changes bexe txs old inputs s)
      ∙ last_value-serial_loop node.registry (get_state_value node.storage.db s.db) inputs key x

  -- The engine commits a block of which the pool has the transactions that are not stored yet, in a node
  -- with a lawful database whose calls do not fail, codecs that do not fail, a tree of branch factor at
  -- least 2, workers that answer in any order, leaves that at most 254 levels of branching hold, and a
  -- height below 2^64. Whatever the concurrent workers of the execution read, Commit ends well: the last
  -- block in the storage is the block as its encoding loads, each key of the state has the value that
  -- the serial execution of these transactions over the state before gives it, a nil value as the empty
  -- one, or its value before where that execution does not set it, and the number of committed
  -- transactions grows by theirs, modulo 2^64.
  pub commit_block-serial :
      (bexe : PbBlock) (blk : Block) (txs : List Transaction) (old : List Bytes)
      (inputs : List TxInput) (k : ℕ) (s : State D)
      → (get_txs_to_execute (pool_over node s.db) bexe.transactions s.pools.txs).0 ≡ some (txs, old)
      → tx_inputs bexe txs ≡ some inputs
      → (indexed_changes node.storage s.db (get_state_changes (serial_end node s inputs))).1
        ≤ node.storage.tc.bfactor ^ k
      → k < 255
      → bexe.height < 2 ^ 64
      → unmarshal_block node.storage.crypto node.storage.proto
          (written (node.storage.proto.marshal_block bexe))
        ≡ found blk
      → (s' : State D) × (commit_block node bexe s ≡ committed s')
        × (get_last_block node.storage.db node.storage.crypto node.storage.proto s'.db ≡ found blk)
        × ((key : Bytes)
            → get_state_value node.storage.db s'.db key
              ≡ stored
                  (lookup key (serial_end node s inputs).changes)
                  (get_state_value node.storage.db s.db key))
        × (s'.committed_tx_count ≡ (s.committed_tx_count + length txs) % 2 ^ 64)
  unfolding commit_block commit_found commit_txs after_commit commit_data
  commit_block-serial bexe blk txs old inputs k s taken read fits low small loads =
      let cfg = node.storage in
      let store = get_txs_to_execute (pool_over node s.db) bexe.transactions s.pools.txs in
      let s₁ = record s { pools = record (s.pools) { txs = store.1 } } in
      let data' = commit_data node bexe txs old inputs s₁ in
      let fits' : (indexed_changes cfg s.db data'.block_commit.state_changes).1
          ≤ cfg.tc.bfactor ^ k =
        subst (λ scs. (indexed_changes cfg s.db scs).1 ≤ cfg.tc.bfactor ^ k)
          (sym (commit_data-changes bexe txs old inputs s₁)) fits in
      let (d', runs, last, block, height, stored_txs) =
        commit-get_last_block cfg two shuffles marshals lawful reliable data' blk
          node.elapsed_merkle k s.db fits' low small loads in
      let holds =
        commit-HoldsValues cfg two shuffles marshals lawful reliable data' node.elapsed_merkle k
          s.db d' fits' low runs in
      (
        record s₁ {
          db = d';
          committed_tx_count = (s.committed_tx_count + length txs) % 2 ^ 64;
          pools = clean_state_on_committed bexe s₁.pools;
        },
        ap (λ o. commit_found node bexe o s₁) taken
            ∙ (ap (λ i. commit_txs node bexe txs old i s₁) read
                ∙ ap (after_commit node bexe (length txs) s₁) runs),
        last,
        λ key.
            holds key
            ∙ commit_data-values bexe txs old inputs s₁ key (get_state_value cfg.db s.db key),
        refl,
      )
