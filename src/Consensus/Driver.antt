-- ===== src/Consensus/Driver.antt =====
-- consensus/hs_driver.go: what the engine's calls do in the node, over the pool, the execution and the
-- storage. The engine makes one call at a time. The delay of a vote for a pool without transactions is left
-- out.
use hs_blockchain.Prelude.{
  ℕ, ◌+◌, ◌%◌, ◌^◌, Map, insert, Option, none, some, List, [], ◌∷◌, Bytes, if◌then◌else◌, ◌==◌,
  length,
}
use hs_blockchain.Core.Crypto.{Checked, ok, ◌>>=◌}
use hs_blockchain.Core.Validators.{ValidatorStore, get_validator_index}
use hs_blockchain.Core.Certs.{
  PbQuorumCert, QuorumCert, Vote, bytes_or_empty, new_quorum_cert, build_qc,
}
use hs_blockchain.Core.Blocks.{
  Signer, PbBlock, Block, PbTransaction, Transaction, sign_block, block_vote,
}
use hs_blockchain.Execution.TxExecuter.{TxInput, Registry}
use hs_blockchain.Execution.BlkExecuter.{Schedule}
use hs_blockchain.Execution.Execute.{tx_inputs, execute}
use hs_blockchain.Storage.Database.{Write, done, failed, panicked}
use hs_blockchain.Storage.ChainStore.{has_tx}
use hs_blockchain.Storage.StateStore.{get_state_value}
use hs_blockchain.Storage.Storage.{CommitData, Config, committed_height, get_merkle_root, commit}
use hs_blockchain.TxPool.TxStore.{pop_txs_from_queue, set_txs_pending}
use hs_blockchain.TxPool.Sync.{Pool, get_txs_to_execute}
use hs_blockchain.Consensus.Cleanup.{Pools, get_qc, clean_state_on_committed}

-- The parts of a node: the storage, the registry of the execution, the pool's other parts, the keys, and
-- what the clock and the scheduler give during a call.
pub record Node (D : Type 0) : Type 0 where
  pub storage : Config D
  pub registry : Registry
  pub pool : Pool
  pub signer : Signer
  pub vld_store : ValidatorStore
  pub block_tx_limit : ℕ
  pub now : ℕ
  pub schedule : Schedule
  pub elapsed_exec : ℕ
  pub elapsed_merkle : ℕ
  pub tx_times : Bytes → ℕ

pub record State (D : Type 0) : Type 0 where
  pub db : D
  pub pools : Pools Transaction
  pub leader_index : ℕ
  pub committed_tx_count : ℕ

-- How Commit ends: `fatal` ends the process.
pub data Ending (D : Type 0) : Type 0 where
  committed : State D → Ending D
  fatal : Ending D

-- The messages of transactions; tx_inputs has met none that is nil.
unfoldable pub messages : List Transaction → List PbTransaction
messages [] = []
messages (tx ∷ txs) = let rest = messages txs in elim (tx.pb) [ none ↦ rest | some pb ↦ pb ∷ rest ]

-- The message of a certificate, where there is one.
abbrev pub qc_message : Option QuorumCert → Option PbQuorumCert
qc_message none = none
qc_message (some qc) = qc.pb

module _ {D : Type 0} (node : Node D) where
  -- The block of CreateLeaf before Sign, with the transactions that the queue gives.
  unfoldable pub unsigned_leaf : PbBlock → QuorumCert → ℕ → List Bytes → D → PbBlock
  unfolding committed_height get_merkle_root
  unsigned_leaf parent qc height hashes d = record {
    hash = [];
    height = height;
    parent_hash = parent.hash;
    proposer = [];
    quorum_cert = qc.pb;
    exec_height = committed_height node.storage d;
    merkle_root = bytes_or_empty (get_merkle_root node.storage d);
    timestamp = node.now;
    transactions = hashes;
    signature = [];
  }

  -- CreateLeaf: the block, and the state with the block and without the transactions of the queue.
  unfoldable pub create_leaf : PbBlock → QuorumCert → ℕ → State D → Block × State D
  unfolding unsigned_leaf sign_block pop_txs_from_queue
  create_leaf parent qc height s =
      let (hashes, store) = pop_txs_from_queue node.block_tx_limit s.pools.txs in
      let blk =
        sign_block node.storage.crypto node.signer (unsigned_leaf parent qc height hashes s.db)
          (some qc) in
      let blocks : Map PbBlock = elim (blk.pb) [
        | none ↦ s.pools.blocks
        | some pb ↦ insert pb.hash pb s.pools.blocks
      ] in
      (blk, record s { pools = record (s.pools) { txs = store; blocks = blocks } })

  -- CreateQC
  unfoldable pub create_qc : List Vote → Checked QuorumCert
  create_qc votes = build_qc new_quorum_cert votes

  -- VoteBlock: the vote that is sent, if the proposer is still the leader.
  unfoldable pub vote_block : Block → PbBlock → State D → Checked (Option Vote) × State D
  unfolding set_txs_pending
  vote_block blk pb s = (
    block_vote node.storage.crypto node.signer pb >>= λ vote. ok (
        if get_validator_index node.vld_store blk.proposer == s.leader_index
        then some vote
        else none),
    record s { pools = record (s.pools) { txs = set_txs_pending pb.transactions s.pools.txs } },
  )

  -- The pool over the storage.
  abbrev pub pool_over : D → Pool
  pool_over d = record (node.pool) {
    has_tx = λ hash. has_tx node.storage.db node.storage.crypto node.storage.proto hash d;
  }

  -- What Commit hands to the storage.
  unfoldable pub commit_data :
      PbBlock → List Transaction → List Bytes → List TxInput → State D → CommitData
  unfolding execute get_qc messages
  commit_data bexe txs old inputs s =
      let (bcm, txcs) =
        execute node.registry (get_state_value node.storage.db s.db) node.schedule node.elapsed_exec
          node.tx_times bexe inputs in
      record {
        block = bexe;
        qc = qc_message (get_qc bexe.hash s.pools);
        transactions = messages txs;
        block_commit = record bcm { old_block_txs = old };
        tx_commits = txcs;
        merkle_update = none;
      }

  -- The end of Commit, after the storage's.
  unfoldable pub after_commit : PbBlock → ℕ → State D → Write D → Ending D
  unfolding clean_state_on_committed
  after_commit bexe count s (done d) = committed (record s {
    db = d;
    committed_tx_count = (s.committed_tx_count + count) % 2 ^ 64;
    pools = clean_state_on_committed bexe s.pools;
  })
  after_commit bexe count s (failed d) = fatal
  after_commit bexe count s (panicked d) = fatal

  -- Commit, with the transactions to execute.
  unfoldable pub commit_txs :
      PbBlock → List Transaction → List Bytes → Option (List TxInput) → State D → Ending D
  unfolding commit_data after_commit commit
  commit_txs bexe txs old none s = fatal
  commit_txs bexe txs old (some inputs) s =
      after_commit bexe (length txs) s
        (commit node.storage node.elapsed_merkle (commit_data bexe txs old inputs s) s.db)

  unfoldable pub commit_found :
      PbBlock → Option (List Transaction × List Bytes) → State D → Ending D
  unfolding commit_txs tx_inputs
  commit_found bexe none s = fatal
  commit_found bexe (some (txs, old)) s = commit_txs bexe txs old (tx_inputs bexe txs) s

  -- Commit
  unfoldable pub commit_block : PbBlock → State D → Ending D
  unfolding commit_found get_txs_to_execute
  commit_block bexe s =
      let (found, store) = get_txs_to_execute (pool_over s.db) bexe.transactions s.pools.txs in
      commit_found bexe found (record s { pools = record (s.pools) { txs = store } })
