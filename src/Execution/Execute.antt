-- ===== src/Execution/Execute.antt =====
-- execution/execution.go and the entry of execution/blk_executer.go: the execution of a block, its commit
-- record and the changes of the state.
use hs_blockchain.Prelude.{ℕ, Option, none, some, List, [], ◌∷◌, Bytes, map}
use hs_blockchain.Core.Certs.{bytes_or_empty}
use hs_blockchain.Core.Blocks.{PbBlock, PbTransaction, Transaction}
use hs_blockchain.Core.Wire.{StateChange, BlockCommit, PbTxCommit}
use hs_blockchain.Execution.Tracker.{Value, Tracker}
use hs_blockchain.Execution.TxExecuter.{TxInput, Registry, TxCommit}
use hs_blockchain.Execution.BlkExecuter.{Schedule, execute_block}

-- A change as a message. A nil value is as the empty one, in the message and in the database.
abbrev pub state_change : Bytes × Value → StateChange
state_change (key, value) = record {
  key = key;
  value = bytes_or_empty value;
  prev_value = none;
  tree_index = none;
  prev_tree_index = none;
}

-- getStateChanges
unfoldable pub get_state_changes : Tracker → List StateChange
get_state_changes t = map state_change t.changes

-- What an execution reads of a transaction and its block.
abbrev pub tx_input : PbBlock → Transaction → PbTransaction → TxInput
tx_input blk tx pb = record {
  hash = pb.hash;
  code_addr = pb.code_addr;
  input = pb.input;
  sender = elim (tx.sender) [ none ↦ none | some key ↦ some key.key ];
  block_hash = blk.hash;
  block_height = blk.height;
}

-- The transactions of a block; a nil message is a nil pointer.
unfoldable pub tx_inputs : PbBlock → List Transaction → Option (List TxInput)
tx_inputs blk [] = some []
tx_inputs blk (tx ∷ txs) = elim (tx.pb) [
  | none ↦ none
  | some pb ↦ elim (tx_inputs blk txs) [
    | none ↦ none
    | some inputs ↦ some (tx_input blk tx pb ∷ inputs)
  ]
]

-- A commit record, with the time that the execution took.
abbrev pub timed_commit : (Bytes → ℕ) → TxCommit → PbTxCommit
timed_commit times txc = record {
  hash = txc.hash;
  block_hash = txc.block_hash;
  block_height = txc.block_height;
  elapsed = times txc.hash;
  error = txc.error;
}

module _ (reg : Registry) (store : Bytes → Value) where
  -- Execute, and execute of the block's executor. The times are the clock's.
  unfoldable pub execute :
      Schedule → ℕ → (Bytes → ℕ) → PbBlock → List TxInput → BlockCommit × List PbTxCommit
  unfolding execute_block get_state_changes
  execute sched elapsed times blk txs =
      let (root, commits) = execute_block reg store sched txs in
      (
        record {
          hash = blk.hash;
          old_block_txs = [];
          leaf_count = [];
          merkle_root = none;
          elapsed_exec = elapsed;
          elapsed_merkle = 0;
          state_changes = get_state_changes root;
        },
        map (timed_commit times) commits,
      )
