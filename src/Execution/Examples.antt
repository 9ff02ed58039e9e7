-- ===== src/Execution/Examples.antt =====
-- A block of three transactions on one counter, which every invocation reads and increases.
use hs_blockchain.Prelude.{
  ◌≡◌, refl, none, some, List, [], ◌∷◌, Bytes, lookup, insert, bytes_eq, has,
}
use hs_blockchain.Execution.Tracker.{Value, new_state_tracker, set_state}
use hs_blockchain.Execution.TxExecuter.{TxInput}
use hs_blockchain.Execution.BlkExecuter.{execute_block, serial_loop}
use hs_blockchain.Execution.Serial.{execute_block-serial_loop}
use hs_blockchain.Execution.Toys.{registry, all_early}

abbrev tx_to : Bytes → Bytes → TxInput
tx_to hash code_addr = record {
  hash = hash;
  code_addr = code_addr;
  input = [];
  sender = some (8 ∷ []);
  block_hash = 7 ∷ [];
  block_height = 1;
}

-- A deployment and two invocations of what it deploys; all of them first see the empty state.
abbrev three_txs : List TxInput
three_txs = tx_to (5 ∷ []) [] ∷ tx_to (6 ∷ []) (5 ∷ []) ∷ tx_to (7 ∷ []) (5 ∷ []) ∷ []

abbrev empty_store : Bytes → Value
empty_store key = none

execute_block-serial_loop_example :
    execute_block registry empty_store all_early three_txs
    ≡ serial_loop registry empty_store (new_state_tracker []) three_txs
execute_block-serial_loop_example =
    execute_block-serial_loop registry empty_store all_early three_txs

-- The counter ends at 2 although both invocations first read a state without it.
counter-two :
    lookup (5 ∷ []) (execute_block registry empty_store all_early three_txs).0.changes
    ≡ some (some (2 ∷ []))
unfolding execute_block lookup insert has set_state bytes_eq
counter-two = refl
