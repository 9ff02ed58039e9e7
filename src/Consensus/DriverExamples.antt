-- ===== src/Consensus/DriverExamples.antt =====
-- The commit of a first block, of which the one transaction deploys a counter.
use hs_blockchain.Prelude.{
  ◌≡◌, refl, ◌+◌, ◌%◌, ◌^◌, ◌≤◌, true, false, some, none, List, [], ◌∷◌, Bytes, arith, replicate,
  lookup, insert, has, bytes_eq,
}
use hs_blockchain.Core.Crypto.{ok}
use hs_blockchain.Core.Blocks.{
  PbBlock, Transaction, Signer, set_block_data, validate_block, proposer_vote,
}
use hs_blockchain.Core.Certs.{QuorumCert, Vote, set_qc_data, validate_qc, validate_vote}
use hs_blockchain.Core.Signing.{IsKeyPair}
use hs_blockchain.Core.Validators.{is_validator, new_validator_store}
use hs_blockchain.Core.Wire.{found}
use hs_blockchain.Execution.Tracker.{set_state}
use hs_blockchain.Execution.TxExecuter.{TxInput}
use hs_blockchain.Execution.BlkExecuter.{serial_loop}
use hs_blockchain.Execution.Toys.{registry, all_early}
use hs_blockchain.Execution.Changes.{stored}
use hs_blockchain.Execution.Execute.{tx_input, tx_inputs, get_state_changes}
use hs_blockchain.Storage.Toys.{
  Memory, memory, memory-IsDatabase, memory-IsReliable, plain, genesis, first_tx, one_block,
  one_block-Marshals, config, config-shuffles, genesis_block, genesis-loads,
}
use hs_blockchain.Storage.StateStore.{bytes_less, get_state_value}
use hs_blockchain.Storage.ChainStore.{get_last_block, has_tx}
use hs_blockchain.Storage.Storage.{indexed_changes}
use hs_blockchain.TxPool.TxStore.{new_tx_store, add_new_tx}
use hs_blockchain.TxPool.Sync.{get_txs_to_execute}
use hs_blockchain.Consensus.Driver.{Node, State, committed, pool_over, create_leaf, commit_block}
use hs_blockchain.Consensus.Leaf.{create_leaf-accepted}
use hs_blockchain.Consensus.Applied.{serial_end, commit_block-serial}

abbrev deployment : Transaction
deployment = record { pb = some first_tx; sender = none }

abbrev pub signer : Signer
signer = record {
  sign = λ msg. record {
    pb = record { pub_key = replicate 32 7; value = [] };
    pub_key = record { key = replicate 32 7; key_str = replicate 32 7 };
  };
  public_key = record { key = replicate 32 7; key_str = replicate 32 7 };
}

abbrev one_node : Node Memory
one_node = record {
  storage = config memory;
  registry = registry;
  pool = record {
    crypto = plain;
    has_tx = λ h. false;
    verify_tx = λ tx. true;
    request_tx_list = λ peer hs. none;
    now = 4;
    arrive = λ txs. txs;
  };
  signer = signer;
  vld_store = new_validator_store [];
  block_tx_limit = 10;
  now = 5;
  schedule = all_early;
  elapsed_exec = 2;
  elapsed_merkle = 3;
  tx_times = λ hash. 1;
}

abbrev at_first : State Memory
at_first = record {
  db = [];
  pools = record {
    blocks = (1 ∷ [], genesis) ∷ [];
    committed = [];
    qcs = [];
    committed_height = 0;
    txs = add_new_tx 4 (2 ∷ []) deployment new_tx_store;
  };
  leader_index = 0;
  committed_tx_count = 6;
}

abbrev one_input : List TxInput
one_input = tx_input genesis deployment first_tx ∷ []

one_taken :
    (get_txs_to_execute (pool_over one_node []) genesis.transactions at_first.pools.txs).0
    ≡ some (deployment ∷ [], [])
unfolding get_txs_to_execute add_new_tx new_tx_store has_tx lookup insert has bytes_eq
one_taken = refl

one_read : tx_inputs genesis (deployment ∷ []) ≡ some one_input
unfolding tx_inputs
one_read = refl

two_leaves :
    (indexed_changes
      (config memory)
      []
      (get_state_changes (serial_end one_node at_first one_input))).1
    ≤ 8 ^ 1
unfolding indexed_changes get_state_changes serial_loop lookup insert has bytes_eq set_state
    bytes_less
two_leaves = omega arith

-- The counter has its code and its first value.
two_values : lookup (2 ∷ []) (serial_end one_node at_first one_input).changes ≡ some (some (0 ∷ []))
unfolding serial_loop lookup insert has bytes_eq set_state
two_values = refl

commit_block-serial_example :
    (s' : State Memory) × (commit_block one_node genesis at_first ≡ committed s')
    × (get_last_block memory plain one_block s'.db ≡ found genesis_block)
    × ((key : Bytes)
        → get_state_value memory s'.db key
          ≡ stored
              (lookup key (serial_end one_node at_first one_input).changes)
              (get_state_value memory [] key))
    × (s'.committed_tx_count ≡ (6 + 1) % 2 ^ 64)
commit_block-serial_example =
    commit_block-serial one_node (omega arith) config-shuffles one_block-Marshals memory-IsDatabase
      memory-IsReliable genesis genesis_block (deployment ∷ []) [] one_input 1 at_first one_taken
      one_read two_leaves (omega arith) (omega arith) genesis-loads

-- The node as the only validator.
abbrev pub alone : Node Memory
alone = record one_node { vld_store = new_validator_store (signer.public_key ∷ []) }

signer-IsKeyPair : IsKeyPair plain signer
signer-IsKeyPair = record {
  key_size = refl;
  key_text = refl;
  names_key = λ msg. refl;
  verifies = λ msg. refl;
}

abbrev own_qc : QuorumCert
own_qc = record {
  pb =
      some
        (record { block_hash = some (1 ∷ []); signatures = some (signer.sign (1 ∷ [])).pb ∷ [] });
  sigs = signer.sign (1 ∷ []) ∷ [];
}

pub own_validator : is_validator alone.vld_store (some signer.public_key) ≡ true
unfolding is_validator new_validator_store has insert bytes_eq
own_validator = refl

own_read : set_qc_data plain own_qc.pb ≡ ok own_qc
unfolding set_qc_data
own_read = refl

own_valid : validate_qc plain alone.vld_store own_qc ≡ ok tt
unfolding validate_qc new_validator_store has insert bytes_eq
own_valid = refl

create_leaf-accepted_example :
    (pb : PbBlock) × ((create_leaf alone genesis own_qc 1 at_first).0.pb ≡ some pb)
    × (set_block_data plain pb ≡ ok (create_leaf alone genesis own_qc 1 at_first).0)
    × (validate_block plain alone.vld_store (create_leaf alone genesis own_qc 1 at_first).0 ≡ ok tt)
    × (lookup pb.hash (create_leaf alone genesis own_qc 1 at_first).1.pools.blocks ≡ some pb)
    × ((vote : Vote) × (proposer_vote plain pb ≡ ok vote)
        × (vote.voter ≡ some signer.public_key)
        × (validate_vote plain alone.vld_store vote ≡ ok tt))
create_leaf-accepted_example =
    create_leaf-accepted alone genesis own_qc 1 at_first signer-IsKeyPair own_validator
      (omega arith) own_read own_valid
