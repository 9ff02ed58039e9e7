-- ===== src/Storage/Toys.antt =====
-- A database in memory and the first block of a chain, for examples.
use hs_blockchain.Prelude.{
  ℕ, ◌≡◌, ◌∙◌, refl, sym, ap, true, none, some, some-injective, [], ◌∷◌, Bytes, replicate, Map,
  lookup, insert, lookup-insert,
}
use hs_blockchain.Core.Crypto.{Crypto, new_public_key}
use hs_blockchain.Core.Blocks.{PbBlock, Block, PbTransaction, set_block_data}
use hs_blockchain.Core.Wire.{StateChange, BlockCommit, Proto, found, unmarshal_block}
use hs_blockchain.Merkle.Tree.{written}
use hs_blockchain.Merkle.Levels.{IsShuffle}
use hs_blockchain.Storage.Database.{Badger, IsDatabase, IsReliable}
use hs_blockchain.Storage.Storage.{CommitData, Config}
use hs_blockchain.Storage.Commits.{Marshals}

abbrev pub Memory : Type 0
Memory = Map Bytes

abbrev pub memory : Badger Memory
memory = record {
  get = λ k d. lookup k d;
  set = λ k v d. some (insert k v d);
  commit = λ d. some d;
}

pub memory-IsDatabase : IsDatabase memory
memory-IsDatabase = record {
  get_set = λ k v j d d' e. ap (lookup j) (sym (some-injective _ _ e)) ∙ lookup-insert k j v d;
  get_commit = λ j d d' e. ap (lookup j) (sym (some-injective _ _ e));
}

pub memory-IsReliable : IsReliable memory
memory-IsReliable = record { sets = λ k v d. (insert k v d, refl); commits = λ d. (d, refl) }

abbrev pub plain : Crypto
plain = record { verify = λ k m v. true; sha3 = λ b. b; base64 = λ b. b }

abbrev pub genesis : PbBlock
genesis = record {
  hash = 1 ∷ [];
  height = 0;
  parent_hash = [];
  proposer = replicate 32 7;
  quorum_cert = none;
  exec_height = 0;
  merkle_root = [];
  timestamp = 0;
  transactions = (2 ∷ []) ∷ [];
  signature = [];
}

abbrev pub first_tx : PbTransaction
first_tx = record {
  hash = 2 ∷ [];
  nonce = 0;
  sender = [];
  code_addr = [];
  input = [];
  expiry = 0;
  signature = [];
}

abbrev pub change : StateChange
change = record {
  key = 5 ∷ [];
  value = 6 ∷ [];
  prev_value = none;
  tree_index = none;
  prev_tree_index = none;
}

abbrev pub first_commit : BlockCommit
first_commit = record {
  hash = 1 ∷ [];
  old_block_txs = [];
  leaf_count = [];
  merkle_root = none;
  elapsed_exec = 0;
  elapsed_merkle = 0;
  state_changes = change ∷ [];
}

abbrev pub first_data : CommitData
first_data = record {
  block = genesis;
  qc = none;
  transactions = first_tx ∷ [];
  block_commit = first_commit;
  tx_commits = [];
  merkle_update = none;
}

-- A codec for the one block.
abbrev pub one_block : Proto
one_block = record {
  marshal_block = λ m. some (1 ∷ []);
  unmarshal_block = λ b. some genesis;
  marshal_qc = λ m. some [];
  unmarshal_qc = λ b. none;
  marshal_tx = λ m. some m.hash;
  unmarshal_tx = λ b. none;
  marshal_block_commit = λ m. some m.hash;
  unmarshal_block_commit = λ b. none;
  marshal_tx_commit = λ m. some m.hash;
  unmarshal_tx_commit = λ b. none;
}

pub one_block-Marshals : Marshals one_block
one_block-Marshals = record {
  block = λ m. (1 ∷ [], refl);
  qc = λ m. ([], refl);
  tx = λ m. (m.hash, refl);
  block_commit = λ m. (m.hash, refl);
  tx_commit = λ m. (m.hash, refl);
}

abbrev pub config : Badger Memory → Config Memory
config db = record {
  db = db;
  crypto = plain;
  proto = one_block;
  hash = λ b. 7 ∷ b;
  tc = record { bfactor = 8 };
  arrive = λ k ns. ns;
}

pub config-shuffles : (k : ℕ) → IsShuffle ((config memory).arrive k)
config-shuffles k P ns = (λ a. a, λ a. a)

abbrev pub genesis_block : Block
genesis_block = record {
  pb = some genesis;
  proposer = some (record { key = replicate 32 7; key_str = replicate 32 7 });
  quorum_cert = none;
}

pub genesis-loads :
    unmarshal_block plain one_block (written (one_block.marshal_block genesis))
    ≡ found genesis_block
unfolding unmarshal_block set_block_data new_public_key
genesis-loads = refl
