-- ===== src/Core/Wire.antt =====
-- core/block_commit.go, core/state_change.go, and the messages of blocks, certificates, transactions and
-- commits as bytes. The encoding is protobuf's, which `Proto` names.
use hs_blockchain.Prelude.{ℕ, Option, none, some, List, Bytes}
use hs_blockchain.Core.Crypto.{Crypto, Checked, ok, err, panic, new_public_key}
use hs_blockchain.Core.Certs.{PbQuorumCert, QuorumCert, set_qc_data}
use hs_blockchain.Core.Blocks.{PbBlock, Block, PbTransaction, Transaction, set_block_data}

-- StateChange over core_pb.StateChange; a nil slice is `none` where the code asks for nil.
pub record StateChange : Type 0 where
  pub key : Bytes
  pub value : Bytes
  pub prev_value : Option Bytes
  pub tree_index : Option Bytes
  pub prev_tree_index : Option Bytes

-- BlockCommit over core_pb.BlockCommit; the times are the bit patterns of float64s.
pub record BlockCommit : Type 0 where
  pub hash : Bytes
  pub old_block_txs : List Bytes
  pub leaf_count : Bytes
  pub merkle_root : Option Bytes
  pub elapsed_exec : ℕ
  pub elapsed_merkle : ℕ
  pub state_changes : List StateChange

-- TxCommit over core_pb.TxCommit
pub record PbTxCommit : Type 0 where
  pub hash : Bytes
  pub block_hash : Bytes
  pub block_height : ℕ
  pub elapsed : ℕ
  pub error : Bytes

-- proto.Marshal and proto.Unmarshal of each message; `none` is an error.
pub record Proto : Type 0 where
  pub marshal_block : PbBlock → Option Bytes
  pub unmarshal_block : Bytes → Option PbBlock
  pub marshal_qc : PbQuorumCert → Option Bytes
  pub unmarshal_qc : Bytes → Option PbQuorumCert
  pub marshal_tx : PbTransaction → Option Bytes
  pub unmarshal_tx : Bytes → Option PbTransaction
  pub marshal_block_commit : BlockCommit → Option Bytes
  pub unmarshal_block_commit : Bytes → Option BlockCommit
  pub marshal_tx_commit : PbTxCommit → Option Bytes
  pub unmarshal_tx_commit : Bytes → Option PbTxCommit

-- What a read gives: a value, some error, or a run-time panic.
pub data Read {ℓ} (A : Type ℓ) : Type ℓ where
  found : A → Read A
  failed panicked : Read A

infixl 5 ◌>>=◌
abbrev pub ◌>>=◌ {ℓ κ} : {A : Type ℓ} {B : Type κ} → Read A → (A → Read B) → Read B
found a >>= f = f a
failed >>= f = failed
panicked >>= f = panicked

abbrev pub from_option {ℓ} : {A : Type ℓ} → Option A → Read A
from_option none = failed
from_option (some a) = found a

abbrev pub from_checked {ℓ} : {A : Type ℓ} → Checked A → Read A
from_checked (ok a) = found a
from_checked (err e) = failed
from_checked panic = panicked

module _ (c : Crypto) (proto : Proto) where
  -- Block.Unmarshal
  unfoldable pub unmarshal_block : Bytes → Read Block
  unfolding set_block_data
  unmarshal_block b =
      from_option (proto.unmarshal_block b) >>= λ pb. from_checked (set_block_data c pb)

  -- QuorumCert.Unmarshal
  unfoldable pub unmarshal_qc : Bytes → Read QuorumCert
  unfolding set_qc_data
  unmarshal_qc b =
      from_option (proto.unmarshal_qc b) >>= λ pb. from_checked (set_qc_data c (some pb))

  -- Transaction.setData
  unfoldable pub set_tx_data : PbTransaction → Read Transaction
  unfolding new_public_key
  set_tx_data pb = from_checked (new_public_key c pb.sender) >>= λ key.
      found (record { pb = some pb; sender = some key })

  -- Transaction.Unmarshal
  unfoldable pub unmarshal_tx : Bytes → Read Transaction
  unfolding set_tx_data
  unmarshal_tx b = from_option (proto.unmarshal_tx b) >>= λ pb. set_tx_data pb
