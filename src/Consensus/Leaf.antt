-- ===== src/Consensus/Leaf.antt =====
-- consensus/hs_driver.go: the block that CreateLeaf makes, as the other nodes take it.
use hs_blockchain.Prelude.{
  ℕ, ◌≡◌, refl, ◌<◌, ◌==◌, true, false, some, lookup, lookup-insert, bytes_eq_refl, arith,
}
use hs_blockchain.Core.Crypto.{ok}
use hs_blockchain.Core.Validators.{is_validator}
use hs_blockchain.Core.Certs.{QuorumCert, Vote, set_qc_data, validate_qc, validate_vote}
use hs_blockchain.Core.Blocks.{
  PbBlock, set_block_data, validate_block, validate_block_qc, proposer_vote, sign_block,
}
use hs_blockchain.Core.Signing.{
  IsKeyPair, signed_message, validate_block-sign_block, set_block_data-sign_block,
  proposer_vote-sign_block,
}
use hs_blockchain.TxPool.TxStore.{pop_txs_from_queue}
use hs_blockchain.Consensus.Driver.{Node, State, unsigned_leaf, create_leaf}

-- The block that CreateLeaf makes above the genesis block, for a node whose key is a validator's and a
-- certificate that QuorumCert.Validate accepts and that is what a node reads out of its message: a node
-- that reads the block's message has the same block, Block.Validate accepts it, the state has it under its
-- hash, and its ProposerVote is a vote of the node that Vote.Validate accepts.
pub create_leaf-accepted :
    {D : Type 0} (node : Node D) (parent : PbBlock) (qc : QuorumCert) (height : ℕ) (s : State D)
    → IsKeyPair node.storage.crypto node.signer
    → is_validator node.vld_store (some node.signer.public_key) ≡ true
    → 0 < height
    → set_qc_data node.storage.crypto qc.pb ≡ ok qc
    → validate_qc node.storage.crypto node.vld_store qc ≡ ok tt
    → (pb : PbBlock) × ((create_leaf node parent qc height s).0.pb ≡ some pb)
      × (set_block_data node.storage.crypto pb ≡ ok (create_leaf node parent qc height s).0)
      × (validate_block node.storage.crypto node.vld_store (create_leaf node parent qc height s).0
          ≡ ok tt)
      × (lookup pb.hash (create_leaf node parent qc height s).1.pools.blocks ≡ some pb)
      × ((vote : Vote) × (proposer_vote node.storage.crypto pb ≡ ok vote)
          × (vote.voter ≡ some node.signer.public_key)
          × (validate_vote node.storage.crypto node.vld_store vote ≡ ok tt))
unfolding create_leaf unsigned_leaf sign_block signed_message validate_block_qc
create_leaf-accepted node parent qc height s pair m h e v =
    let above : (height == 0) ≡ false = ground (arith, h) in
    let c = node.storage.crypto in
    let hashes = (pop_txs_from_queue node.block_tx_limit s.pools.txs).0 in
    let leaf = unsigned_leaf node parent qc height hashes s.db in
    (
      signed_message c node.signer pair leaf,
      refl,
      set_block_data-sign_block c node.signer pair leaf qc above e,
      rw (validate_block-sign_block c node.signer pair node.vld_store) (rw (above, v, m) refl),
      rw (lookup-insert, bytes_eq_refl) refl,
      proposer_vote-sign_block c node.signer pair node.vld_store leaf m,
    )
