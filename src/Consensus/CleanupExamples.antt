-- ===== src/Consensus/CleanupExamples.antt =====
-- A commit at height 3, with a committed block of height 2 and a block of another branch.
use hs_blockchain.Prelude.{
  ◌≡◌, refl, true, none, some, [], ◌∷◌, Bytes, bytes_eq, arith, ◌+◌, ◌<◌, ℕ, has, lookup, insert,
  delete,
}
use hs_blockchain.Core.Blocks.{PbBlock}
use hs_blockchain.TxPool.TxStore.{new_tx_store, put_txs_to_queue, remove_txs}
use hs_blockchain.Consensus.Cleanup.{
  Pools, select, get_uncommitted_older_blocks, delete_committed_older_blocks, drop_loop,
  delete_block, delete_qc, set_committed_block, clean_state_on_committed,
}
use hs_blockchain.Consensus.Cleaned.{clean_state_on_committed-has}

abbrev block_at : ℕ → Bytes → PbBlock
block_at height hash = record {
  hash = hash;
  height = height;
  parent_hash = [];
  proposer = [];
  quorum_cert = none;
  exec_height = 0;
  merkle_root = [];
  timestamp = 0;
  transactions = [];
  signature = [];
}

abbrev two_branches : Pools ℕ
two_branches = record {
  blocks =
      (2 ∷ [], block_at 2 (2 ∷ []))
      ∷ (8 ∷ [], block_at 2 (8 ∷ []))
      ∷ (3 ∷ [], block_at 3 (3 ∷ []))
      ∷ [];
  committed = (2 ∷ [], tt) ∷ [];
  qcs = [];
  committed_height = 2;
  txs = new_tx_store;
}

stays :
    lookup (2 ∷ []) (clean_state_on_committed (block_at 3 (3 ∷ [])) two_branches).blocks
    ≡ some (block_at 2 (2 ∷ []))
unfolding clean_state_on_committed select get_uncommitted_older_blocks delete_committed_older_blocks
    drop_loop delete_block delete_qc set_committed_block put_txs_to_queue remove_txs has lookup
    insert delete bytes_eq
stays = refl

goes : lookup (8 ∷ []) (clean_state_on_committed (block_at 3 (3 ∷ [])) two_branches).blocks ≡ none
unfolding clean_state_on_committed select get_uncommitted_older_blocks delete_committed_older_blocks
    drop_loop delete_block delete_qc set_committed_block put_txs_to_queue remove_txs has lookup
    insert delete bytes_eq
goes = refl

clean_state_on_committed-has_example :
    (lookup (2 ∷ []) two_branches.blocks ≡ some (block_at 2 (2 ∷ [])))
    × (has (2 ∷ []) (clean_state_on_committed (block_at 3 (3 ∷ [])) two_branches).committed ≡ true)
    × (3 < 2 + 21)
clean_state_on_committed-has_example =
    clean_state_on_committed-has (block_at 3 (3 ∷ [])) (block_at 2 (2 ∷ [])) two_branches (2 ∷ [])
      refl (omega arith) stays
