-- ===== src/Consensus/Cleanup.antt =====
-- consensus/state.go and what consensus/hs_driver.go cleans there after a commit. A block is its message; a
-- map's blocks stand under their hashes, as setBlock puts them.
use hs_blockchain.Prelude.{
  ℕ, Bool, not, ◌&&◌, Option, List, [], ◌∷◌, Bytes, if◌then◌else◌, ltb, ◌-◌, Map, has, lookup,
  insert, delete,
}
use hs_blockchain.Core.Certs.{QuorumCert}
use hs_blockchain.Core.Blocks.{PbBlock}
use hs_blockchain.TxPool.TxStore.{TxStore, remove_txs, put_txs_to_queue}

pub record Pools (T : Type 0) : Type 0 where
  pub blocks : Map PbBlock
  pub committed : Map (Unit {0})
  pub qcs : Map QuorumCert
  pub committed_height : ℕ
  pub txs : TxStore T

-- The blocks of a map that pass a test.
unfoldable pub select : (PbBlock → Bool) → Map PbBlock → List PbBlock
select test [] = []
select test ((k, blk) ∷ m) = let rest = select test m in if test blk then blk ∷ rest else rest

module _ {T : Type 0} where
  -- deleteBlock
  unfoldable pub delete_block : Bytes → Pools T → Pools T
  delete_block hash s = record s { blocks = delete hash s.blocks }

  -- getQC
  unfoldable pub get_qc : Bytes → Pools T → Option QuorumCert
  get_qc hash s = lookup hash s.qcs

  -- deleteQC
  unfoldable pub delete_qc : Bytes → Pools T → Pools T
  delete_qc hash s = record s { qcs = delete hash s.qcs }

  -- setCommitedBlock
  unfoldable pub set_committed_block : PbBlock → Pools T → Pools T
  set_committed_block blk s = record s {
    committed = insert blk.hash tt s.committed;
    committed_height = blk.height;
  }

  -- deleteCommited
  unfoldable pub delete_committed : Bytes → Pools T → Pools T
  delete_committed hash s = record s { committed = delete hash s.committed }

  -- getOlderBlocks
  unfoldable pub get_older_blocks : ℕ → Pools T → List PbBlock
  unfolding select
  get_older_blocks height s = select (λ b. ltb b.height height) s.blocks

  -- getUncommitedOlderBlocks
  unfoldable pub get_uncommitted_older_blocks : PbBlock → Pools T → List PbBlock
  unfolding select
  get_uncommitted_older_blocks bexec s =
      select (λ b. ltb b.height bexec.height && not (has b.hash s.committed)) s.blocks

  -- The loop of cleanStateOnCommited: the transactions of the other branches go back to the queue.
  unfoldable pub drop_loop : List PbBlock → Pools T → Pools T
  unfolding delete_block delete_qc put_txs_to_queue
  drop_loop [] s = s
  drop_loop (blk ∷ blks) s = drop_loop blks (
      delete_qc blk.hash
        (delete_block blk.hash (record s { txs = put_txs_to_queue blk.transactions s.txs })))

  unfoldable pub forget_loop : List PbBlock → Pools T → Pools T
  unfolding delete_block delete_committed
  forget_loop [] s = s
  forget_loop (blk ∷ blks) s =
      forget_loop blks (delete_committed blk.hash (delete_block blk.hash s))

  -- deleteCommitedOlderBlocks; the height is compared as an int64.
  unfoldable pub delete_committed_older_blocks : PbBlock → Pools T → Pools T
  unfolding forget_loop get_older_blocks
  delete_committed_older_blocks bexec s =
      if ltb bexec.height 20 then s else forget_loop (get_older_blocks (bexec.height - 20) s) s

  -- cleanStateOnCommited
  unfoldable pub clean_state_on_committed : PbBlock → Pools T → Pools T
  unfolding delete_qc set_committed_block get_uncommitted_older_blocks drop_loop
      delete_committed_older_blocks remove_txs
  clean_state_on_committed bexec s =
      let kept = delete_qc bexec.hash s in
      let marked =
        set_committed_block bexec (record kept { txs = remove_txs bexec.transactions kept.txs }) in
      delete_committed_older_blocks bexec
        (drop_loop (get_uncommitted_older_blocks bexec marked) marked)
