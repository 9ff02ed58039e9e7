-- ===== src/Storage/Committed.antt =====
-- Commit of storage/storage.go, with the update of the tree: it returns, and the block is the last one.
use hs_blockchain.Prelude.{
  ℕ, suc, ◌≡◌, ◌∙◌, refl, sym, ap, ap₂, subst, Bool-cases, true, false, Option, none, some, List,
  [], ◌∷◌, Bytes, arith, All, length, length-map, map, inl, inr, ◌<◌, ◌≤◌, ◌^◌, not, ◌&&◌, bytes_eq,
}
use hs_blockchain.Core.Blocks.{Block, PbBlock, PbTransaction}
use hs_blockchain.Core.Wire.{StateChange, found, unmarshal_block}
use hs_blockchain.Merkle.Position.{int_bytes}
use hs_blockchain.Merkle.Tree.{UpdateResult, update, written}
use hs_blockchain.Merkle.Levels.{IsShuffle}
use hs_blockchain.Merkle.Returns.{update-some}
use hs_blockchain.Storage.Database.{Badger, IsDatabase, IsReliable, done}
use hs_blockchain.Storage.ChainStore.{get_block_height, get_block, get_last_block, has_tx}
use hs_blockchain.Storage.StateStore.{
  is_new, sort_strings, new_keys, keep_tree_index, load_prev_tree_index, get_state_value,
  updated_node, has_new, set_leaf_of, index_loop, set_new_tree_indexes, load_prev_values,
  load_prev_tree_indexes, compute_updated_tree_nodes,
}
use hs_blockchain.Storage.MerkleStore.{merkle_store, get_leaf_count}
use hs_blockchain.Storage.Storage.{
  CommitData, Config, has_changes, indexed_changes, compute_merkle_update, write_commit_data,
  commit,
}
use hs_blockchain.Storage.Commits.{Marshals}
use hs_blockchain.Storage.Written.{HasUpdate}
use hs_blockchain.Storage.Reads.{write_commit_data-get_last_block}

set_leaf_of-length :
    (key : Bytes) (idx : ℕ) (scs : List StateChange) → length (set_leaf_of key idx scs) ≡ length scs
unfolding set_leaf_of
set_leaf_of-length key idx [] = refl
set_leaf_of-length key idx (sc ∷ scs) =
    elim (Bool-cases (is_new sc && bytes_eq sc.key key && not (has_new key scs))) [
      | inl e ↦ rw (set_leaf_of, e) refl
      | inr e ↦ rw (set_leaf_of, e) (ap suc (set_leaf_of-length key idx scs))
    ]

index_loop-length :
    (keys : List Bytes) (scs : List StateChange) (n : ℕ)
    → length (index_loop keys scs n).0 ≡ length scs
unfolding index_loop
index_loop-length [] scs n = refl
index_loop-length (key ∷ keys) scs n = index_loop-length keys _ _ ∙ set_leaf_of-length key n scs

set_new_tree_indexes-length :
    (scs : List StateChange) (n : ℕ) → length (set_new_tree_indexes scs n).0 ≡ length scs
unfolding set_new_tree_indexes
set_new_tree_indexes-length scs n =
    index_loop-length (sort_strings (new_keys scs)) (map keep_tree_index scs) n
    ∙ length-map keep_tree_index scs

load_prev_tree_indexes-length :
    {D : Type 0} (db : Badger D) (d : D) (scs : List StateChange)
    → length (load_prev_tree_indexes db d (load_prev_values db d scs)) ≡ length scs
unfolding load_prev_values load_prev_tree_indexes
load_prev_tree_indexes-length db d scs =
    length-map (load_prev_tree_index db d) (load_prev_values db d scs)
    ∙ length-map (λ (sc : StateChange). record sc { prev_value = get_state_value db d sc.key }) scs

-- The data of a commit, for any update of the tree that it gets.
with_update :
    (m : Option UpdateResult) (f : UpdateResult → CommitData) (P : CommitData → Type 0)
    → (upd : UpdateResult) × (m ≡ some upd)
    → ((upd : UpdateResult) → P (f upd))
    → (new : CommitData) × ((elim m [ none ↦ none | some upd ↦ some (f upd) ]) ≡ some new) × P new
with_update none f P (upd, e) h = absurd (ground (arith, e))
with_update (some u) f P (upd, e) h = (f u, refl, h u)

HasUpdate-some : (upd : UpdateResult) (scs : List StateChange) → HasUpdate scs (some upd)
HasUpdate-some upd [] = tt
HasUpdate-some upd (sc ∷ scs) = tt

module _ {D : Type 0} (cfg : Config D) where
  -- Every change stays, with its leaf.
  pub indexed_changes-length :
      (d : D) (scs : List StateChange) → length (indexed_changes cfg d scs).0 ≡ length scs
  unfolding indexed_changes
  indexed_changes-length d scs =
      set_new_tree_indexes-length (load_prev_tree_indexes cfg.db d (load_prev_values cfg.db d scs))
        (get_leaf_count cfg.db d)
      ∙ load_prev_tree_indexes-length cfg.db d scs

  -- What the update of the tree leaves of the data.
  abbrev pub Extends : D → CommitData → CommitData → Type 0
  Extends d old new =
      (new.block ≡ old.block)
      × (new.transactions ≡ old.transactions)
      × ((scs : List StateChange) → HasUpdate scs new.merkle_update)
      × (new.block_commit.state_changes ≡ (indexed_changes cfg d old.block_commit.state_changes).0)

  module _ (two : 1 < cfg.tc.bfactor) (shuffles : (k : ℕ) → IsShuffle (cfg.arrive k)) where
    pub compute_merkle_update-some :
        (d : D) (data' : CommitData) (k : ℕ)
        → 0 < length data'.block_commit.state_changes
        → (indexed_changes cfg d data'.block_commit.state_changes).1 ≤ cfg.tc.bfactor ^ k
        → k < 255
        → (new : CommitData) × (compute_merkle_update cfg d data' ≡ some new) × Extends d data' new
    unfolding compute_merkle_update compute_updated_tree_nodes
    compute_merkle_update-some d data' k some_change fits low =
        let scs = (indexed_changes cfg d data'.block_commit.state_changes).0 in
        let n = (indexed_changes cfg d data'.block_commit.state_changes).1 in
        let nodes = compute_updated_tree_nodes cfg.hash scs in
        let count : 0 < length nodes =
          subst (λ l. 0 < l)
            (sym (
              length-map (updated_node cfg.hash) scs
              ∙ indexed_changes-length d data'.block_commit.state_changes))
            some_change in
        with_update (update cfg.hash cfg.tc (merkle_store cfg.db d) cfg.arrive nodes n)
          (λ upd. record data' {
            merkle_update = some upd;
            block_commit = record (data'.block_commit) {
              leaf_count = int_bytes upd.leaf_count;
              merkle_root = upd.root.node_data;
              state_changes = scs;
            };
          })
          (Extends d data')
          (update-some cfg.hash cfg.tc (merkle_store cfg.db d) two cfg.arrive shuffles nodes n k
            count fits low)
          (λ upd. (refl, refl, HasUpdate-some upd, refl))

    -- The block is the last one of the database, and is found with its transactions.
    abbrev HasBlock : CommitData → Block → D → Type 0
    HasBlock data' blk d' =
        (get_last_block cfg.db cfg.crypto cfg.proto d' ≡ found blk)
        × (get_block cfg.db cfg.crypto cfg.proto data'.block.hash d' ≡ found blk)
        × (get_block_height cfg.db cfg.crypto cfg.proto d' ≡ found data'.block.height)
        × All (λ (tx : PbTransaction). has_tx cfg.db cfg.crypto cfg.proto tx.hash d' ≡ true)
            data'.transactions

    module _ (marshals : Marshals cfg.proto) (lawful : IsDatabase cfg.db)
        (reliable : IsReliable cfg.db) where
      write-HasBlock :
          (data' : CommitData) (blk : Block)
          → HasUpdate data'.block_commit.state_changes data'.merkle_update
          → data'.block.height < 2 ^ 64
          → unmarshal_block cfg.crypto cfg.proto (written (cfg.proto.marshal_block data'.block))
            ≡ found blk
          → (d : D) → (d' : D) × (write_commit_data cfg data' d ≡ done d') × HasBlock data' blk d'
      write-HasBlock data' blk has small loads d =
          let (d', runs, last, block, height, txs) =
            write_commit_data-get_last_block cfg marshals lawful reliable data' blk has small loads
              d in
          (d', runs, (last, block, height, txs))

      commit-cases :
          (data' : CommitData) (blk : Block) (elapsed k : ℕ) (d : D) (scs : List StateChange)
          → data'.block_commit.state_changes ≡ scs
          → (indexed_changes cfg d data'.block_commit.state_changes).1 ≤ cfg.tc.bfactor ^ k
          → k < 255
          → data'.block.height < 2 ^ 64
          → unmarshal_block cfg.crypto cfg.proto (written (cfg.proto.marshal_block data'.block))
            ≡ found blk
          → (d' : D) × (commit cfg elapsed data' d ≡ done d') × HasBlock data' blk d'
      unfolding commit
      commit-cases data' blk elapsed k d [] e fits low small loads =
          let still : has_changes data'.block_commit.state_changes ≡ false = ap has_changes e in
          let (d', runs, has) =
            write-HasBlock data' blk (subst (λ s. HasUpdate s data'.merkle_update) (sym e) tt) small
              loads d in
          (d', rw (commit, still) runs, has)
      commit-cases data' blk elapsed k d (sc ∷ scs) e fits low small loads =
          let changes : has_changes data'.block_commit.state_changes ≡ true = ap has_changes e in
          let (new, made, extends) =
            compute_merkle_update-some d data' k (subst (λ s. 0 < length s) (sym e) (omega arith))
              fits low in
          let (same, txs, has, _) = extends in
          let timed : CommitData = record new {
            block_commit = record (new.block_commit) { elapsed_merkle = elapsed };
          } in
          let (d', runs, found_all) =
            write-HasBlock timed blk (has new.block_commit.state_changes)
              (subst (λ (b : PbBlock). b.height < 2 ^ 64) (sym same) small)
              (subst
                (λ b.
                  unmarshal_block cfg.crypto cfg.proto (written (cfg.proto.marshal_block b))
                  ≡ found blk)
                (sym same) loads)
              d in
          (
            d',
            rw (commit, changes, made) runs,
            subst
                (λ (p : PbBlock × List PbTransaction).
                  HasBlock (record data' { block = p.0; transactions = p.1 }) blk d')
                (ap₂ (λ (b : PbBlock) (t : List PbTransaction). (b, t)) same txs) found_all,
          )

      -- In a lawful database whose calls do not fail, with codecs that do not fail, a tree of branch factor at
      -- least 2, workers that answer in any order, new leaves that at most 254 levels of branching hold, and a
      -- block of a height below 2^64 whose encoding loads as some block: Commit returns, with state changes and
      -- without, and then the last block, the block of its hash and the height are those of the block, and all
      -- its transactions are stored.
      pub commit-get_last_block :
          (data' : CommitData) (blk : Block) (elapsed k : ℕ) (d : D)
          → (indexed_changes cfg d data'.block_commit.state_changes).1 ≤ cfg.tc.bfactor ^ k
          → k < 255
          → data'.block.height < 2 ^ 64
          → unmarshal_block cfg.crypto cfg.proto (written (cfg.proto.marshal_block data'.block))
            ≡ found blk
          → (d' : D) × (commit cfg elapsed data' d ≡ done d')
            × (get_last_block cfg.db cfg.crypto cfg.proto d' ≡ found blk)
            × (get_block cfg.db cfg.crypto cfg.proto data'.block.hash d' ≡ found blk)
            × (get_block_height cfg.db cfg.crypto cfg.proto d' ≡ found data'.block.height)
            × All
                (λ (tx : PbTransaction). has_tx cfg.db cfg.crypto cfg.proto tx.hash d' ≡ true)
                data'.transactions
      commit-get_last_block data' blk elapsed k d fits low small loads =
          let (d', runs, has) =
            commit-cases data' blk elapsed k d data'.block_commit.state_changes refl fits low small
              loads in
          (d', runs, has.0, has.1, has.2, has.3)
