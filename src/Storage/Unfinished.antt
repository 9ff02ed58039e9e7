-- ===== src/Storage/Unfinished.antt =====
-- What a commit of storage/storage.go that does not finish leaves of the chain before it.
use hs_blockchain.Prelude.{
  ℕ, ◌≡◌, ◌∙◌, refl, sym, ap, subst, Bool, Bool-cases, true, false, Option, none, some,
  some-injective, [], ◌∷◌, ◌++◌, Bytes, bytes_eq, bytes_eq_iff, if◌then◌else◌, arith, All-append,
  ◌==◌, inl, inr, ◌<◌, ◌^◌,
}
use hs_blockchain.Core.Crypto.{be64}
use hs_blockchain.Core.Blocks.{PbBlock}
use hs_blockchain.Core.Wire.{Read, found, failed, panicked, from_option, ◌>>=◌, unmarshal_block}
use hs_blockchain.Merkle.Position.{int_bytes}
use hs_blockchain.Merkle.Tree.{UpdateResult, update}
use hs_blockchain.Storage.Database.{
  IsDatabase, Write, done, failed, panicked, ◌then◌, update_badger_db,
}
use hs_blockchain.Storage.ChainStore.{
  be64_value, set_block_height, get_block_height, get_block_hash_by_height, get_block,
  get_block_by_height, get_last_block,
}
use hs_blockchain.Storage.StateStore.{commit_state_changes, compute_updated_tree_nodes}
use hs_blockchain.Storage.MerkleStore.{commit_update, merkle_store}
use hs_blockchain.Storage.Storage.{
  CommitData, Config, has_changes, indexed_changes, compute_merkle_update, write_chain_data,
  write_block_commit, write_state_merkle_tree, set_committed_block_height, write_commit_data,
  commit,
}
use hs_blockchain.Storage.Reads.{be64_value-be64}
use hs_blockchain.Storage.Failures.{
  result, is_done, update_badger_db-keeps, update_badger_db-failed, then-keeps,
  write_chain_data-keeps, write_block_commit-keeps, changes-KeepsKey, tree-KeepsKey,
}

be64-apart :
    (a b : ℕ) → a < 2 ^ 64 → b < 2 ^ 64 → (a == b) ≡ false → bytes_eq (be64 a) (be64 b) ≡ false
be64-apart a b small_a small_b e = elim (Bool-cases (bytes_eq (be64 a) (be64 b))) [
  | inr n ↦ n
  | inl y ↦
      let same : found a ≡ found b =
        sym (be64_value-be64 a small_a)
        ∙ (ap be64_value ((bytes_eq_iff (be64 a) (be64 b)).0 y) ∙ be64_value-be64 b small_b) in
      let eq : a ≡ b =
        ap (λ (r : Read ℕ). elim r [ found x ↦ x | failed ↦ 0 | panicked ↦ 0 ]) same in
      absurd (ground (arith, eq, e))
]

module _ {D : Type 0} (cfg : Config D) (lawful : IsDatabase cfg.db) where
  compute_merkle_update-block :
      (d : D) (data' new : CommitData)
      → compute_merkle_update cfg d data' ≡ some new
      → new.block ≡ data'.block
  unfolding compute_merkle_update
  compute_merkle_update-block d data' new = go (
      update cfg.hash cfg.tc (merkle_store cfg.db d) cfg.arrive
        (compute_updated_tree_nodes cfg.hash
          (indexed_changes cfg d data'.block_commit.state_changes).0)
        (indexed_changes cfg d data'.block_commit.state_changes).1)
    where
      updated : UpdateResult → CommitData
      updated upd = record data' {
        merkle_update = some upd;
        block_commit = record (data'.block_commit) {
          leaf_count = int_bytes upd.leaf_count;
          merkle_root = upd.root.node_data;
          state_changes = (indexed_changes cfg d data'.block_commit.state_changes).0;
        };
      }

      go :
          (m : Option UpdateResult)
          → (elim m [ none ↦ none | some upd ↦ some (updated upd) ]) ≡ some new
          → new.block ≡ data'.block
      go none h = absurd (ground (arith, h))
      go (some upd) h = ap (λ (x : CommitData). x.block) (sym (some-injective _ _ h))

  module _ (col : ℕ) (low : col < 4) (k : Bytes) where
    write_state_merkle_tree-keeps :
        (data' : CommitData) (d : D)
        → cfg.db.get (col ∷ k) (result (write_state_merkle_tree cfg data' d))
          ≡ cfg.db.get (col ∷ k) d
    unfolding write_state_merkle_tree
    write_state_merkle_tree-keeps data' d =
        go data'.merkle_update (has_changes data'.block_commit.state_changes)
      where
        go :
            (upd : Option UpdateResult) (changes : Bool)
            → cfg.db.get (col ∷ k) (
                result (
                  if changes
                  then elim upd [
                    | none ↦ panicked d
                    | some u ↦
                        update_badger_db cfg.db
                          (commit_state_changes cfg.db data'.block_commit.state_changes
                            ++ commit_update cfg.db u)
                          d
                  ]
                  else done d))
              ≡ cfg.db.get (col ∷ k) d
        go upd false = refl
        go none true = refl
        go (some u) true = update_badger_db-keeps cfg.db lawful (col ∷ k) _ d (
            All-append _ (commit_state_changes cfg.db data'.block_commit.state_changes) _
              (changes-KeepsKey cfg lawful col low k data'.block_commit.state_changes)
              (tree-KeepsKey cfg lawful col low k u))

    write_commit_data-keeps :
        (data' : CommitData) (d : D)
        → bytes_eq (1 ∷ data'.block.hash) (col ∷ k) ≡ false
        → bytes_eq (2 ∷ be64 data'.block.height) (col ∷ k) ≡ false
        → is_done (write_commit_data cfg data' d) ≡ false
        → cfg.db.get (col ∷ k) (result (write_commit_data cfg data' d)) ≡ cfg.db.get (col ∷ k) d
    unfolding write_commit_data set_committed_block_height
    write_commit_data-keeps data' d hash height undone =
        let keeps = then-keeps cfg.db lawful (col ∷ k) in
        let w₁ = write_chain_data cfg data' d in
        let w₂ = w₁ then write_block_commit cfg data' in
        let w₃ = w₂ then write_state_merkle_tree cfg data' in
        let two =
          keeps w₁ (write_block_commit cfg data') d
            (write_chain_data-keeps cfg lawful col low k data' d hash height)
            (λ x e. write_block_commit-keeps cfg lawful col low k data' x) in
        let three =
          keeps w₂ (write_state_merkle_tree cfg data') d two
            (λ x e. write_state_merkle_tree-keeps data' x) in
        keeps w₃ (set_committed_block_height cfg data'.block.height) d three (λ x e.
          ap (cfg.db.get (col ∷ k)) (
            update_badger_db-failed cfg.db lawful (col ∷ k)
              (set_block_height cfg.db cfg.crypto cfg.proto data'.block.height ∷ []) x
              (sym e ∙ undone)))

    commit-keeps :
        (elapsed : ℕ) (data' : CommitData) (d : D)
        → bytes_eq (1 ∷ data'.block.hash) (col ∷ k) ≡ false
        → bytes_eq (2 ∷ be64 data'.block.height) (col ∷ k) ≡ false
        → is_done (commit cfg elapsed data' d) ≡ false
        → cfg.db.get (col ∷ k) (result (commit cfg elapsed data' d)) ≡ cfg.db.get (col ∷ k) d
    unfolding commit
    commit-keeps elapsed data' d hash height =
        go (has_changes data'.block_commit.state_changes) (compute_merkle_update cfg d data')
          (compute_merkle_update-block d data') (write_commit_data-keeps data' d hash height)
          (λ new same.
            write_commit_data-keeps new d
              (subst (λ (b : PbBlock). bytes_eq (1 ∷ b.hash) (col ∷ k) ≡ false) (sym same) hash)
              (subst (λ (b : PbBlock). bytes_eq (2 ∷ be64 b.height) (col ∷ k) ≡ false) (sym same)
                height))
      where
        Same : Write D → Type 0
        Same w = is_done w ≡ false → cfg.db.get (col ∷ k) (result w) ≡ cfg.db.get (col ∷ k) d

        timed : CommitData → CommitData
        timed new = record new {
          block_commit = record (new.block_commit) { elapsed_merkle = elapsed };
        }

        go :
            (changes : Bool) (m : Option CommitData)
            → ((new : CommitData) → m ≡ some new → new.block ≡ data'.block)
            → Same (write_commit_data cfg data' d)
            → ((new : CommitData) → new.block ≡ data'.block → Same (write_commit_data cfg new d))
            → Same (
                if changes
                then elim m [ none ↦ panicked d | some new ↦ write_commit_data cfg (timed new) d ]
                else write_commit_data cfg data' d)
        go false m block plain with_tree = plain
        go true none block plain with_tree = λ undone. refl
        go true (some new) block plain with_tree = with_tree (timed new) (block new refl)

  -- A commit that fails or panics, whatever call of the database or of the codecs is at fault, leaves the
  -- last block as it is: for a database with a last height and its hash, and a block of another height and
  -- hash, both heights below 2^64, the last block is read as before, and so is the height.
  pub unfinished-get_last_block :
      (elapsed : ℕ) (data' : CommitData) (d : D) (height : ℕ) (hash : Bytes)
      → get_block_height cfg.db cfg.crypto cfg.proto d ≡ found height
      → get_block_hash_by_height cfg.db cfg.crypto cfg.proto height d ≡ found hash
      → height < 2 ^ 64
      → data'.block.height < 2 ^ 64
      → (data'.block.height == height) ≡ false
      → bytes_eq data'.block.hash hash ≡ false
      → is_done (commit cfg elapsed data' d) ≡ false
      → (get_block_height cfg.db cfg.crypto cfg.proto (result (commit cfg elapsed data' d))
          ≡ found height)
        × (get_last_block cfg.db cfg.crypto cfg.proto (result (commit cfg elapsed data' d))
            ≡ get_last_block cfg.db cfg.crypto cfg.proto d)
  unfolding get_last_block get_block_by_height get_block_height get_block_hash_by_height get_block
  unfinished-get_last_block elapsed data' d height hash last at small_last small other_height
        other_hash undone =
      let c = cfg.crypto in
      let p = cfg.proto in
      let d' = result (commit cfg elapsed data' d) in
      let apart : bytes_eq (be64 data'.block.height) (be64 height) ≡ false =
        be64-apart data'.block.height height small small_last other_height in
      let h =
        commit-keeps 3 (omega arith) [] elapsed data' d (unfold bytes_eq in refl)
          (unfold bytes_eq in refl) undone in
      let b =
        commit-keeps 2 (omega arith) (be64 height) elapsed data' d (unfold bytes_eq in refl)
          (unfold bytes_eq in apart) undone in
      let k =
        commit-keeps 1 (omega arith) hash elapsed data' d (unfold bytes_eq in other_hash)
          (unfold bytes_eq in refl) undone in
      let last' : get_block_height cfg.db c p d' ≡ found height =
        ap (λ x. from_option x >>= be64_value) h ∙ last in
      let at' : get_block_hash_by_height cfg.db c p height d' ≡ found hash =
        ap from_option b ∙ at in
      let same : get_block cfg.db c p hash d' ≡ get_block cfg.db c p hash d =
        ap (λ x. from_option x >>= unmarshal_block c p) k in
      (last', rw (get_last_block, last', last, get_block_by_height, at', at) same)
