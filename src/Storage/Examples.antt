-- ===== src/Storage/Examples.antt =====
-- A database in memory, which gets a first block with one change of the state, and one whose commits fail.
use hs_blockchain.Prelude.{
  ◌≡◌, ◌∙◌, refl, sym, ap, true, false, none, some, some-injective, [], ◌∷◌, bytes_eq, arith, All,
  ◌≤◌, ◌^◌, lookup, insert, lookup-insert,
}
use hs_blockchain.Core.Crypto.{be64}
use hs_blockchain.Core.Blocks.{PbTransaction}
use hs_blockchain.Core.Wire.{found}
use hs_blockchain.Storage.Database.{Badger, IsDatabase, done, update_badger_db, run_updates}
use hs_blockchain.Storage.ChainStore.{
  be64_value, get_block_height, get_block_hash_by_height, get_block, get_last_block, has_tx,
}
use hs_blockchain.Storage.Storage.{
  CommitData, indexed_changes, write_chain_data, write_commit_data, commit,
}
use hs_blockchain.Storage.Committed.{commit-get_last_block}
use hs_blockchain.Storage.Failures.{result, is_done}
use hs_blockchain.Storage.Unfinished.{unfinished-get_last_block}
use hs_blockchain.Storage.Toys.{
  Memory, memory, memory-IsDatabase, memory-IsReliable, plain, first_tx, first_commit, first_data,
  one_block, one_block-Marshals, config, config-shuffles, genesis_block, genesis-loads,
}

one_leaf : (indexed_changes (config memory) [] first_commit.state_changes).1 ≤ 8 ^ 1
unfolding indexed_changes lookup
one_leaf = omega arith

commit-get_last_block_example :
    (d' : Memory) × (commit (config memory) 3 first_data [] ≡ done d')
    × (get_last_block memory plain one_block d' ≡ found genesis_block)
    × (get_block memory plain one_block (1 ∷ []) d' ≡ found genesis_block)
    × (get_block_height memory plain one_block d' ≡ found 0)
    × All (λ (tx : PbTransaction). has_tx memory plain one_block tx.hash d' ≡ true) (first_tx ∷ [])
commit-get_last_block_example =
    commit-get_last_block (config memory) (omega arith) config-shuffles one_block-Marshals
      memory-IsDatabase memory-IsReliable first_data genesis_block 3 1 [] one_leaf (omega arith)
      (omega arith) genesis-loads

-- A database that accepts no commit, with a last block of height 4.
abbrev stuck : Badger Memory
stuck = record { get = λ k d. lookup k d; set = λ k v d. some (insert k v d); commit = λ d. none }

stuck-IsDatabase : IsDatabase stuck
stuck-IsDatabase = record {
  get_set = λ k v j d d' e. ap (lookup j) (sym (some-injective _ _ e)) ∙ lookup-insert k j v d;
  get_commit = λ j d d' e. absurd (ground (arith, e));
}

fourth : Memory
fourth = (3 ∷ [], be64 4) ∷ (2 ∷ be64 4, 9 ∷ []) ∷ []

abbrev no_changes : CommitData
no_changes = record first_data { block_commit = record first_commit { state_changes = [] } }

fourth-height : get_block_height stuck plain one_block fourth ≡ found 4
unfolding get_block_height fourth be64 be64_value lookup bytes_eq
fourth-height = refl

fourth-hash : get_block_hash_by_height stuck plain one_block 4 fourth ≡ found (9 ∷ [])
unfolding get_block_hash_by_height fourth be64 lookup bytes_eq
fourth-hash = refl

stuck-undone : is_done (commit (config stuck) 3 no_changes fourth) ≡ false
unfolding commit write_commit_data write_chain_data update_badger_db run_updates fourth
stuck-undone = refl

unfinished-get_last_block_example :
    (get_block_height stuck plain one_block (result (commit (config stuck) 3 no_changes fourth))
      ≡ found 4)
    × (get_last_block stuck plain one_block (result (commit (config stuck) 3 no_changes fourth))
        ≡ get_last_block stuck plain one_block fourth)
unfinished-get_last_block_example =
    unfinished-get_last_block (config stuck) stuck-IsDatabase 3 no_changes fourth 4 (9 ∷ [])
      fourth-height fourth-hash (omega arith) (omega arith) refl (unfold bytes_eq in refl)
      stuck-undone
