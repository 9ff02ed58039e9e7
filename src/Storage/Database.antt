-- ===== src/Storage/Database.antt =====
-- storage/db.go: the collections of the database and its updates. badger is a library, which `Badger`
-- names.
use hs_blockchain.Prelude.{
  ℕ, ◌≡◌, Bool, true, false, Option, none, some, List, [], ◌∷◌, Bytes, bytes_eq, if◌then◌else◌,
}

-- The prefixes of the collections.
abbrev pub col_block_by_hash : ℕ
col_block_by_hash = 1

abbrev pub col_block_hash_by_height : ℕ
col_block_hash_by_height = 2

abbrev pub col_block_height : ℕ
col_block_height = 3

abbrev pub col_last_qc : ℕ
col_last_qc = 4

abbrev pub col_block_commit_by_hash : ℕ
col_block_commit_by_hash = 5

abbrev pub col_tx_by_hash : ℕ
col_tx_by_hash = 7

abbrev pub col_tx_commit_by_hash : ℕ
col_tx_commit_by_hash = 8

abbrev pub col_state_value_by_key : ℕ
col_state_value_by_key = 9

abbrev pub col_merkle_index_by_state_key : ℕ
col_merkle_index_by_state_key = 10

abbrev pub col_merkle_tree_height : ℕ
col_merkle_tree_height = 11

abbrev pub col_merkle_leaf_count : ℕ
col_merkle_leaf_count = 12

abbrev pub col_merkle_node_by_position : ℕ
col_merkle_node_by_position = 13

-- A database: what a key has, Txn.Set in a transaction, and Txn.Commit; `none` is an error.
pub record Badger (D : Type 0) : Type 0 where
  pub get : Bytes → D → Option Bytes
  pub set : Bytes → Bytes → D → Option D
  pub commit : D → Option D

-- What the code relies on: a value that is set is read, no other changes, and a commit keeps both.
pub record IsDatabase {D : Type 0} (db : Badger D) : Type 0 where
  pub get_set :
      (k v j : Bytes) (d d' : D)
      → db.set k v d ≡ some d'
      → db.get j d' ≡ (if bytes_eq k j then some v else db.get j d)
  pub get_commit : (j : Bytes) (d d' : D) → db.commit d ≡ some d' → db.get j d' ≡ db.get j d

-- No call fails.
pub record IsReliable {D : Type 0} (db : Badger D) : Type 0 where
  pub sets : (k v : Bytes) (d : D) → (d' : D) × (db.set k v d ≡ some d')
  pub commits : (d : D) → (d' : D) × (db.commit d ≡ some d')

-- updateFunc
abbrev pub UpdateFunc : Type 0 → Type 0
UpdateFunc D = D → Option D

-- The database after an update, or as it is when the update fails or panics.
pub data Write (D : Type 0) : Type 0 where
  done failed panicked : D → Write D

infixl 5 ◌then◌
abbrev pub ◌then◌ : {D : Type 0} → Write D → (D → Write D) → Write D
done d then f = f d
failed d then f = failed d
panicked d then f = panicked d

module _ {D : Type 0} (db : Badger D) where
  -- The functions of an update, one after the other.
  unfoldable pub run_updates : List (UpdateFunc D) → D → Option D
  run_updates [] d = some d
  run_updates (fn ∷ fns) d = elim (fn d) [ none ↦ none | some d' ↦ run_updates fns d' ]

  -- updateBadgerDB: one transaction, so that an error leaves all as it was.
  unfoldable pub update_badger_db : List (UpdateFunc D) → D → Write D
  unfolding run_updates
  update_badger_db fns d = elim (run_updates fns d) [
    | none ↦ failed d
    | some d' ↦ elim (db.commit d') [ none ↦ failed d | some d'' ↦ done d'' ]
  ]

  -- HasKey
  unfoldable pub has_key : Bytes → D → Bool
  has_key k d = elim (db.get k d) [ none ↦ false | some _ ↦ true ]

-- concatBytes of a prefix and a key.
abbrev pub column : ℕ → Bytes → Bytes
column col key = col ∷ key
