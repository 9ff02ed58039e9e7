-- ===== src/Storage/MerkleStore.antt =====
-- storage/merkle_store.go: the nodes, the leaf count and the height of the Merkle tree in the database.
use hs_blockchain.Prelude.{ℕ, none, some, List, [], ◌∷◌, ◌++◌, map}
use hs_blockchain.Merkle.Position.{Position, int_bytes, set_int_bytes}
use hs_blockchain.Merkle.Tree.{Data, written, Node, Store, UpdateResult}
use hs_blockchain.Storage.Database.{
  Badger, UpdateFunc, column, col_merkle_tree_height, col_merkle_leaf_count,
  col_merkle_node_by_position,
}

module _ {D : Type 0} (db : Badger D) where
  -- getNode
  unfoldable pub get_merkle_node : D → Position → Data
  get_merkle_node d p = db.get (column col_merkle_node_by_position p.bytes) d

  -- getLeafCount
  unfoldable pub get_leaf_count : D → ℕ
  unfolding set_int_bytes
  get_leaf_count d = elim (db.get (column col_merkle_leaf_count []) d) [
    | none ↦ 0
    | some val ↦ set_int_bytes 0 val
  ]

  -- getHeight
  unfoldable pub get_tree_height : D → ℕ
  get_tree_height d = elim (db.get (column col_merkle_tree_height []) d) [
    | none ↦ 0
    | some val ↦ elim val [ [] ↦ 0 | h ∷ rest ↦ h ]
  ]

  -- merkleStore as the store of a tree.
  unfoldable pub merkle_store : D → Store
  unfolding get_merkle_node get_leaf_count get_tree_height
  merkle_store d = record {
    leaf_count = get_leaf_count d;
    height = get_tree_height d;
    get_node = get_merkle_node d;
  }

  -- setNode
  unfoldable pub set_merkle_node : Node → UpdateFunc D
  set_merkle_node n d =
      db.set (column col_merkle_node_by_position n.position.bytes) (written n.node_data) d

  -- setNodes
  unfoldable pub set_merkle_nodes : List Node → List (UpdateFunc D)
  unfolding set_merkle_node
  set_merkle_nodes nodes = map set_merkle_node nodes

  -- setLeafCount
  unfoldable pub set_leaf_count : ℕ → UpdateFunc D
  unfolding int_bytes
  set_leaf_count leaf_count d = db.set (column col_merkle_leaf_count []) (int_bytes leaf_count) d

  -- setTreeHeight
  unfoldable pub set_tree_height : ℕ → UpdateFunc D
  set_tree_height height d = db.set (column col_merkle_tree_height []) (height ∷ []) d

  -- commitUpdate
  unfoldable pub commit_update : UpdateResult → List (UpdateFunc D)
  unfolding set_merkle_nodes set_leaf_count set_tree_height
  commit_update upd =
      set_merkle_nodes upd.leaves
      ++ (set_merkle_nodes upd.branches
          ++ (set_leaf_count upd.leaf_count ∷ set_tree_height upd.height ∷ []))
