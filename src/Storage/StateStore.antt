-- ===== src/Storage/StateStore.antt =====
-- storage/state_store.go: the values of the state, their leaves in the Merkle tree, and the leaves of new
-- keys.
use hs_blockchain.Prelude.{
  ℕ, Bool, true, false, not, ◌&&◌, ◌||◌, Option, none, some, List, [], ◌∷◌, ◌++◌, Bytes, bytes_eq,
  if◌then◌else◌, map, ◌+◌, ◌==◌, ltb,
}
use hs_blockchain.Core.Wire.{StateChange}
use hs_blockchain.Merkle.Position.{new_position, int_bytes, set_int_bytes}
use hs_blockchain.Merkle.Tree.{written, Node}
use hs_blockchain.Storage.Database.{
  Badger, UpdateFunc, column, col_state_value_by_key, col_merkle_index_by_state_key,
}

-- `<` of Go's strings, byte by byte.
unfoldable pub bytes_less : Bytes → Bytes → Bool
bytes_less a [] = false
bytes_less [] (y ∷ ys) = true
bytes_less (x ∷ xs) (y ∷ ys) = ltb x y || (x == y && bytes_less xs ys)

-- sort.Strings
unfoldable pub insert_string : Bytes → List Bytes → List Bytes
insert_string k [] = k ∷ []
insert_string k (j ∷ js) =
    let rest = insert_string k js in if bytes_less j k then j ∷ rest else k ∷ j ∷ js

unfoldable pub sort_strings : List Bytes → List Bytes
unfolding insert_string
sort_strings [] = []
sort_strings (k ∷ ks) = insert_string k (sort_strings ks)

-- A state change whose key has no leaf yet.
unfoldable pub is_new : StateChange → Bool
is_new sc = elim (sc.prev_tree_index) [ none ↦ true | some _ ↦ false ]

-- The keys without a leaf, in the order of the list.
unfoldable pub new_keys : List StateChange → List Bytes
unfolding is_new
new_keys [] = []
new_keys (sc ∷ scs) = let rest = new_keys scs in if is_new sc then sc.key ∷ rest else rest

-- The others keep their leaf.
unfoldable pub keep_tree_index : StateChange → StateChange
keep_tree_index sc = elim (sc.prev_tree_index) [
  | none ↦ sc
  | some i ↦ record sc { tree_index = some i }
]

-- setLeafIndex
unfoldable pub set_leaf_index : ℕ → StateChange → StateChange
unfolding int_bytes
set_leaf_index idx sc = record sc {
  tree_index = some (elim (int_bytes idx) [ [] ↦ 0 ∷ [] | x ∷ xs ↦ x ∷ xs ]);
}

-- A change without a leaf has the key: scByKey has its last place.
unfoldable pub has_new : Bytes → List StateChange → Bool
unfolding is_new
has_new key [] = false
has_new key (sc ∷ scs) = (is_new sc && bytes_eq sc.key key) || has_new key scs

-- `setLeafIndex(scList[scByKey[key]], leafCount)`
unfoldable pub set_leaf_of : Bytes → ℕ → List StateChange → List StateChange
unfolding is_new has_new set_leaf_index
set_leaf_of key idx [] = []
set_leaf_of key idx (sc ∷ scs) =
    let rest = set_leaf_of key idx scs in
    if is_new sc && bytes_eq sc.key key && not (has_new key scs)
    then set_leaf_index idx sc ∷ scs
    else sc ∷ rest

-- The second loop of setNewTreeIndexes.
unfoldable pub index_loop : List Bytes → List StateChange → ℕ → List StateChange × ℕ
unfolding set_leaf_of
index_loop [] scs leaf_count = (scs, leaf_count)
index_loop (key ∷ keys) scs leaf_count =
    index_loop keys (set_leaf_of key leaf_count scs) (leaf_count + 1)

-- setNewTreeIndexes: the changes with their leaves, and the new leaf count. The keys are sorted, so that
-- every node gives the same leaves.
unfoldable pub set_new_tree_indexes : List StateChange → ℕ → List StateChange × ℕ
unfolding index_loop sort_strings new_keys keep_tree_index
set_new_tree_indexes scs prev_leaf_count =
    index_loop (sort_strings (new_keys scs)) (map keep_tree_index scs) prev_leaf_count

-- `sc.PrevTreeIndex() == nil || !bytes.Equal(sc.PrevTreeIndex(), sc.TreeIndex())`
unfoldable pub moves_leaf : StateChange → Bool
moves_leaf sc = elim (sc.prev_tree_index) [
  | none ↦ true
  | some i ↦ not (bytes_eq i (written sc.tree_index))
]

module _ {D : Type 0} (db : Badger D) where
  -- getState
  unfoldable pub get_state_value : D → Bytes → Option Bytes
  get_state_value d key = db.get (column col_state_value_by_key key) d

  -- getMerkleIndex
  unfoldable pub get_merkle_index : D → Bytes → Option Bytes
  get_merkle_index d key = db.get (column col_merkle_index_by_state_key key) d

  -- loadPrevValues
  unfoldable pub load_prev_values : D → List StateChange → List StateChange
  unfolding get_state_value
  load_prev_values d scs =
      map (λ (sc : StateChange). record sc { prev_value = get_state_value d sc.key }) scs

  -- loadPrevTreeIndexes
  unfoldable pub load_prev_tree_index : D → StateChange → StateChange
  unfolding get_merkle_index
  load_prev_tree_index d sc = elim (get_merkle_index d sc.key) [
    | none ↦ sc
    | some val ↦ record sc { prev_tree_index = some val }
  ]

  unfoldable pub load_prev_tree_indexes : D → List StateChange → List StateChange
  unfolding load_prev_tree_index
  load_prev_tree_indexes d scs = map (load_prev_tree_index d) scs

  -- setState
  unfoldable pub set_state_value : Bytes → Bytes → UpdateFunc D
  set_state_value key value d = db.set (column col_state_value_by_key key) value d

  -- setTreeIndex
  unfoldable pub set_tree_index : Bytes → Bytes → UpdateFunc D
  set_tree_index key idx d = db.set (column col_merkle_index_by_state_key key) idx d

  -- commitStateChange
  unfoldable pub commit_state_change : StateChange → List (UpdateFunc D)
  unfolding set_state_value set_tree_index moves_leaf
  commit_state_change sc =
      let leaf = set_tree_index sc.key (written sc.tree_index) ∷ [] in
      set_state_value sc.key sc.value ∷ (if moves_leaf sc then leaf else [])

  -- commitStateChanges
  unfoldable pub commit_state_changes : List StateChange → List (UpdateFunc D)
  unfolding commit_state_change
  commit_state_changes [] = []
  commit_state_changes (sc ∷ scs) = commit_state_change sc ++ commit_state_changes scs

module _ (hash : Bytes → Bytes) where
  -- computeUpdatedTreeNodes: the node of each change at its place, whichever worker makes it.
  unfoldable pub updated_node : StateChange → Node
  unfolding new_position set_int_bytes
  updated_node sc = record {
    position = new_position 0 (set_int_bytes 0 (written sc.tree_index));
    node_data = some (hash sc.value);
  }

  unfoldable pub compute_updated_tree_nodes : List StateChange → List Node
  unfolding updated_node
  compute_updated_tree_nodes scs = map updated_node scs
