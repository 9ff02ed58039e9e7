-- ===== src/Merkle/Tree.antt =====
-- merkle/types.go, merkle/tree.go and merkle/store.go: groups of nodes, the update of a tree from
-- changed leaves, its verification, and a store. A nil slice of bytes is `none`.
use hs_blockchain.Prelude.{
  ℕ, zero, suc, Bool, true, false, not, Option, none, some, List, [], ◌∷◌, ◌++◌, Bytes, bytes_eq,
  if◌then◌else◌, ◌==◌, ltb, leb, ◌+◌, ◌%◌, Map, lookup, insert, map, replicate,
}
use hs_blockchain.Merkle.TreeCalc.{
  TreeCalc, group_count, height, first_node_of_group, group_of_node, node_index_in_group,
}
use hs_blockchain.Merkle.Position.{Position, new_position, unique_map}

abbrev pub Data : Type 0
Data = Option Bytes

-- What h.Write writes of a slice.
abbrev pub written : Data → Bytes
written none = []
written (some b) = b

pub record Node : Type 0 where
  pub position : Position
  pub node_data : Data

-- The interface Store.
pub record Store : Type 0 where
  pub leaf_count : ℕ
  pub height : ℕ
  pub get_node : Position → Data

pub record Group : Type 0 where
  pub parent_position : Position
  pub nodes : List (Option Node)

pub record UpdateResult : Type 0 where
  pub leaf_count : ℕ
  pub height : ℕ
  pub leaves : List Node
  pub branches : List Node
  pub root : Node

-- `nodes[i] = n`, where there is such an index.
unfoldable pub set_at : ℕ → Node → List (Option Node) → List (Option Node)
set_at i n [] = []
set_at zero n (m ∷ ms) = some n ∷ ms
set_at (suc i) n (m ∷ ms) = m ∷ set_at i n ms

unfoldable pub is_empty : List (Option Node) → Bool
is_empty [] = true
is_empty (some n ∷ ns) = false
is_empty (none ∷ ns) = is_empty ns

unfoldable pub written_nodes : List (Option Node) → Bytes
written_nodes [] = []
written_nodes (some n ∷ ns) = written n.node_data ++ written_nodes ns
written_nodes (none ∷ ns) = written_nodes ns

unfoldable pub last_node : List Node → Option Node
last_node [] = none
last_node (n ∷ []) = some n
last_node (n ∷ m ∷ ns) = last_node (m ∷ ns)

abbrev pub first_node : List Node → Option Node
first_node [] = none
first_node (n ∷ ns) = some n

-- The end of Verify: the roots are compared. `none` is a panic of Update.
unfoldable pub compare_roots : Node → Option UpdateResult → Option Bool
compare_roots old none = none
compare_roots old (some res) = some (bytes_eq (written old.node_data) (written res.root.node_data))

-- The calculator that NewTree makes of a configured branch factor.
unfoldable pub new_tree_calc : ℕ → TreeCalc
new_tree_calc branch_factor = record { bfactor = if ltb branch_factor 2 then 2 else branch_factor }

module _ (hash : Bytes → Bytes) (tc : TreeCalc) (store : Store) where
  -- NewGroup
  unfoldable pub new_group : Position → Group
  new_group p = record { parent_position = p; nodes = replicate tc.bfactor none }

  -- SetNode
  unfoldable pub set_node : Node → Group → Group
  unfolding set_at node_index_in_group
  set_node n g = record g { nodes = set_at (node_index_in_group tc n.position.index) n g.nodes }

  -- The loop of Load from the child with the given index on.
  unfoldable pub load_loop : ℕ → ℕ → ℕ → List (Option Node) → List (Option Node)
  unfolding new_position
  load_loop row_size level index [] = []
  load_loop row_size level index (some n ∷ ns) = some n ∷ load_loop row_size level (suc index) ns
  load_loop row_size level index (none ∷ ns) =
      let rest = load_loop row_size level (suc index) ns in
      if leb row_size index then none ∷ ns else elim (store.get_node (new_position level index)) [
        | none ↦ none ∷ rest
        | some d ↦ some (record { position = new_position level index; node_data = some d }) ∷ rest
      ]

  -- Load; the level below is a uint8.
  unfoldable pub load : ℕ → Group → Group
  unfolding load_loop first_node_of_group
  load row_size g = record g {
    nodes =
        load_loop row_size ((g.parent_position.level + 255) % 256)
          (first_node_of_group tc g.parent_position.index) g.nodes;
  }

  -- Sum
  unfoldable pub sum : Group → Data
  unfolding is_empty written_nodes
  sum g = if is_empty g.nodes then none else some (hash (written_nodes g.nodes))

  -- MakeParent
  unfoldable pub make_parent : Group → Node
  unfolding sum
  make_parent g = record { position = g.parent_position; node_data = sum g }

  -- The position that getGroupPositions gives a node.
  unfoldable pub group_position : Node → Position
  unfolding new_position group_of_node
  group_position n = new_position ((n.position.level + 1) % 256) (group_of_node tc n.position.index)

  -- The nodes that groupNodesByParent and updateOneLevel set in the group of the key.
  unfoldable pub set_nodes : Bytes → List Node → Group → Group
  unfolding group_position set_node
  set_nodes key [] g = g
  set_nodes key (n ∷ ns) g =
      set_nodes key ns (if bytes_eq (group_position n).bytes key then set_node n g else g)

  -- What a worker makes of a group.
  unfoldable pub parent_of : List Node → ℕ → Bytes × Position → Node
  unfolding make_parent load set_nodes new_group
  parent_of nodes row_size (key, p) =
      make_parent (load row_size (set_nodes key nodes (new_group p)))

  -- updateOneLevel. The workers give the parents in any order, which `arrive` stands for.
  unfoldable pub update_one_level : (List Node → List Node) → List Node → ℕ → List Node
  unfolding parent_of unique_map
  update_one_level arrive nodes row_size =
      arrive (map (parent_of nodes row_size) (unique_map (map group_position nodes)))

  -- The levels of Update above the leaves, one after the other.
  unfoldable pub update_loop : ℕ → (ℕ → List Node → List Node) → List Node → ℕ → List Node
  unfolding update_one_level group_count
  update_loop zero arrive nodes row_size = []
  update_loop (suc levels) arrive nodes row_size =
      let parents = update_one_level (arrive levels) nodes row_size in
      parents ++ update_loop levels arrive parents (group_count tc row_size)

  -- Update, for a height that is known; its `h-1` is one of a uint8.
  unfoldable pub update_at : ℕ → (ℕ → List Node → List Node) → List Node → ℕ → Option UpdateResult
  unfolding update_loop last_node
  update_at h arrive leaves new_leaf_count =
      let branches = update_loop ((h + 255) % 256) arrive leaves new_leaf_count in
      elim (if ltb 1 h then last_node branches else first_node leaves) [
        | none ↦ none
        | some root ↦ some (record {
          leaf_count = new_leaf_count;
          height = h;
          leaves = leaves;
          branches = branches;
          root = root;
        })
      ]

  -- Update; `none` is the panic without leaves, or a loop of Height that does not end.
  unfoldable pub update : (ℕ → List Node → List Node) → List Node → ℕ → Option UpdateResult
  unfolding update_at height
  update arrive leaves new_leaf_count = elim (height tc new_leaf_count) [
    | none ↦ none
    | some h ↦ update_at h arrive leaves new_leaf_count
  ]

  -- Root; the height of an empty store is 0, and the level below it is 255.
  unfoldable pub root : Option Node
  unfolding new_position
  root =
      let p = new_position ((store.height + 255) % 256) 0 in
      elim (store.get_node p) [
        | none ↦ none
        | some d ↦ some (record { position = p; node_data = some d })
      ]

  -- The checks of Verify on the leaves.
  unfoldable pub are_leaves : List Node → Bool
  are_leaves [] = true
  are_leaves (n ∷ ns) =
      if not (n.position.level == 0)
      then false
      else if leb store.leaf_count n.position.index
      then false
      else are_leaves ns

  -- Verify
  unfoldable pub verify : (ℕ → List Node → List Node) → List Node → Option Bool
  unfolding root are_leaves update compare_roots
  verify arrive [] = some false
  verify arrive (n ∷ ns) = elim root [
    | none ↦ some false
    | some r ↦
        if store.leaf_count == 0
        then some false
        else if not (are_leaves (n ∷ ns))
        then some false
        else compare_roots r (update arrive (n ∷ ns) store.leaf_count)
  ]

-- MapStore
pub record MapStore : Type 0 where
  pub leaf_count : ℕ
  pub height : ℕ
  pub nodes : Map Data

unfoldable pub new_map_store : MapStore
new_map_store = record { leaf_count = 0; height = 0; nodes = [] }

unfoldable pub get_map_node : MapStore → Position → Data
get_map_node ms p = elim (lookup p.bytes ms.nodes) [ none ↦ none | some d ↦ d ]

-- The methods of MapStore as a Store.
unfoldable pub store_of : MapStore → Store
unfolding get_map_node
store_of ms = record { leaf_count = ms.leaf_count; height = ms.height; get_node = get_map_node ms }

unfoldable pub insert_nodes : List Node → Map Data → Map Data
insert_nodes [] m = m
insert_nodes (n ∷ ns) m = insert_nodes ns (insert n.position.bytes n.node_data m)

-- CommitUpdate
unfoldable pub commit_update : UpdateResult → MapStore → MapStore
unfolding insert_nodes
commit_update res ms = record {
  leaf_count = res.leaf_count;
  height = res.height;
  nodes = insert_nodes res.branches (insert_nodes res.leaves ms.nodes);
}
