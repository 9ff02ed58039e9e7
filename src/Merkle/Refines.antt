-- ===== src/Merkle/Refines.antt =====
-- Update of merkle/tree.go with CommitUpdate of merkle/store.go, against the tree of all leaves.
use hs_blockchain.Prelude.{
  ℕ, zero, suc, ◌≡◌, ◌∙◌, refl, ap, subst, Bool-cases, some, List, Bytes, ◌-◌, ◌^◌, ◌≤◌, ◌<◌, arith,
  inl, inr, All, All-map,
}
use hs_blockchain.Merkle.TreeCalc.{TreeCalc, height}
use hs_blockchain.Merkle.Position.{new_position}
use hs_blockchain.Merkle.Tree.{
  Node, UpdateResult, update_loop, update, MapStore, get_map_node, store_of, insert_nodes,
  commit_update,
}
use hs_blockchain.Merkle.Spec.{rows, digest}
use hs_blockchain.Merkle.Groups.{has_index}
use hs_blockchain.Merkle.Levels.{IsShuffle}
use hs_blockchain.Merkle.Updates.{IsTree, IsKept, IsKept-get_node, IsUpdated}
use hs_blockchain.Merkle.Commit.{
  IsRight, data_at, has_place, has_index-place, insert_nodes-keeps, insert_nodes-has_place,
}
use hs_blockchain.Merkle.Loop.{Covers, update_loop-Covers}
use hs_blockchain.Merkle.Results.{Changes, leaves-IsUpdated, result_of, update-HasResult}

module _ (hash : Bytes → Bytes) (tc : TreeCalc) (two : 1 < tc.bfactor) (ms : MapStore)
    (leaf leaf' : ℕ → Bytes) (n : ℕ) (old : IsTree hash tc (store_of ms) leaf)
    (grown : (store_of ms).leaf_count ≤ n) (arrive : ℕ → List Node → List Node)
    (shuffles : (k : ℕ) → IsShuffle (arrive k)) (leaves : List Node)
    (changes : Changes (store_of ms) leaf leaf' n leaves) where
  updated : IsUpdated hash tc (store_of ms) two leaf leaf' n old grown 0 leaves
  updated =
      leaves-IsUpdated hash tc two (store_of ms) leaf leaf' n old grown arrive shuffles leaves
        changes

  -- What is kept is in the map.
  IsKept-data_at :
      (level index : ℕ)
      → IsKept hash tc (store_of ms) two leaf leaf' n old grown level index
      → data_at (new_position level index) ms.nodes ≡ some (digest hash tc leaf' n level index)
  unfolding store_of get_map_node data_at
  IsKept-data_at level index k =
      IsKept-get_node hash tc (store_of ms) two leaf leaf' n old grown level index k

  leaves-IsRight : All (IsRight (digest hash tc leaf' n) (rows tc n)) leaves
  leaves-IsRight = All-map _ _ leaves (λ x h. (0, h)) updated.correct

  -- The leaves are in the map once they are set.
  leaves-data_at :
      (index : ℕ)
      → index < rows tc n 0
      → data_at (new_position 0 index) (insert_nodes leaves ms.nodes)
        ≡ some (digest hash tc leaf' n 0 index)
  leaves-data_at index within =
      let place =
        has_index-place (digest hash tc leaf' n) (rows tc n) 0 index leaves updated.correct in
      elim (Bool-cases (has_index index leaves)) [
        | inl e ↦
            insert_nodes-has_place (digest hash tc leaf' n) (rows tc n) 0 index leaves ms.nodes
              leaves-IsRight (place ∙ e)
        | inr e ↦
            insert_nodes-keeps (digest hash tc leaf' n) (rows tc n) 0 index leaves ms.nodes
              leaves-IsRight (IsKept-data_at 0 index (updated.kept index within e))
      ]

  module _ (levels : ℕ) (small : levels < 256)
      (more : (m : ℕ) → 0 ≤ m → m < levels → 1 < rows tc n m) where
    covers :
        Covers hash tc
          (store_of ms)
          two
          leaf
          leaf'
          n
          old
          grown
          arrive
          shuffles
          0
          levels
          (update_loop hash tc (store_of ms) levels arrive leaves n)
    covers =
        unfold rows in
        update_loop-Covers hash tc (store_of ms) two leaf leaf' n old grown arrive shuffles levels 0
          leaves updated (omega (arith, small)) (λ m lo hi. more m lo (omega (arith, hi)))

    -- Every node of the new tree is in the store.
    commit-values :
        (level index : ℕ)
        → level < suc levels
        → index < rows tc n level
        → data_at (new_position level index) (
            insert_nodes
              (update_loop hash tc (store_of ms) levels arrive leaves n)
              (insert_nodes leaves ms.nodes))
          ≡ some (digest hash tc leaf' n level index)
    commit-values zero index below within =
        insert_nodes-keeps (digest hash tc leaf' n) (rows tc n) 0 index _ _ covers.right
          (leaves-data_at index within)
    commit-values (suc level) index below within =
        let branches = update_loop hash tc (store_of ms) levels arrive leaves n in
        elim (Bool-cases (has_place (suc level) index branches)) [
          | inl e ↦
              insert_nodes-has_place (digest hash tc leaf' n) (rows tc n) (suc level) index branches
                _ covers.right e
          | inr e ↦
              let kept =
                IsKept-data_at (suc level) index
                  (covers.found (suc level) index (omega arith) (omega (arith, below)) within e) in
              insert_nodes-keeps (digest hash tc leaf' n) (rows tc n) (suc level) index branches _
                covers.right
                (insert_nodes-keeps (digest hash tc leaf' n) (rows tc n) (suc level) index leaves _
                  leaves-IsRight kept)
        ]

    commit_update-IsTree :
        (r : Node)
        → rows tc n levels ≤ 1
        → height tc n ≡ some (suc levels)
        → IsTree hash tc
            (store_of (
              commit_update
                (result_of hash tc two
                  (store_of ms)
                  leaf
                  leaf'
                  n
                  old
                  grown
                  arrive
                  shuffles
                  leaves
                  changes
                  levels
                  r)
                ms))
            leaf'
    commit_update-IsTree r one found =
        unfold store_of get_map_node commit_update data_at in
        record {
          values = commit-values;
          sized = λ some_leaf. found;
          rooted = λ some_leaf. omega arith;
          top = λ level e. subst (λ l. rows tc n l ≤ 1) (omega (arith, e)) one;
        }

  -- For a branch factor of at least 2, a store with the tree of the old leaves, no more old leaves than
  -- new ones, which at most 254 levels of branching hold, and nodes that are correct leaves of the new
  -- tree, with all its other leaves in the old tree, Update gives a result, and the store after
  -- CommitUpdate has the tree of the new leaves: each node has the hash of its children. The
  -- root has the digest of the highest level, and the height is that of the new leaf count. The workers
  -- may give the parents of a level in any order.
  pub update-IsTree :
      (k : ℕ)
      → n ≤ tc.bfactor ^ k
      → k < 255
      → (res : UpdateResult) × (update hash tc (store_of ms) arrive leaves n ≡ some res)
        × IsTree hash tc (store_of (commit_update res ms)) leaf'
        × (res.root.node_data ≡ some (digest hash tc leaf' n (res.height - 1) 0))
        × (height tc n ≡ some res.height)
        × (res.leaf_count ≡ n)
  update-IsTree k fits low =
      let u =
        update-HasResult hash tc two (store_of ms) leaf leaf' n old grown arrive shuffles leaves
          changes k fits low in
      (
        result_of hash tc two (store_of ms) leaf leaf' n old grown arrive shuffles leaves changes
            u.levels u.top,
        u.done,
        commit_update-IsTree u.levels u.small u.more u.top u.one u.found,
        u.valued ∙ ap (λ j. some (digest hash tc leaf' n j 0)) (omega arith),
        u.found,
        refl,
      )
