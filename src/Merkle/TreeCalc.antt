-- ===== src/Merkle/TreeCalc.antt =====
-- merkle/tree_calc.go: node counts, groups and the height of a tree. A big.Int is a number here, since
-- no caller passes a negative one; the branch factor is a uint8 and the height wraps like one.
use hs_blockchain.Prelude.{
  ℕ, zero, suc, Option, none, some, if◌then◌else◌, ltb, ◌+◌, ◌*◌, ◌/◌, ◌%◌, ◌^◌,
}

pub record TreeCalc : Type 0 where
  pub bfactor : ℕ

module _ (tc : TreeCalc) where
  -- GroupCount
  unfoldable pub group_count : ℕ → ℕ
  group_count node_count =
      let count = node_count / tc.bfactor in
      if ltb 0 (node_count % tc.bfactor) then count + 1 else count

  -- The loop of Height, on fuel: `none` is a loop that goes on.
  unfoldable pub height_loop : ℕ → ℕ → ℕ → Option ℕ
  unfolding group_count
  height_loop zero node_count h = none
  height_loop (suc fuel) node_count h =
      let rest = height_loop fuel (group_count node_count) ((h + 1) % 2 ^ 8) in
      if ltb 1 node_count then rest else some h

  -- Height
  unfoldable pub height : ℕ → Option ℕ
  unfolding height_loop
  height nleaf = height_loop (nleaf + 1) nleaf 1

  -- FirstNodeOfGroup
  unfoldable pub first_node_of_group : ℕ → ℕ
  first_node_of_group blk_idx = blk_idx * tc.bfactor

  -- GroupOfNode
  unfoldable pub group_of_node : ℕ → ℕ
  group_of_node node_idx = node_idx / tc.bfactor

  -- NodeIndexInGroup
  unfoldable pub node_index_in_group : ℕ → ℕ
  node_index_in_group node_idx = node_idx % tc.bfactor
