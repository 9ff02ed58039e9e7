-- ===== src/Merkle/Spec.antt =====
-- The tree that merkle/tree.go keeps, as a function of all its leaves.
use native.Mathlib.Nat.{pow-zero, pow-suc, mul_assoc, mul_comm, div-eq_of_lt-le}
use hs_blockchain.Prelude.{
  ℕ, zero, suc, ◌≡◌, refl, ◌≤◌, ◌<◌, ◌+◌, ◌*◌, ◌^◌, ◌↔◌, Bytes, [], ◌++◌, if◌then◌else◌, ltb, arith,
}
use hs_blockchain.Merkle.TreeCalc.{TreeCalc, group_count, group_of_node}
use hs_blockchain.Merkle.Shape.{group_count-le_iff}

-- The nodes of a level of a tree with some leaves.
unfoldable pub rows : TreeCalc → ℕ → ℕ → ℕ
unfolding group_count
rows tc leaf_count zero = leaf_count
rows tc leaf_count (suc level) = group_count tc (rows tc leaf_count level)

-- The values of the nodes from an index on, as many as are asked for and there are in the row.
unfoldable pub children : (ℕ → Bytes) → ℕ → ℕ → ℕ → Bytes
children value row index zero = []
children value row index (suc count) =
    let rest = children value row (suc index) count in
    if ltb index row then value index ++ rest else []

-- The value of a node: a leaf's own, or the hash of the values of its children.
unfoldable pub digest : (Bytes → Bytes) → TreeCalc → (ℕ → Bytes) → ℕ → ℕ → ℕ → Bytes
unfolding rows children
digest hash tc leaf leaf_count zero index = leaf index
digest hash tc leaf leaf_count (suc level) index = hash (
    children (digest hash tc leaf leaf_count level) (rows tc leaf_count level) (index * tc.bfactor)
      tc.bfactor)

module _ (tc : TreeCalc) (some_branch : 0 < tc.bfactor) where
  pub rows-le_iff : (n level y : ℕ) → (rows tc n level ≤ y) ↔ (n ≤ y * tc.bfactor ^ level)
  unfolding rows
  rows-le_iff n zero y = rw (pow-zero) (λ h. omega (arith, h), λ h. omega (arith, h))
  rows-le_iff n (suc level) y =
      let below = rows-le_iff n level (y * tc.bfactor) in
      let one = group_count-le_iff tc some_branch (rows tc n level) y in
      let same : y * tc.bfactor * tc.bfactor ^ level ≡ y * tc.bfactor ^ suc level =
        rw (pow-suc, mul_assoc, mul_comm tc.bfactor (tc.bfactor ^ level)) refl in
      (λ h. rw (← same) (below.0 (one.0 h)), λ h. one.1 (below.1 (rw same h)))

  pub rows_mono : (m n level : ℕ) → m ≤ n → rows tc m level ≤ rows tc n level
  rows_mono m n level h =
      let all : n ≤ rows tc n level * tc.bfactor ^ level =
        (rows-le_iff n level (rows tc n level)).0 (omega arith) in
      (rows-le_iff m level (rows tc n level)).1 (omega (arith, h, all))

  -- A group of the next level has a first child in the row.
  pub rows-first_child :
      (n level i : ℕ) → i < rows tc n (suc level) → i * tc.bfactor < rows tc n level
  unfolding rows
  rows-first_child n level i h =
      grind (arith, (group_count-le_iff tc some_branch (rows tc n level) i).1, h)

  pub first_child-rows :
      (n level i : ℕ) → i * tc.bfactor < rows tc n level → i < rows tc n (suc level)
  unfolding rows
  first_child-rows n level i h =
      grind (arith, (group_count-le_iff tc some_branch (rows tc n level) i).0, h)

  -- A node at a place of a group is of that group.
  pub group_of-child : (i k : ℕ) → k < tc.bfactor → group_of_node tc (i * tc.bfactor + k) ≡ i
  unfolding group_of_node
  group_of-child i k h = div-eq_of_lt-le tc.bfactor (omega arith) (omega (arith, h))
