-- ===== src/Merkle/Updates.antt =====
-- The levels of Update of merkle/tree.go, one above the other: the changed nodes have the values of the
-- new tree, and the store has those that do not change.
use hs_blockchain.Prelude.{
  ℕ, zero, suc, ◌≡◌, ◌∙◌, refl, ap, Bool-cases, true, false, some, List, Bytes, ◌+◌, ◌*◌, ◌≤◌, ◌<◌,
  arith, inl, inr, All, ltb,
}
use hs_blockchain.Merkle.TreeCalc.{TreeCalc, height, first_node_of_group, group_of_node}
use hs_blockchain.Merkle.Position.{new_position}
use hs_blockchain.Merkle.Shape.{node-of_group}
use hs_blockchain.Merkle.Tree.{Node, Store, update_one_level}
use hs_blockchain.Merkle.Spec.{
  rows, children, digest, rows_mono, rows-first_child, first_child-rows,
}
use hs_blockchain.Merkle.Groups.{has_index}
use hs_blockchain.Merkle.Parents.{IsCorrect}
use hs_blockchain.Merkle.Levels.{IsShuffle, update_one_level-IsCorrect, update_one_level-lacks}

-- A store has the tree of the leaves: every node of it, up to a level of one node, and its height.
pub record IsTree (hash : Bytes → Bytes) (tc : TreeCalc) (store : Store) (leaf : ℕ → Bytes)
    : Type 0 where
  pub values :
      (level index : ℕ)
      → level < store.height
      → index < rows tc store.leaf_count level
      → store.get_node (new_position level index)
        ≡ some (digest hash tc leaf store.leaf_count level index)
  pub sized : 0 < store.leaf_count → height tc store.leaf_count ≡ some store.height
  pub rooted : 0 < store.leaf_count → 0 < store.height
  pub top : (level : ℕ) → suc level ≡ store.height → rows tc store.leaf_count level ≤ 1

-- Rows with the same values from an index on.
children-ext :
    (v w : ℕ → Bytes) (r s c k : ℕ)
    → r ≤ s
    → ((x : ℕ) → c ≤ x → x < c + k → x < s → (x < r) × (v x ≡ w x))
    → children v r c k ≡ children w s c k
unfolding children
children-ext v w r s c zero le h = refl
children-ext v w r s c (suc k) le h =
    let rest =
      children-ext v w r s (suc c) k le
        (λ x lo hi lt. h x (omega (arith, lo)) (omega (arith, hi)) lt) in
    elim (Bool-cases (ltb c s)) [
      | inl e ↦
          let (lt, same) = h c (omega arith) (omega arith) (ground (arith, e)) in
          let e' : ltb c r ≡ true = ground (arith, lt) in rw (e, e', same, rest) refl
      | inr e ↦ let e' : ltb c r ≡ false = ground (arith, e, le) in rw (e, e') refl
    ]

module _ (hash : Bytes → Bytes) (tc : TreeCalc) (store : Store) (two : 1 < tc.bfactor)
    (leaf leaf' : ℕ → Bytes) (n : ℕ) (old : IsTree hash tc store leaf)
    (grown : store.leaf_count ≤ n) where
  some_branch : 0 < tc.bfactor
  some_branch = omega (arith, two)

  -- The store has the node, with the value of the new tree.
  pub record IsKept (level c : ℕ) : Type 0 where
    pub below : level < store.height
    pub within : c < rows tc store.leaf_count level
    pub same : digest hash tc leaf store.leaf_count level c ≡ digest hash tc leaf' n level c

  pub IsKept-get_node :
      (level c : ℕ)
      → IsKept level c
      → store.get_node (new_position level c) ≡ some (digest hash tc leaf' n level c)
  IsKept-get_node level c k = old.values level c k.below k.within ∙ ap some k.same

  -- The changed nodes of a level: the nodes of the new row that are not among them are kept.
  pub record IsUpdated (level : ℕ) (nodes : List Node) : Type 0 where
    pub correct : All (IsCorrect level (digest hash tc leaf' n level) (rows tc n level)) nodes
    pub kept : (c : ℕ) → c < rows tc n level → has_index c nodes ≡ false → IsKept level c
    pub changed : ℕ
    pub present : has_index changed nodes ≡ true

  module _ (level : ℕ) (small : level + 1 < 256) (more : 1 < rows tc n level) (nodes : List Node)
      (u : IsUpdated level nodes) where
    stored :
        (c : ℕ)
        → c < rows tc n level
        → has_index c nodes ≡ false
        → store.get_node (new_position level c) ≡ some (digest hash tc leaf' n level c)
    stored c lt out = IsKept-get_node level c (u.kept c lt out)

    IsKept-suc :
        (i : ℕ)
        → i < rows tc n (suc level)
        → ((c : ℕ)
            → i * tc.bfactor ≤ c
            → c < i * tc.bfactor + tc.bfactor
            → c < rows tc n level
            → IsKept level c)
        → IsKept (suc level) i
    IsKept-suc i lt k =
        let first = rows-first_child tc some_branch n level i lt in
        let head = k (i * tc.bfactor) (omega arith) (omega (arith, two)) first in
        record {
          below = elim (Bool-cases (ltb (suc level) store.height)) [
            | inl e ↦ ground (arith, e)
            | inr e ↦
                let one = old.top level (ground (arith, e, head.below)) in
                let second = k 1 (omega (arith, one, head.within)) (omega (arith, two)) more in
                absurd (omega (arith, one, second.within))
          ];
          within = first_child-rows tc some_branch store.leaf_count level i head.within;
          same =
              unfold digest in
              ap hash (
                children-ext _ _ _ _ (i * tc.bfactor) tc.bfactor
                  (rows_mono tc some_branch store.leaf_count n level grown)
                  (λ c lo hi r. let h = k c lo hi r in (h.within, h.same)));
        }

    module _ (arrive : List Node → List Node) (shuffle : IsShuffle arrive) where
      pub update_one_level-IsUpdated :
          IsUpdated (suc level) (update_one_level hash tc store arrive nodes (rows tc n level))
      update_one_level-IsUpdated =
          let lacks =
            update_one_level-lacks hash tc store two level small _ (rows tc n level) nodes u.correct
              stored arrive shuffle in
          let i = group_of_node tc u.changed in
          record {
            correct =
                unfold digest in
                update_one_level-IsCorrect hash tc store two level small
                  (digest hash tc leaf' n level) (rows tc n level) nodes u.correct stored arrive
                  shuffle (rows tc n (suc level)) (λ j. first_child-rows tc some_branch n level j);
            kept = λ j lt out. IsKept-suc j lt (λ c lo hi r. u.kept c r (lacks j c out lo hi));
            changed = i;
            present =
                elim (Bool-cases
                  (has_index i (update_one_level hash tc store arrive nodes (rows tc n level)))) [
                    | inl e ↦ e
                    | inr e ↦
                        let (place, within) = node-of_group tc some_branch u.changed in
                        let lo : i * tc.bfactor ≤ u.changed =
                          unfold first_node_of_group in omega (arith, place) in
                        let hi : u.changed < i * tc.bfactor + tc.bfactor =
                          unfold first_node_of_group in omega (arith, place, within) in
                        let gone = lacks i u.changed e lo hi in
                        absurd (ground (arith, gone, u.present))
                  ];
          }
