-- ===== src/Merkle/Loop.antt =====
-- The loop of Update of merkle/tree.go: what it sends and what it leaves are the new tree, and the last
-- node is its root.
use hs_blockchain.Prelude.{
  ℕ, zero, suc, ◌≡◌, ◌∙◌, refl, sym, ap, subst, Bool-cases, true, false, some, List, [], ◌∷◌, Bytes,
  ◌++◌, ◌+◌, ◌≤◌, ◌<◌, arith, inl, inr, All, All-map, All-append, ◌==◌,
}
use hs_blockchain.Merkle.TreeCalc.{TreeCalc}
use hs_blockchain.Merkle.Tree.{Node, Store, update_one_level, update_loop, last_node, first_node}
use hs_blockchain.Merkle.Spec.{rows, digest}
use hs_blockchain.Merkle.Groups.{has_index}
use hs_blockchain.Merkle.Parents.{IsCorrect}
use hs_blockchain.Merkle.Levels.{IsShuffle}
use hs_blockchain.Merkle.Updates.{IsTree, IsKept, IsUpdated, update_one_level-IsUpdated}
use hs_blockchain.Merkle.Commit.{IsRight, has_place, has_place-append, has_index-place}

last_node-append :
    (ms ns : List Node) (r : Node) → last_node ns ≡ some r → last_node (ms ++ ns) ≡ some r
unfolding last_node
last_node-append [] ns r h = h
last_node-append (m ∷ []) [] r h = absurd (ground (arith, h))
last_node-append (m ∷ []) (n ∷ ns) r h = h
last_node-append (m ∷ k ∷ ms) ns r h = last_node-append (k ∷ ms) ns r h

-- A list with an index has a first and a last node.
last_node-All :
    (P : Node → Type 0) (n : Node) (ns : List Node)
    → All P (n ∷ ns)
    → (r : Node) × (last_node (n ∷ ns) ≡ some r) × P r
unfolding last_node
last_node-All P n [] a = (n, refl, a.0)
last_node-All P n (m ∷ ns) a = last_node-All P m ns a.1

last_node-has_index :
    (P : Node → Type 0) (c : ℕ) (ns : List Node)
    → has_index c ns ≡ true
    → All P ns
    → (r : Node) × (last_node ns ≡ some r) × P r
unfolding has_index
last_node-has_index P c [] h a = absurd (ground (arith, h))
last_node-has_index P c (n ∷ ns) h a = last_node-All P n ns a

pub first_node-has_index :
    (P : Node → Type 0) (c : ℕ) (ns : List Node)
    → has_index c ns ≡ true
    → All P ns
    → (r : Node) × (first_node ns ≡ some r) × P r
unfolding has_index
first_node-has_index P c [] h a = absurd (ground (arith, h))
first_node-has_index P c (n ∷ ns) h a = (n, refl, a.0)

append-nil : (ns : List Node) → ns ++ [] ≡ ns
append-nil [] = refl
append-nil (n ∷ ns) = ap (λ x. n ∷ x) (append-nil ns)

module _ (hash : Bytes → Bytes) (tc : TreeCalc) (store : Store) (two : 1 < tc.bfactor)
    (leaf leaf' : ℕ → Bytes) (n : ℕ) (old : IsTree hash tc store leaf)
    (grown : store.leaf_count ≤ n) (arrive : ℕ → List Node → List Node)
    (shuffles : (k : ℕ) → IsShuffle (arrive k)) where
  abbrev Value : ℕ → ℕ → Bytes
  Value = digest hash tc leaf' n

  -- The nodes sent for the levels above one: all are right, and the others are kept.
  pub record Covers (level levels : ℕ) (branches : List Node) : Type 0 where
    pub right : All (IsRight (digest hash tc leaf' n) (rows tc n)) branches
    pub found :
        (m c : ℕ)
        → level < m
        → m ≤ level + levels
        → c < rows tc n m
        → has_place m c branches ≡ false
        → IsKept hash tc store two leaf leaf' n old grown m c

  pub update_loop-Covers :
      (levels level : ℕ) (nodes : List Node)
      → IsUpdated hash tc store two leaf leaf' n old grown level nodes
      → level + levels < 256
      → ((m : ℕ) → level ≤ m → m < level + levels → 1 < rows tc n m)
      → Covers level levels (update_loop hash tc store levels arrive nodes (rows tc n level))
  unfolding update_loop rows
  update_loop-Covers zero level nodes u small more = record {
    right = tt;
    found = λ m c lo hi lt out. absurd (omega (arith, lo, hi));
  }
  update_loop-Covers (suc levels) level nodes u small more =
      let parents = update_one_level hash tc store (arrive levels) nodes (rows tc n level) in
      let u' =
        update_one_level-IsUpdated hash tc store two leaf leaf' n old grown level
          (omega (arith, small)) (more level (omega arith) (omega arith)) nodes u (arrive levels)
          (shuffles levels) in
      let rest =
        update_loop-Covers levels (suc level) parents u' (omega (arith, small))
          (λ m lo hi. more m (omega (arith, lo)) (omega (arith, hi))) in
      record {
        right =
            All-append _ parents _ (All-map _ _ parents (λ x h. (suc level, h)) u'.correct)
              rest.right;
        found = λ m c lo hi lt out.
            let split =
              sym (
                has_place-append m c parents
                  (update_loop hash tc store levels arrive parents (rows tc n (suc level))))
              ∙ out in
            elim (Bool-cases (m == suc level)) [
              | inr e ↦
                  rest.found m c (ground (arith, e, lo)) (omega (arith, hi)) lt
                    (ground (arith, split))
              | inl e ↦
                  let eq : m ≡ suc level = ground (arith, e) in
                  let place = has_index-place Value (rows tc n) (suc level) c parents u'.correct in
                  let here : has_place (suc level) c parents ≡ false = ground (arith, split, eq) in
                  subst (λ x. IsKept hash tc store two leaf leaf' n old grown x c) (sym eq)
                    (u'.kept c (subst (λ x. c < rows tc n x) eq lt) (sym place ∙ here))
            ];
      }

  -- The last node that is sent is one of the highest level.
  pub update_loop-last_node :
      (levels level : ℕ) (nodes : List Node)
      → IsUpdated hash tc store two leaf leaf' n old grown level nodes
      → level + suc levels < 256
      → ((m : ℕ) → level ≤ m → m < level + suc levels → 1 < rows tc n m)
      → (r : Node) × (last_node
            (update_loop hash tc store (suc levels) arrive nodes (rows tc n level))
          ≡ some r)
        × IsCorrect
            (level + suc levels)
            (digest hash tc leaf' n (level + suc levels))
            (rows tc n (level + suc levels))
            r
  unfolding update_loop rows
  update_loop-last_node zero level nodes u small more =
      let parents = update_one_level hash tc store (arrive zero) nodes (rows tc n level) in
      let u' =
        update_one_level-IsUpdated hash tc store two leaf leaf' n old grown level
          (omega (arith, small)) (more level (omega arith) (omega arith)) nodes u (arrive zero)
          (shuffles zero) in
      let (r, last, right) = last_node-has_index _ u'.changed parents u'.present u'.correct in
      (
        r,
        ap last_node (append-nil parents) ∙ last,
        subst (λ l. IsCorrect l (digest hash tc leaf' n l) (rows tc n l) r) (omega arith) right,
      )
  update_loop-last_node (suc levels) level nodes u small more =
      let parents = update_one_level hash tc store (arrive (suc levels)) nodes (rows tc n level) in
      let u' =
        update_one_level-IsUpdated hash tc store two leaf leaf' n old grown level
          (omega (arith, small)) (more level (omega arith) (omega arith)) nodes u
          (arrive (suc levels)) (shuffles (suc levels)) in
      let (r, last, right) =
        update_loop-last_node levels (suc level) parents u' (omega (arith, small))
          (λ m lo hi. more m (omega (arith, lo)) (omega (arith, hi))) in
      (
        r,
        last_node-append parents _ r last,
        subst (λ l. IsCorrect l (digest hash tc leaf' n l) (rows tc n l) r) (omega arith) right,
      )
