-- ===== src/Merkle/Results.antt =====
-- Update of merkle/tree.go against the tree of all leaves: the result that it sends.
use hs_blockchain.Prelude.{
  ℕ, zero, suc, ◌≡◌, ◌∙◌, refl, ap, subst, Bool-cases, true, false, Option, some, List, [], ◌∷◌,
  Bytes, ◌+◌, ◌%◌, ◌^◌, ◌≤◌, ◌<◌, arith, inl, inr, All, ltb, length,
}
use hs_blockchain.Merkle.TreeCalc.{TreeCalc, height}
use hs_blockchain.Merkle.Shape.{height-Levels}
use hs_blockchain.Merkle.Tree.{Node, Store, UpdateResult, update_loop, update_at, update}
use hs_blockchain.Merkle.Spec.{rows, rows-le_iff, digest}
use hs_blockchain.Merkle.Groups.{has_index}
use hs_blockchain.Merkle.Parents.{IsCorrect}
use hs_blockchain.Merkle.Levels.{IsShuffle}
use hs_blockchain.Merkle.Updates.{IsTree, IsUpdated}
use hs_blockchain.Merkle.Loop.{update_loop-last_node, first_node-has_index}

-- The nodes given are leaves of the new tree, one at least, and all others of its leaves are in the old
-- tree, unchanged.
pub record Changes (store : Store) (leaf leaf' : ℕ → Bytes) (n : ℕ) (leaves : List Node)
    : Type 0 where
  pub correct : All (IsCorrect 0 leaf' n) leaves
  pub same :
      (c : ℕ) → c < n → has_index c leaves ≡ false → (c < store.leaf_count) × (leaf c ≡ leaf' c)
  pub some_leaf : 0 < length leaves

first_index : List Node → ℕ
first_index [] = 0
first_index (n ∷ ns) = n.position.index

has_index-first : (ns : List Node) → 0 < length ns → has_index (first_index ns) ns ≡ true
unfolding has_index first_index
has_index-first [] h = absurd (omega (arith, h))
has_index-first (n ∷ ns) h = ground arith

module _ (hash : Bytes → Bytes) (tc : TreeCalc) (two : 1 < tc.bfactor) (store : Store)
    (leaf leaf' : ℕ → Bytes) (n : ℕ) (old : IsTree hash tc store leaf)
    (grown : store.leaf_count ≤ n) (arrive : ℕ → List Node → List Node)
    (shuffles : (k : ℕ) → IsShuffle (arrive k)) (leaves : List Node)
    (changes : Changes store leaf leaf' n leaves) where
  some_branch : 0 < tc.bfactor
  some_branch = omega (arith, two)

  pub leaves-IsUpdated : IsUpdated hash tc store two leaf leaf' n old grown 0 leaves
  leaves-IsUpdated =
      unfold digest rows in
      record {
        correct = changes.correct;
        kept = λ c lt out.
            let (within, same) = changes.same c lt out in
            record { below = old.rooted (omega (arith, within)); within = within; same = same };
        changed = first_index leaves;
        present = has_index-first leaves changes.some_leaf;
      }

  -- The result, with as many levels of branches.
  abbrev pub result_of : ℕ → Node → UpdateResult
  result_of levels r = record {
    leaf_count = n;
    height = suc levels;
    leaves = leaves;
    branches = update_loop hash tc store levels arrive leaves n;
    root = r;
  }

  -- Update sends this result, and its root is the top of the new tree.
  update_at-result_of :
      (levels : ℕ)
      → (small : levels < 256) → (more : (m : ℕ) → 0 ≤ m → m < levels → 1 < rows tc n m)
      → (r : Node) × (update_at hash tc store (suc levels) arrive leaves n
          ≡ some (result_of levels r))
        × IsCorrect levels (digest hash tc leaf' n levels) (rows tc n levels) r
  unfolding update_at rows
  update_at-result_of zero small more =
      let (r, first, right) =
        first_node-has_index _ _ leaves leaves-IsUpdated.present leaves-IsUpdated.correct in
      (r, rw (update_at, first) refl, right)
  update_at-result_of (suc levels) small more =
      let (r, last, right) =
        update_loop-last_node hash tc store two leaf leaf' n old grown arrive shuffles levels 0
          leaves leaves-IsUpdated (omega (arith, small))
          (λ m lo hi. more m lo (omega (arith, hi))) in
      let h : (suc (suc levels) + 255) % 256 ≡ suc levels = omega (arith, small) in
      let tall : ltb 1 (suc (suc levels)) ≡ true = ground arith in
      let with_levels : ℕ → Option UpdateResult = λ k. some (record {
        leaf_count = n;
        height = suc (suc levels);
        leaves = leaves;
        branches = update_loop hash tc store k arrive leaves n;
        root = r;
      }) in
      (
        r,
        rw (update_at, tall, h, last) (ap with_levels h),
        subst (λ l. IsCorrect l (digest hash tc leaf' n l) (rows tc n l) r) (omega arith) right,
      )

  -- What Update sends: its levels are the least that hold the leaves, and the root is the top of the new
  -- tree.
  pub record HasResult : Type 0 where
    pub levels : ℕ
    pub small : levels < 256
    pub more : (m : ℕ) → 0 ≤ m → m < levels → 1 < rows tc n m
    pub top : Node
    pub done : update hash tc store arrive leaves n ≡ some (result_of levels top)
    pub one : rows tc n levels ≤ 1
    pub found : height tc n ≡ some (suc levels)
    pub valued : top.node_data ≡ some (digest hash tc leaf' n levels 0)

  pub update-HasResult : (k : ℕ) → n ≤ tc.bfactor ^ k → k < 255 → HasResult
  unfolding update
  update-HasResult k fits low =
      let l = height-Levels tc some_branch n k two fits low in
      let levels = l.levels in
      let le = l.least k fits in
      let more : (m : ℕ) → 0 ≤ m → m < levels → 1 < rows tc n m = λ m lo hi.
        elim (Bool-cases (ltb 1 (rows tc n m))) [
          | inl e ↦ ground (arith, e)
          | inr e ↦
              let under = (rows-le_iff tc some_branch n m 1).0 (ground (arith, e)) in
              let least = l.least m (omega (arith, under)) in absurd (omega (arith, least, hi))
        ] in
      let small : levels < 256 = omega (arith, le, low) in
      let found : height tc n ≡ some (suc levels) = l.result ∙ ap some (omega arith) in
      let (r, done, right) = update_at-result_of levels small more in
      let one : rows tc n levels ≤ 1 =
        (rows-le_iff tc some_branch n levels 1).1 (let h = l.holds in omega (arith, h)) in
      let zeroth : r.position.index ≡ 0 = let w = right.within in omega (arith, w, one) in
      record {
        levels = levels;
        small = small;
        more = more;
        top = r;
        done = rw (update, found) done;
        one = one;
        found = found;
        valued = right.valued ∙ ap (λ i. some (digest hash tc leaf' n levels i)) zeroth;
      }
