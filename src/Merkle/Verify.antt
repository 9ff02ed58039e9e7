-- ===== src/Merkle/Verify.antt =====
-- Verify of merkle/tree.go, against the digests of the tree in the store.
use hs_blockchain.Prelude.{
  ℕ, suc, ◌≡◌, ◌∙◌, refl, sym, ap, Bool-cases, true, false, some, some-injective, List, [], ◌∷◌,
  Bytes, bytes_eq, ◌+◌, ◌-◌, ◌%◌, ◌^◌, ◌≤◌, ◌<◌, arith, inl, inr, All, leb, ◌==◌,
}
use hs_blockchain.Merkle.TreeCalc.{TreeCalc}
use hs_blockchain.Merkle.Position.{Position, new_position}
use hs_blockchain.Merkle.Shape.{height-Levels}
use hs_blockchain.Merkle.Tree.{written, Node, compare_roots, root, are_leaves, verify, Store}
use hs_blockchain.Merkle.Spec.{rows, rows-le_iff, digest}
use hs_blockchain.Merkle.Parents.{IsCorrect}
use hs_blockchain.Merkle.Levels.{IsShuffle}
use hs_blockchain.Merkle.Updates.{IsTree}
use hs_blockchain.Merkle.Results.{Changes, update-HasResult}

module _ (hash : Bytes → Bytes) (tc : TreeCalc) (two : 1 < tc.bfactor) (store : Store)
    (leaf leaf' : ℕ → Bytes) (old : IsTree hash tc store leaf) (arrive : ℕ → List Node → List Node)
    (shuffles : (k : ℕ) → IsShuffle (arrive k)) where
  are_leaves-IsCorrect :
      (leaves : List Node)
      → All (IsCorrect 0 leaf' store.leaf_count) leaves
      → are_leaves hash tc store leaves ≡ true
  unfolding are_leaves
  are_leaves-IsCorrect [] a = refl
  are_leaves-IsCorrect (x ∷ xs) a =
      let at : x.position.level ≡ 0 =
        ap (λ (p : Position). p.level) a.0.placed ∙ unfold new_position in refl in
      let below : leb store.leaf_count x.position.index ≡ false =
        let w = a.0.within in ground (arith, w) in
      rw (at, below) (are_leaves-IsCorrect xs a.1)

  some_row : (level : ℕ) → 0 < store.leaf_count → 0 < rows tc store.leaf_count level
  some_row level pos = elim (Bool-cases (rows tc store.leaf_count level == 0)) [
    | inr e ↦ ground (arith, e)
    | inl e ↦
        let few =
          (rows-le_iff tc (omega (arith, two)) store.leaf_count level 0).0 (ground (arith, e)) in
        absurd (omega (arith, few, pos))
  ]

  -- The root of a store with leaves.
  root-digest :
      (h : ℕ)
      → store.height ≡ suc h
      → h < 255
      → 0 < store.leaf_count
      → root hash tc store
        ≡ some (record {
          position = new_position h 0;
          node_data = some (digest hash tc leaf store.leaf_count h 0);
        })
  unfolding root
  root-digest h tall low pos =
      let top : (store.height + 255) % 256 ≡ h = omega (arith, tall, low) in
      let stored = old.values h 0 (omega (arith, tall)) (some_row h pos) in
      rw (root, top, stored)
        (ap
          (λ (l : ℕ). some (record {
            position = new_position l 0;
            node_data = some (digest hash tc leaf store.leaf_count h 0);
          }))
          top)

  -- For a branch factor of at least 2, a store with the tree of some leaves that at most 254 levels of
  -- branching hold, and nodes that are leaves of another tree of as many leaves, with all others as in
  -- the store, Verify compares the roots of the two trees: it answers whether the root digests are equal,
  -- in whatever order the workers give the parents.
  pub verify-digest :
      (k : ℕ)
      → store.leaf_count ≤ tc.bfactor ^ k
      → k < 255
      → (leaves : List Node) → Changes store leaf leaf' store.leaf_count leaves
      → verify hash tc store arrive leaves
        ≡ some (
            bytes_eq
              (digest hash tc leaf store.leaf_count (store.height - 1) 0)
              (digest hash tc leaf' store.leaf_count (store.height - 1) 0))
  unfolding verify compare_roots
  verify-digest k fits low [] changes = let e = changes.some_leaf in absurd (omega (arith, e))
  verify-digest k fits low (x ∷ xs) changes =
      let n = store.leaf_count in
      let within = changes.correct.0.within in
      let pos : 0 < n = omega (arith, within) in
      let u =
        update-HasResult hash tc two store leaf leaf' n old (omega arith) arrive shuffles (x ∷ xs)
          changes k fits low in
      let done = u.done in
      let l = height-Levels tc (omega (arith, two)) n k two fits low in
      let le = l.least k fits in
      let here : store.height ≡ suc l.levels =
        some-injective _ _ (sym (old.sized pos) ∙ l.result) ∙ omega arith in
      let there : suc u.levels ≡ suc l.levels =
        some-injective _ _ (sym u.found ∙ l.result) ∙ omega arith in
      let known = root-digest l.levels here (omega (arith, le, low)) pos in
      let counted : (n == 0) ≡ false = ground (arith, pos) in
      let checked = are_leaves-IsCorrect (x ∷ xs) changes.correct in
      let top : store.height - 1 ≡ l.levels = omega (arith, here) in
      let same : u.levels ≡ l.levels = omega (arith, there) in
      rw (verify, known, counted, checked, done, top)
        (ap (λ d. some (bytes_eq (digest hash tc leaf n l.levels 0) (written d)))
          (u.valued ∙ ap (λ j. some (digest hash tc leaf' n j 0)) same))
