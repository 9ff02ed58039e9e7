-- ===== src/Merkle/UpdateExamples.antt =====
-- A tree with branch factor 2 and three leaves, from an empty store, and then one changed leaf.
use hs_blockchain.Prelude.{
  ℕ, ◌≡◌, refl, List, [], ◌∷◌, Bytes, bytes_eq, some, if◌then◌else◌, ◌==◌, ◌-◌, ◌^◌, ap, sym, subst,
  ◌≤◌, ◌<◌, arith, false,
}
use hs_blockchain.Merkle.TreeCalc.{TreeCalc, height}
use hs_blockchain.Merkle.Position.{new_position, unmarshal_position}
use hs_blockchain.Merkle.Encoding.{unmarshal_position-new_position}
use hs_blockchain.Merkle.Tree.{
  Node, UpdateResult, update, verify, MapStore, new_map_store, store_of, commit_update,
  new_tree_calc,
}
use hs_blockchain.Merkle.Spec.{digest}
use hs_blockchain.Merkle.Groups.{has_index}
use hs_blockchain.Merkle.Parents.{IsCorrect}
use hs_blockchain.Merkle.Updates.{IsTree}
use hs_blockchain.Merkle.Levels.{IsShuffle}
use hs_blockchain.Merkle.Results.{Changes}
use hs_blockchain.Merkle.Refines.{update-IsTree}
use hs_blockchain.Merkle.Verify.{verify-digest}

unmarshal_position-new_position_example :
    unmarshal_position (new_position 2 300).bytes ≡ some (new_position 2 300)
unmarshal_position-new_position_example = unmarshal_position-new_position 2 300

abbrev tag : Bytes → Bytes
tag b = 7 ∷ b

abbrev binary : TreeCalc
binary = new_tree_calc 0

binary-bfactor : 1 < binary.bfactor
unfolding new_tree_calc
binary-bfactor = omega arith

binary-holds : 3 ≤ binary.bfactor ^ 2
unfolding new_tree_calc
binary-holds = omega arith

abbrev old_leaf : ℕ → Bytes
old_leaf i = i ∷ []

abbrev new_leaf : ℕ → Bytes
new_leaf i = if i == 1 then 9 ∷ [] else i ∷ []

abbrev node : ℕ → Bytes → Node
node i b = record { position = new_position 0 i; node_data = some b }

abbrev in_order : ℕ → List Node → List Node
in_order k ns = ns

in_order-IsShuffle : (k : ℕ) → IsShuffle (in_order k)
in_order-IsShuffle k P ns = (λ a. a, λ a. a)

new_map_store-IsTree : IsTree tag binary (store_of new_map_store) old_leaf
unfolding store_of new_map_store
new_map_store-IsTree = record {
  values = λ level index below within. absurd (omega (arith, below));
  sized = λ some_leaf. absurd (omega (arith, some_leaf));
  rooted = λ some_leaf. absurd (omega (arith, some_leaf));
  top = λ level e. absurd (omega (arith, e));
}

node-IsCorrect :
    (leaf : ℕ → Bytes) (i : ℕ) (b : Bytes) → i < 3 → b ≡ leaf i → IsCorrect 0 leaf 3 (node i b)
unfolding new_position
node-IsCorrect leaf i b lt e = record { placed = refl; within = lt; valued = ap some e }

abbrev three : List Node
three = node 0 (0 ∷ []) ∷ node 1 (1 ∷ []) ∷ node 2 (2 ∷ []) ∷ []

three-Changes : Changes (store_of new_map_store) old_leaf old_leaf 3 three
unfolding has_index new_position
three-Changes = record {
  correct = (
    node-IsCorrect old_leaf 0 _ (omega arith) refl,
    (
      node-IsCorrect old_leaf 1 _ (omega arith) refl,
      (node-IsCorrect old_leaf 2 _ (omega arith) refl, tt),
    ),
  );
  same = λ c lt out. absurd (ground (arith, lt, out));
  some_leaf = omega arith;
}

-- The store after the first update.
held_result :
    (res : UpdateResult) × (update tag binary (store_of new_map_store) in_order three 3 ≡ some res)
    × IsTree tag binary (store_of (commit_update res new_map_store)) old_leaf
    × (res.leaf_count ≡ 3)
held_result =
    let (res, done, tree, _, _, count) =
      update-IsTree tag binary binary-bfactor new_map_store old_leaf old_leaf 3 new_map_store-IsTree
        (unfold store_of new_map_store in omega arith) in_order in_order-IsShuffle three
        three-Changes 2 binary-holds (omega arith) in
    (res, done, tree, count)

abbrev held : MapStore
held = commit_update held_result.0 new_map_store

held-leaf_count : (store_of held).leaf_count ≡ 3
unfolding store_of commit_update
held-leaf_count = held_result.3

one_leaf : List Node
one_leaf = node 1 (9 ∷ []) ∷ []

one_leaf-index : (c : ℕ) → has_index c one_leaf ≡ false → (c == 1) ≡ false
unfolding has_index new_position one_leaf
one_leaf-index c out = ground (arith, out)

one_leaf-Changes : Changes (store_of held) old_leaf new_leaf (store_of held).leaf_count one_leaf
unfolding has_index new_position one_leaf
one_leaf-Changes = record {
  correct = (
    subst (λ n. IsCorrect 0 new_leaf n (node 1 (9 ∷ []))) (sym held-leaf_count)
        (node-IsCorrect new_leaf 1 (9 ∷ []) (omega arith) refl),
    tt,
  );
  same = λ c lt out. (lt, ap (λ b. if b then 9 ∷ [] else c ∷ []) (sym (one_leaf-index c out)));
  some_leaf = omega arith;
}

update-IsTree_example :
    (res : UpdateResult) × (update tag binary
        (store_of held)
        in_order
        one_leaf
        (store_of held).leaf_count
      ≡ some res)
    × IsTree tag binary (store_of (commit_update res held)) new_leaf
    × (res.root.node_data
        ≡ some (digest tag binary new_leaf (store_of held).leaf_count (res.height - 1) 0))
    × (height binary (store_of held).leaf_count ≡ some res.height)
    × (res.leaf_count ≡ (store_of held).leaf_count)
update-IsTree_example =
    update-IsTree tag binary binary-bfactor held old_leaf new_leaf (store_of held).leaf_count
      held_result.2 (omega arith) in_order in_order-IsShuffle one_leaf one_leaf-Changes 2
      (subst (λ n. n ≤ binary.bfactor ^ 2) (sym held-leaf_count) binary-holds) (omega arith)

verify-digest_example :
    verify tag binary (store_of held) in_order one_leaf
    ≡ some (
        bytes_eq
          (digest tag binary old_leaf (store_of held).leaf_count ((store_of held).height - 1) 0)
          (digest tag binary new_leaf (store_of held).leaf_count ((store_of held).height - 1) 0))
verify-digest_example =
    verify-digest tag binary binary-bfactor (store_of held) old_leaf new_leaf held_result.2 in_order
      in_order-IsShuffle 2 (subst (λ n. n ≤ binary.bfactor ^ 2) (sym held-leaf_count) binary-holds)
      (omega arith) one_leaf one_leaf-Changes
