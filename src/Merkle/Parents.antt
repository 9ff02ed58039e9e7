-- ===== src/Merkle/Parents.antt =====
-- What merkle/tree.go makes of the nodes of one level: a parent has the hash of all its children.
use hs_blockchain.Prelude.{
  ℕ, zero, suc, ◌≡◌, ◌∙◌, refl, sym, ap, Bool-cases, Bool, true, false, ◌||◌, Option, none, some,
  List, [], ◌∷◌, Bytes, bytes_eq, bytes_eq_iff, ◌-◌, ◌==◌, ==_iff, ◌+◌, ◌*◌, ◌%◌, ◌≤◌, ◌<◌, arith,
  inl, inr, All, length, replicate,
}
use hs_blockchain.Merkle.TreeCalc.{
  TreeCalc, first_node_of_group, group_of_node, node_index_in_group,
}
use hs_blockchain.Merkle.Shape.{node-of_group}
use hs_blockchain.Merkle.Position.{Position, new_position}
use hs_blockchain.Merkle.Encoding.{new_position-injective}
use hs_blockchain.Merkle.Tree.{
  Node, Store, Group, set_at, new_group, set_node, load, sum, make_parent, group_position,
  set_nodes, parent_of,
}
use hs_blockchain.Merkle.Spec.{children, group_of-child}
use hs_blockchain.Merkle.Groups.{
  has_index, Slots, Slots-replicate, Slots-weaken, Slots-set_at, written_nodes-load_loop,
  is_empty-load_loop,
}

-- A node of the level, with the value of its index.
pub record IsCorrect (level : ℕ) (value : ℕ → Bytes) (row : ℕ) (n : Node) : Type 0 where
  pub placed : n.position ≡ new_position level n.position.index
  pub within : n.position.index < row
  pub valued : n.node_data ≡ some (value n.position.index)

length-set_at : (j : ℕ) (n : Node) (s : List (Option Node)) → length (set_at j n s) ≡ length s
unfolding set_at
length-set_at j n [] = refl
length-set_at zero n (m ∷ s) = refl
length-set_at (suc j) n (m ∷ s) = ap suc (length-set_at j n s)

length-replicate : (k : ℕ) (x : Option Node) → length (replicate k x) ≡ k
length-replicate zero x = refl
length-replicate (suc k) x = ap suc (length-replicate k x)

module _ (hash : Bytes → Bytes) (tc : TreeCalc) (store : Store) (two : 1 < tc.bfactor) (level : ℕ)
    (small : level + 1 < 256) (value : ℕ → Bytes) (row : ℕ) where
  pub some_branch : 0 < tc.bfactor
  some_branch = omega (arith, two)

  pub group_position-new :
      (n : Node)
      → IsCorrect level value row n
      → group_position hash tc store n
        ≡ new_position (suc level) (group_of_node tc n.position.index)
  unfolding group_position
  group_position-new n c =
      let lv : (n.position.level + 1) % 256 ≡ suc level =
        ap (λ (p : Position). (p.level + 1) % 256) c.placed
        ∙ unfold new_position in omega (arith, small) in
      ap (λ (l : ℕ). new_position l (group_of_node tc n.position.index)) lv

  -- A node is in the group whose key its parent has.
  in_group :
      (i : ℕ) (n : Node)
      → IsCorrect level value row n
      → bytes_eq (group_position hash tc store n).bytes (new_position (suc level) i).bytes ≡ true
      → n.position.index ≡ i * tc.bfactor + node_index_in_group tc n.position.index
  unfolding first_node_of_group
  in_group i n c e =
      let same : group_of_node tc n.position.index ≡ i =
        new_position-injective (suc level) (suc level) (group_of_node tc n.position.index) i (
          sym (ap (λ (p : Position). p.bytes) (group_position-new n c))
          ∙ (bytes_eq_iff (group_position hash tc store n).bytes
                (new_position (suc level) i).bytes).0
              e) in
      sym (node-of_group tc some_branch n.position.index).0
      ∙ ap (λ (g : ℕ). g * tc.bfactor + node_index_in_group tc n.position.index) same

  -- A node at a place of a group has its key.
  pub group_position-child :
      (i : ℕ) (n : Node)
      → IsCorrect level value row n
      → i * tc.bfactor ≤ n.position.index
      → n.position.index < i * tc.bfactor + tc.bfactor
      → group_position hash tc store n ≡ new_position (suc level) i
  group_position-child i n c lo hi =
      let k = n.position.index - i * tc.bfactor in
      let place : i * tc.bfactor + k ≡ n.position.index = omega (arith, lo) in
      let group : group_of_node tc n.position.index ≡ i =
        ap (group_of_node tc) (sym place)
        ∙ group_of-child tc some_branch i k (omega (arith, lo, hi)) in
      group_position-new n c ∙ ap (new_position (suc level)) group

  -- Any other node is at no place of that group.
  not_in_group :
      (i x : ℕ) (n : Node)
      → IsCorrect level value row n
      → bytes_eq (group_position hash tc store n).bytes (new_position (suc level) i).bytes ≡ false
      → i * tc.bfactor ≤ x
      → x < i * tc.bfactor + tc.bfactor
      → (n.position.index == x) ≡ false
  not_in_group i x n c e lo hi = elim (Bool-cases (n.position.index == x)) [
    | inr ne ↦ ne
    | inl eq ↦
        let at : n.position.index ≡ x = (==_iff n.position.index x).0 eq in
        let same = group_position-child i n c (omega (arith, at, lo)) (omega (arith, at, hi)) in
        let key : bytes_eq (group_position hash tc store n).bytes (new_position (suc level) i).bytes
            ≡ true =
          (bytes_eq_iff _ _).1 (ap (λ (p : Position). p.bytes) same) in
        absurd (ground (arith, e, key))
  ]

  -- The group after its nodes are set.
  pub set_nodes-Slots :
      (i : ℕ) (ns : List Node) (g : Group) (seen : ℕ → Bool)
      → All (IsCorrect level value row) ns
      → length g.nodes ≡ tc.bfactor
      → Slots value row seen (i * tc.bfactor) g.nodes
      → let g' = set_nodes hash tc store (new_position (suc level) i).bytes ns g in
        Slots value row (λ x. has_index x ns || seen x) (i * tc.bfactor) g'.nodes
        × (length g'.nodes ≡ tc.bfactor)
        × (g'.parent_position ≡ g.parent_position)
  unfolding set_nodes set_node has_index
  set_nodes-Slots i [] g seen a len s = (s, len, refl)
  set_nodes-Slots i (n ∷ ns) g seen a len s =
      let key = (new_position (suc level) i).bytes in
      elim (Bool-cases (bytes_eq (group_position hash tc store n).bytes key)) [
        | inl e ↦
            let at = in_group i n a.0 e in
            let set =
              Slots-set_at value row seen n (i * tc.bfactor)
                (node_index_in_group tc n.position.index) g.nodes at a.0.valued a.0.within s in
            let (s', len', p') =
              set_nodes-Slots i ns (set_node hash tc store n g)
                (λ x. n.position.index == x || seen x) a.1
                (length-set_at (node_index_in_group tc n.position.index) n g.nodes ∙ len) set in
            rw (e, set_nodes)
              (
                Slots-weaken value row _ _ (i * tc.bfactor) _ (λ x lo hi f. ground (arith, f)) s',
                len',
                p',
              )
        | inr e ↦
            let (s', len', p') = set_nodes-Slots i ns g seen a.1 len s in
            rw (e, set_nodes)
              (
                Slots-weaken value row _ _ (i * tc.bfactor) _
                    (λ x lo hi f.
                      ground (arith, f, not_in_group i x n a.0 e lo (omega (arith, hi, len'))))
                    s',
                len',
                p',
              )
      ]

  module _ (nodes : List Node) (correct : All (IsCorrect level value row) nodes)
      (stored : (c : ℕ)
        → c < row
        → has_index c nodes ≡ false
        → store.get_node (new_position level c) ≡ some (value c)) where
    make_parent-load :
        (i : ℕ) (ns : List (Option Node))
        → i * tc.bfactor < row
        → length ns ≡ tc.bfactor
        → Slots value row (λ x. has_index x nodes || false) (i * tc.bfactor) ns
        → make_parent hash tc store (
            load hash tc store row
              (record { parent_position = new_position (suc level) i; nodes = ns }))
          ≡ record {
            position = new_position (suc level) i;
            node_data = some (hash (children value row (i * tc.bfactor) tc.bfactor));
          }
    unfolding make_parent sum load first_node_of_group new_position
    make_parent-load i ns lt len slots =
        let below : (suc level + 255) % 256 ≡ level = omega (arith, small) in
        let seen = λ (x : ℕ). has_index x nodes || false in
        let held = λ (c : ℕ) (in_row : c < row) (e : (has_index c nodes || false) ≡ false).
          stored c in_row (ground (arith, e)) in
        rw
          (
            below,
            is_empty-load_loop value row hash tc store level seen held (i * tc.bfactor) ns lt
                (omega (arith, len, two)) slots,
            written_nodes-load_loop value row hash tc store level seen held (i * tc.bfactor) ns
                slots,
            len,
          )
          refl

    -- A parent with a child in the row has the hash of the values of its children.
    pub parent_of-new_position :
        (i : ℕ)
        → i * tc.bfactor < row
        → parent_of hash tc store nodes row
            ((new_position (suc level) i).bytes, new_position (suc level) i)
          ≡ record {
            position = new_position (suc level) i;
            node_data = some (hash (children value row (i * tc.bfactor) tc.bfactor));
          }
    unfolding parent_of make_parent sum load first_node_of_group new_group
    parent_of-new_position i lt =
        let p = new_position (suc level) i in
        let (slots, len, same) =
          set_nodes-Slots i nodes (new_group hash tc store p) (λ _. false) correct
            (length-replicate tc.bfactor none)
            (Slots-replicate value row (i * tc.bfactor) tc.bfactor) in
        let g = set_nodes hash tc store p.bytes nodes (new_group hash tc store p) in
        ap
          (λ (q : Position).
            make_parent hash tc store
              (load hash tc store row (record { parent_position = q; nodes = g.nodes })))
          same
        ∙ make_parent-load i g.nodes lt len slots
