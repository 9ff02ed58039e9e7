-- ===== src/Merkle/Levels.antt =====
-- One level of the update of merkle/tree.go: the parents of the changed nodes are right, and a parent
-- that does not change has no changed child.
use hs_blockchain.Prelude.{
  ℕ, suc, ◌≡◌, ◌∙◌, refl, sym, ap, ap₂, subst, Bool-cases, true, false, some, List, [], ◌∷◌, Bytes,
  bytes_eq, bytes_eq_iff, ◌==◌, ==_iff, ◌+◌, ◌*◌, ◌≤◌, ◌<◌, arith, inl, inr, All, All-map,
  All-of_map, map, Map, has, lookup,
}
use hs_blockchain.Merkle.TreeCalc.{TreeCalc, group_of_node}
use hs_blockchain.Merkle.Position.{Position, new_position, unique_map}
use hs_blockchain.Merkle.Encoding.{
  Entries, unique_map-Entries, unique_map-lacks, new_position-injective,
}
use hs_blockchain.Merkle.Shape.{node-of_group}
use hs_blockchain.Merkle.Tree.{Node, Store, group_position, parent_of, update_one_level}
use hs_blockchain.Merkle.Spec.{children}
use hs_blockchain.Merkle.Groups.{has_index}
use hs_blockchain.Merkle.Parents.{
  IsCorrect, some_branch, group_position-new, group_position-child, parent_of-new_position,
}

-- Nodes come in another order, or more than once: what holds of all of one holds of all of the other.
abbrev pub IsShuffle : (List Node → List Node) → Type 1
IsShuffle arrive =
    (P : Node → Type 0) (ns : List Node)
    → (All P ns → All P (arrive ns)) × (All P (arrive ns) → All P ns)

pub has_index-All :
    (c : ℕ) (ns : List Node)
    → has_index c ns ≡ false
    → All (λ n. (n.position.index == c) ≡ false) ns
unfolding has_index
has_index-All c [] h = tt
has_index-All c (n ∷ ns) h = (ground arith, has_index-All c ns (ground arith))

pub All-has_index :
    (c : ℕ) (ns : List Node)
    → All (λ n. (n.position.index == c) ≡ false) ns
    → has_index c ns ≡ false
unfolding has_index
All-has_index c [] h = refl
All-has_index c (n ∷ ns) h = ground (arith, h.0, All-has_index c ns h.1)

module _ (hash : Bytes → Bytes) (tc : TreeCalc) (store : Store) (two : 1 < tc.bfactor) (level : ℕ)
    (small : level + 1 < 256) (value : ℕ → Bytes) (row : ℕ) where
  -- The value that a parent gets.
  abbrev pub parent_value : ℕ → Bytes
  parent_value i = hash (children value row (i * tc.bfactor) tc.bfactor)

  -- The position of a parent with a child in the row.
  abbrev IsParent : Position → Type 0
  IsParent p = (i : ℕ) × (p ≡ new_position (suc level) i) × (i * tc.bfactor < row)

  group_position-IsParent :
      (n : Node) → IsCorrect level value row n → IsParent (group_position hash tc store n)
  unfolding group_of_node
  group_position-IsParent n c = (
    group_of_node tc n.position.index,
    group_position-new hash tc store two level small value row n c,
    omega (
      arith,
      (node-of_group tc (some_branch hash tc store two level small value row) n.position.index).0,
      c.within,
    ),
  )

  module _ (nodes : List Node) (correct : All (IsCorrect level value row) nodes)
      (stored : (c : ℕ)
        → c < row
        → has_index c nodes ≡ false
        → store.get_node (new_position level c) ≡ some (value c)) where
    parent_of-IsCorrect :
        (e : Bytes × Position)
        → e.0 ≡ e.1.bytes
        → (p : IsParent e.1)
        → parent_of hash tc store nodes row e
          ≡ record { position = new_position (suc level) p.0; node_data = some (parent_value p.0) }
    parent_of-IsCorrect (key, p) k (i, same, lt) =
        subst
          (λ x.
            parent_of hash tc store nodes row x
            ≡ record { position = new_position (suc level) i; node_data = some (parent_value i) })
          (sym (
            ap₂ (λ (a : Bytes) (b : Position). (a, b)) (k ∙ ap (λ (q : Position). q.bytes) same)
              same))
          (parent_of-new_position hash tc store two level small value row nodes correct stored i lt)

    -- All parents have the values of the next level.
    parents-IsCorrect :
        (next : ℕ)
        → ((i : ℕ) → i * tc.bfactor < row → i < next)
        → (m : Map Position) → Entries IsParent m
        → All (IsCorrect (suc level) parent_value next) (map (parent_of hash tc store nodes row) m)
    parents-IsCorrect next up [] a = tt
    parents-IsCorrect next up (e ∷ m) a =
        let (i, same, lt) = a.0.1 in
        (
          subst (IsCorrect (suc level) parent_value next) (sym (parent_of-IsCorrect e a.0.0 a.0.1))
              (unfold new_position in record { placed = refl; within = up i lt; valued = refl }),
          parents-IsCorrect next up m a.1,
        )

    -- An index that no parent has is the key of no group.
    parents-lack :
        (i : ℕ) (m : Map Position)
        → Entries IsParent m
        → has_index i (map (parent_of hash tc store nodes row) m) ≡ false
        → has (new_position (suc level) i).bytes m ≡ false
    unfolding has_index has lookup
    parents-lack i [] a h = refl
    parents-lack i ((k, p) ∷ m) a h =
        let (j, same, lt) = a.0.1 in
        let mine = parent_of-IsCorrect (k, p) a.0.0 a.0.1 in
        let at : (parent_of hash tc store nodes row (k, p)).position.index ≡ j =
          ap (λ (n : Node). n.position.index) mine ∙ unfold new_position in refl in
        let other : (bytes_eq k (new_position (suc level) i).bytes) ≡ false =
          elim (Bool-cases (bytes_eq k (new_position (suc level) i).bytes)) [
            | inr e ↦ e
            | inl e ↦
                let hit : j ≡ i = new_position-injective (suc level) (suc level) j i (
                  sym (a.0.0 ∙ ap (λ (q : Position). q.bytes) same)
                  ∙ (bytes_eq_iff k (new_position (suc level) i).bytes).0 e) in
                absurd (ground (arith, h, at, hit))
          ] in
        rw (has, lookup, other) (unfold has in parents-lack i m a.1 (ground (arith, h)))

    -- A group whose parent does not come has no changed node.
    has_index-group :
        (i c : ℕ) (ns : List Node)
        → All (IsCorrect level value row) ns
        → i * tc.bfactor ≤ c
        → c < i * tc.bfactor + tc.bfactor
        → All
            (λ (p : Position). bytes_eq p.bytes (new_position (suc level) i).bytes ≡ false)
            (map (group_position hash tc store) ns)
        → has_index c ns ≡ false
    unfolding has_index
    has_index-group i c [] a lo hi h = refl
    has_index-group i c (n ∷ ns) a lo hi h = elim (Bool-cases (n.position.index == c)) [
      | inr e ↦ rw e (has_index-group i c ns a.1 lo hi h.1)
      | inl e ↦
          let at : n.position.index ≡ c = (==_iff n.position.index c).0 e in
          let same =
            group_position-child hash tc store two level small value row i n a.0
              (omega (arith, at, lo)) (omega (arith, at, hi)) in
          let key : bytes_eq (group_position hash tc store n).bytes
                (new_position (suc level) i).bytes
              ≡ true =
            (bytes_eq_iff _ _).1 (ap (λ (p : Position). p.bytes) same) in
          absurd (ground (arith, h.0, key))
    ]

    groups : Entries IsParent (unique_map (map (group_position hash tc store) nodes))
    groups = unique_map-Entries IsParent (map (group_position hash tc store) nodes) (
        All-of_map IsParent (group_position hash tc store) nodes
          (All-map _ _ nodes group_position-IsParent correct))

    module _ (arrive : List Node → List Node) (shuffle : IsShuffle arrive) where
      pub update_one_level-IsCorrect :
          (next : ℕ)
          → ((i : ℕ) → i * tc.bfactor < row → i < next)
          → All
              (IsCorrect (suc level) parent_value next)
              (update_one_level hash tc store arrive nodes row)
      unfolding update_one_level
      update_one_level-IsCorrect next up =
          (shuffle (IsCorrect (suc level) parent_value next) _).0
            (parents-IsCorrect next up _ groups)

      pub update_one_level-lacks :
          (i c : ℕ)
          → has_index i (update_one_level hash tc store arrive nodes row) ≡ false
          → i * tc.bfactor ≤ c
          → c < i * tc.bfactor + tc.bfactor
          → has_index c nodes ≡ false
      unfolding update_one_level
      update_one_level-lacks i c h lo hi =
          let sent =
            map (parent_of hash tc store nodes row)
              (unique_map (map (group_position hash tc store) nodes)) in
          let none_sent = All-has_index i sent (
            (shuffle (λ n. (n.position.index == i) ≡ false) sent).1
              (has_index-All i (arrive sent) h)) in
          has_index-group i c nodes correct lo hi (
            unique_map-lacks (new_position (suc level) i).bytes
              (map (group_position hash tc store) nodes) (parents-lack i _ groups none_sent))
