-- ===== src/Merkle/Commit.antt =====
-- The store after CommitUpdate of merkle/store.go has what it is given, and the rest of the old tree.
use hs_blockchain.Prelude.{
  ℕ, ◌≡◌, ◌∙◌, refl, sym, ap, ap₂, Bool, Bool-cases, true, false, some, none, List, [], ◌∷◌, Bytes,
  bytes_eq, bytes_eq_iff, ◌++◌, arith, inl, inr, All, if◌then◌else◌, ◌==◌, ◌&&◌, ◌||◌, Map, lookup,
  lookup-insert, insert,
}
use hs_blockchain.Merkle.Position.{Position, new_position}
use hs_blockchain.Merkle.Encoding.{new_position-injective, new_position-injective_level}
use hs_blockchain.Merkle.Tree.{Data, Node, insert_nodes}
use hs_blockchain.Merkle.Groups.{has_index}
use hs_blockchain.Merkle.Parents.{IsCorrect}

-- The data of a position in a map, as GetNode of MapStore has it.
unfoldable pub data_at : Position → Map Data → Data
data_at p m = elim (lookup p.bytes m) [ none ↦ none | some d ↦ d ]

-- A node of the list is at the level, with the index.
unfoldable pub has_place : ℕ → ℕ → List Node → Bool
has_place level c [] = false
has_place level c (n ∷ ns) =
    (n.position.level == level && n.position.index == c) || has_place level c ns

pub has_place-append :
    (level c : ℕ) (ms ns : List Node)
    → has_place level c (ms ++ ns) ≡ has_place level c ms || has_place level c ns
unfolding has_place
has_place-append level c [] ns = refl
has_place-append level c (m ∷ ms) ns = ground (arith, has_place-append level c ms ns)

module _ (value : ℕ → ℕ → Bytes) (row : ℕ → ℕ) where
  -- A correct node, at some level.
  abbrev pub IsRight : Node → Type 0
  IsRight n = (level : ℕ) × IsCorrect level (value level) (row level) n

  pub has_index-place :
      (level c : ℕ) (ns : List Node)
      → All (IsCorrect level (value level) (row level)) ns
      → has_place level c ns ≡ has_index c ns
  unfolding has_index has_place
  has_index-place level c [] a = refl
  has_index-place level c (n ∷ ns) a =
      let at : n.position.level ≡ level =
        ap (λ (p : Position). p.level) a.0.placed ∙ unfold new_position in refl in
      ground (arith, at, has_index-place level c ns a.1)

  -- The bytes of a correct node's position are those of its place, and of no other.
  bytes_eq-place :
      (level c : ℕ) (n : Node)
      → IsRight n
      → bytes_eq n.position.bytes (new_position level c).bytes
        ≡ n.position.level == level && n.position.index == c
  bytes_eq-place level c n (l, r) =
      let at : n.position.level ≡ l =
        ap (λ (p : Position). p.level) r.placed ∙ unfold new_position in refl in
      let same = ap (λ (p : Position). p.bytes) r.placed in
      elim (Bool-cases (bytes_eq n.position.bytes (new_position level c).bytes)) [
        | inl e ↦
            let eq = sym same ∙ (bytes_eq_iff n.position.bytes (new_position level c).bytes).0 e in
            ground (
              arith,
              e,
              at,
              new_position-injective l level n.position.index c eq,
              new_position-injective_level l level n.position.index c eq,
            )
        | inr e ↦ elim (Bool-cases (n.position.level == level && n.position.index == c)) [
          | inr f ↦ e ∙ sym f
          | inl f ↦
              let lv : l ≡ level = ground (arith, f, at) in
              let ix : n.position.index ≡ c = ground (arith, f) in
              let key =
                (bytes_eq_iff n.position.bytes (new_position level c).bytes).1
                  (same ∙ ap₂ (λ (a b : ℕ). (new_position a b).bytes) lv ix) in
              absurd (ground (arith, e, key))
        ]
      ]

  data_at-insert :
      (level c : ℕ) (n : Node) (m : Map Data)
      → IsRight n
      → data_at (new_position level c) (insert n.position.bytes n.node_data m) ≡ (
          if n.position.level == level && n.position.index == c
          then some (value level c)
          else data_at (new_position level c) m)
  unfolding data_at
  data_at-insert level c n m (l, r) =
      let at : n.position.level ≡ l =
        ap (λ (p : Position). p.level) r.placed ∙ unfold new_position in refl in
      elim (Bool-cases (n.position.level == level && n.position.index == c)) [
        | inr e ↦
            let key = bytes_eq-place level c n (l, r) ∙ e in
            rw (data_at, lookup-insert, key, e) refl
        | inl e ↦
            let key = bytes_eq-place level c n (l, r) ∙ e in
            let lv : l ≡ level = ground (arith, e, at) in
            let ix : n.position.index ≡ c = ground (arith, e) in
            rw (data_at, lookup-insert, key, e) (r.valued ∙ ap some (ap₂ value lv ix))
      ]

  -- What the map has stays, when correct nodes are set.
  pub insert_nodes-keeps :
      (level c : ℕ) (ns : List Node) (m : Map Data)
      → All IsRight ns
      → data_at (new_position level c) m ≡ some (value level c)
      → data_at (new_position level c) (insert_nodes ns m) ≡ some (value level c)
  unfolding insert_nodes
  insert_nodes-keeps level c [] m a h = h
  insert_nodes-keeps level c (n ∷ ns) m a h =
      insert_nodes-keeps level c ns _ a.1 (ground (arith, data_at-insert level c n m a.0, h))

  -- What is set is there.
  pub insert_nodes-has_place :
      (level c : ℕ) (ns : List Node) (m : Map Data)
      → All IsRight ns
      → has_place level c ns ≡ true
      → data_at (new_position level c) (insert_nodes ns m) ≡ some (value level c)
  unfolding insert_nodes has_place
  insert_nodes-has_place level c [] m a h = absurd (ground (arith, h))
  insert_nodes-has_place level c (n ∷ ns) m a h =
      elim (Bool-cases (n.position.level == level && n.position.index == c)) [
        | inl e ↦ insert_nodes-keeps level c ns _ a.1 (data_at-insert level c n m a.0 ∙ rw e refl)
        | inr e ↦ insert_nodes-has_place level c ns _ a.1 (ground (arith, h, e))
      ]
