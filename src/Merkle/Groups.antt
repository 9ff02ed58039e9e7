-- ===== src/Merkle/Groups.antt =====
-- A group of merkle/types.go, once its updated nodes are set and the others loaded, has the values of
-- all children of its parent.
use hs_blockchain.Prelude.{
  ℕ, zero, suc, ◌≡◌, refl, ap, Bool-cases, Bool, true, false, ◌||◌, Option, none, some, List, [],
  ◌∷◌, ◌++◌, Bytes, ◌==◌, ◌+◌, ◌≤◌, ◌<◌, arith, inl, inr, ltb, leb, length, replicate,
}
use hs_blockchain.Merkle.TreeCalc.{TreeCalc}
use hs_blockchain.Merkle.Position.{new_position}
use hs_blockchain.Merkle.Tree.{Node, Store, set_at, load_loop, is_empty, written_nodes}
use hs_blockchain.Merkle.Spec.{children}

-- A node of the list has the index.
unfoldable pub has_index : ℕ → List Node → Bool
has_index c [] = false
has_index c (n ∷ ns) = n.position.index == c || has_index c ns

module _ (value : ℕ → Bytes) (row : ℕ) where
  -- The slots from an index on: a node has the value of its index, and an empty slot's index is not
  -- among those seen.
  abbrev pub Slots : (ℕ → Bool) → ℕ → List (Option Node) → Type 0
  Slots seen c [] = Unit
  Slots seen c (none ∷ s) = (seen c ≡ false) × Slots seen (suc c) s
  Slots seen c (some n ∷ s) = ((n.node_data ≡ some (value c)) × (c < row)) × Slots seen (suc c) s

  pub Slots-replicate : (c k : ℕ) → Slots (λ _. false) c (replicate k none)
  Slots-replicate c zero = tt
  Slots-replicate c (suc k) = (refl, Slots-replicate (suc c) k)

  pub Slots-weaken :
      (seen seen' : ℕ → Bool) (c : ℕ) (s : List (Option Node))
      → ((x : ℕ) → c ≤ x → x < c + length s → seen x ≡ false → seen' x ≡ false)
      → Slots seen c s
      → Slots seen' c s
  Slots-weaken seen seen' c [] h a = tt
  Slots-weaken seen seen' c (none ∷ s) h a = (
    h c (omega arith) (omega arith) a.0,
    Slots-weaken seen seen' (suc c) s (λ x lo hi. h x (omega (arith, lo)) (omega (arith, hi))) a.1,
  )
  Slots-weaken seen seen' c (some n ∷ s) h a = (
    a.0,
    Slots-weaken seen seen' (suc c) s (λ x lo hi. h x (omega (arith, lo)) (omega (arith, hi))) a.1,
  )

  -- A correct node is set at the slot of its index.
  pub Slots-set_at :
      (seen : ℕ → Bool) (n : Node) (c j : ℕ) (s : List (Option Node))
      → n.position.index ≡ c + j
      → n.node_data ≡ some (value n.position.index)
      → n.position.index < row
      → Slots seen c s
      → Slots (λ x. n.position.index == x || seen x) c (set_at j n s)
  unfolding set_at
  Slots-set_at seen n c j [] e d lt a = tt
  Slots-set_at seen n c zero (none ∷ s) e d lt a =
      let here : n.position.index ≡ c = omega (arith, e) in
      (
        (rw (← here) d, rw (← here) lt),
        Slots-weaken seen _ (suc c) s (λ x lo hi f. ground (arith, here, lo, f)) a.1,
      )
  Slots-set_at seen n c zero (some m ∷ s) e d lt a =
      let here : n.position.index ≡ c = omega (arith, e) in
      (
        (rw (← here) d, rw (← here) lt),
        Slots-weaken seen _ (suc c) s (λ x lo hi f. ground (arith, here, lo, f)) a.1,
      )
  Slots-set_at seen n c (suc j) (none ∷ s) e d lt a =
      (ground (arith, e, a.0), Slots-set_at seen n (suc c) j s (omega (arith, e)) d lt a.1)
  Slots-set_at seen n c (suc j) (some m ∷ s) e d lt a =
      (a.0, Slots-set_at seen n (suc c) j s (omega (arith, e)) d lt a.1)

  -- Slots beyond the row hold no node.
  written_nodes-beyond :
      (seen : ℕ → Bool) (c : ℕ) (s : List (Option Node))
      → row ≤ c
      → Slots seen c s
      → written_nodes s ≡ []
  unfolding written_nodes
  written_nodes-beyond seen c [] h a = refl
  written_nodes-beyond seen c (none ∷ s) h a =
      written_nodes-beyond seen (suc c) s (omega (arith, h)) a.1
  written_nodes-beyond seen c (some n ∷ s) h a = absurd (omega (arith, h, a.0.1))

  module _ (hash : Bytes → Bytes) (tc : TreeCalc) (store : Store) (level : ℕ) (seen : ℕ → Bool)
      (stored : (c : ℕ)
        → c < row
        → seen c ≡ false
        → store.get_node (new_position level c) ≡ some (value c)) where
    -- Loaded, the slots have all the values of the row.
    pub written_nodes-load_loop :
        (c : ℕ) (s : List (Option Node))
        → Slots seen c s
        → written_nodes (load_loop hash tc store row level c s) ≡ children value row c (length s)
    unfolding written_nodes load_loop children
    written_nodes-load_loop c [] a = refl
    written_nodes-load_loop c (some n ∷ s) a =
        let lt : ltb c row ≡ true = ground (arith, a.0.1) in
        rw (a.0.0, lt, written_nodes-load_loop (suc c) s a.1) refl
    written_nodes-load_loop c (none ∷ s) a = elim (Bool-cases (leb row c)) [
      | inl e ↦
          let lt : ltb c row ≡ false = ground (arith, e) in
          rw (e, load_loop, lt) (written_nodes-beyond seen (suc c) s (ground (arith, e)) a.1)
      | inr e ↦
          let lt : ltb c row ≡ true = ground (arith, e) in
          let old = stored c (ground (arith, e)) a.0 in
          rw (e, load_loop, old, lt)
            (ap (λ x. value c ++ x) (written_nodes-load_loop (suc c) s a.1))
    ]

    pub is_empty-load_loop :
        (c : ℕ) (s : List (Option Node))
        → c < row
        → 0 < length s
        → Slots seen c s
        → is_empty (load_loop hash tc store row level c s) ≡ false
    unfolding is_empty load_loop
    is_empty-load_loop c [] h pos a = absurd (omega (arith, pos))
    is_empty-load_loop c (some n ∷ s) h pos a = refl
    is_empty-load_loop c (none ∷ s) h pos a =
        let e : leb row c ≡ false = ground (arith, h) in rw (e, load_loop, stored c h a.0) refl
