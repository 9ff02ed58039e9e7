-- ===== src/Merkle/Returns.antt =====
-- Update of merkle/tree.go returns a result, whatever the store has.
use hs_blockchain.Prelude.{
  ℕ, zero, suc, ◌≡◌, ◌∙◌, refl, sym, ap, subst, Bool-cases, true, Option, some, none, List, [], ◌∷◌,
  Bytes, bytes_eq, ◌++◌, ◌+◌, ◌%◌, ◌^◌, ◌≤◌, ◌<◌, arith, inl, inr, All, if◌then◌else◌, ltb, length,
  length-map, Map, has, insert,
}
use hs_blockchain.Merkle.TreeCalc.{TreeCalc, height, group_count}
use hs_blockchain.Merkle.Shape.{height-Levels}
use hs_blockchain.Merkle.Position.{Position, unique_loop, unique_map}
use hs_blockchain.Merkle.Tree.{
  Node, Store, UpdateResult, group_position, parent_of, update_one_level, update_loop, last_node,
  first_node, update_at, update,
}
use hs_blockchain.Merkle.Levels.{IsShuffle}

insert-length : (k : Bytes) (p : Position) (m : Map Position) → 0 < length (insert k p m)
unfolding insert
insert-length k p [] = omega arith
insert-length k p ((j, q) ∷ m) = elim (Bool-cases (bytes_eq j k)) [
  | inl e ↦ rw e (omega arith)
  | inr e ↦ rw e (omega arith)
]

unique_loop-length :
    (ps : List Position) (m : Map Position) → 0 < length m → 0 < length (unique_loop ps m)
unfolding unique_loop
unique_loop-length [] m h = h
unique_loop-length (p ∷ ps) m h = elim (Bool-cases (has p.bytes m)) [
  | inl e ↦ rw (unique_loop, e) (unique_loop-length ps m h)
  | inr e ↦ rw (unique_loop, e) (unique_loop-length ps _ (insert-length p.bytes p m))
]

unique_map-length : (ps : List Position) → 0 < length ps → 0 < length (unique_map ps)
unfolding unique_map unique_loop has
unique_map-length [] h = absurd (omega (arith, h))
unique_map-length (p ∷ ps) h = unique_loop-length ps _ (insert-length p.bytes p [])

IsShuffle-length :
    (arrive : List Node → List Node)
    → IsShuffle arrive
    → (ns : List Node) → 0 < length ns
    → 0 < length (arrive ns)
IsShuffle-length arrive shuffle [] h = absurd (omega (arith, h))
IsShuffle-length arrive shuffle (n ∷ ns) h = elim (Bool-cases (ltb 0 (length (arrive (n ∷ ns))))) [
  | inl e ↦ ground (arith, e)
  | inr e ↦ absurd ((shuffle (λ x. ⊥) (n ∷ ns)).1 (empty (arrive (n ∷ ns)) (ground (arith, e)))).0
]
  where
    empty : (ms : List Node) → length ms ≡ 0 → All (λ (x : Node). ⊥) ms
    empty [] e = tt
    empty (m ∷ ms) e = absurd (omega (arith, e))

last_node-some : (n : Node) (ns : List Node) → (r : Node) × (last_node (n ∷ ns) ≡ some r)
unfolding last_node
last_node-some n [] = (n, refl)
last_node-some n (m ∷ ns) = last_node-some m ns

last_of_some : (ms ns : List Node) → 0 < length ms → (r : Node) × (last_node (ms ++ ns) ≡ some r)
last_of_some [] ns h = absurd (omega (arith, h))
last_of_some (m ∷ ms) ns h = last_node-some m (ms ++ ns)

first_of_some : (ns : List Node) → 0 < length ns → (r : Node) × (first_node ns ≡ some r)
first_of_some [] h = absurd (omega (arith, h))
first_of_some (n ∷ ns) h = (n, refl)

-- A result is made of any root.
pick_some :
    (found : Option Node) (f : Node → UpdateResult)
    → (r : Node) × (found ≡ some r)
    → (res : UpdateResult) × ((elim found [ none ↦ none | some r ↦ some (f r) ]) ≡ some res)
pick_some none f (r, e) = absurd (ground (arith, e))
pick_some (some s) f (r, e) = (f s, refl)

module _ (hash : Bytes → Bytes) (tc : TreeCalc) (store : Store) (two : 1 < tc.bfactor)
    (arrive : ℕ → List Node → List Node) (shuffles : (k : ℕ) → IsShuffle (arrive k)) where
  update_one_level-length :
      (k : ℕ) (ns : List Node) (row : ℕ)
      → 0 < length ns
      → 0 < length (update_one_level hash tc store (arrive k) ns row)
  unfolding update_one_level
  update_one_level-length k ns row h = IsShuffle-length (arrive k) (shuffles k) _ (
      subst (λ l. 0 < l) (sym (length-map (parent_of hash tc store ns row) _))
        (unique_map-length _
          (subst (λ l. 0 < l) (sym (length-map (group_position hash tc store) ns)) h)))

  update_at-some :
      (levels n : ℕ) (ns : List Node)
      → levels < 256
      → 0 < length ns
      → (res : UpdateResult) × (update_at hash tc store (suc levels) arrive ns n ≡ some res)
  unfolding update_at update_loop
  update_at-some levels n ns small h =
      let branches = update_loop hash tc store ((suc levels + 255) % 256) arrive ns n in
      pick_some (if ltb 1 (suc levels) then last_node branches else first_node ns)
        (λ r. record {
          leaf_count = n;
          height = suc levels;
          leaves = ns;
          branches = branches;
          root = r;
        })
        (root_of levels small)
    where
      root_of :
          (k : ℕ)
          → k < 256
          → (r : Node) × ((if ltb 1 (suc k)
                then last_node (update_loop hash tc store ((suc k + 255) % 256) arrive ns n)
                else first_node ns)
              ≡ some r)
      root_of zero low = first_of_some ns h
      root_of (suc k) low =
          let top : (suc (suc k) + 255) % 256 ≡ suc k = omega (arith, low) in
          let tall : ltb 1 (suc (suc k)) ≡ true = ground arith in
          let (r, last) =
            last_of_some _
              (update_loop hash tc store k arrive (update_one_level hash tc store (arrive k) ns n)
                (group_count tc n))
              (update_one_level-length k ns n h) in
          (r, rw (tall, top) last)

  pub update-some :
      (ns : List Node) (n k : ℕ)
      → 0 < length ns
      → n ≤ tc.bfactor ^ k
      → k < 255
      → (res : UpdateResult) × (update hash tc store arrive ns n ≡ some res)
  unfolding update
  update-some ns n k some_node fits low =
      let l = height-Levels tc (omega (arith, two)) n k two fits low in
      let le = l.least k fits in
      let found : height tc n ≡ some (suc l.levels) = l.result ∙ ap some (omega arith) in
      let (res, done) = update_at-some l.levels n ns (omega (arith, le, low)) some_node in
      (res, rw (update, found) done)
