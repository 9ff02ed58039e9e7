-- ===== src/Storage/Verified.antt =====
-- VerifyState of storage/storage.go, against the leaves of the tree of the state.
use mathlib.Core.Path.{fun_ext}
use hs_blockchain.Prelude.{
  ℕ, ◌≡◌, ◌∙◌, refl, sym, ap, subst, Bool-cases, true, false, some, some-injective, [], ◌∷◌, Bytes,
  bytes_eq, bytes_eq_iff, ◌-◌, ◌^◌, ◌≤◌, ◌<◌, ◌↔◌, arith, inl, inr, if◌then◌else◌, ◌==◌, ==_iff,
  Option-cases, leb, ltb, ◌&&◌,
}
use hs_blockchain.Core.Wire.{found, failed, panicked}
use hs_blockchain.Merkle.Position.{new_position, set_int_bytes}
use hs_blockchain.Merkle.Tree.{Node, Store, root, are_leaves, verify}
use hs_blockchain.Merkle.Spec.{digest}
use hs_blockchain.Merkle.Groups.{has_index}
use hs_blockchain.Merkle.Levels.{IsShuffle}
use hs_blockchain.Merkle.Updates.{IsTree}
use hs_blockchain.Merkle.Results.{Changes}
use hs_blockchain.Merkle.Verify.{verify-digest}
use hs_blockchain.Storage.StateStore.{get_state_value, get_merkle_index}
use hs_blockchain.Storage.MerkleStore.{merkle_store}
use hs_blockchain.Storage.Storage.{Config, verify_state}

-- The leaves with one of them changed.
abbrev pub with_leaf : ℕ → Bytes → (ℕ → Bytes) → ℕ → Bytes
with_leaf i b leaf c = if c == i then b else leaf c

pub found-injective : {A : Type 0} {a b : A} → found a ≡ found b → a ≡ b
found-injective {a = a} e = ap (λ m. elim m [ found x ↦ x | failed ↦ a | panicked ↦ a ]) e

with_leaf_same : (i : ℕ) (leaf : ℕ → Bytes) → with_leaf i (leaf i) leaf ≡ leaf
with_leaf_same i leaf = fun_ext (λ c. elim (Bool-cases (c == i)) [
  | inl e ↦ rw e (ap leaf (sym ((==_iff c i).0 e)))
  | inr e ↦ rw e refl
])

one_leaf-Changes :
    (store : Store) (leaf : ℕ → Bytes) (i : ℕ) (b : Bytes)
    → i < store.leaf_count
    → Changes store leaf
        (with_leaf i b leaf)
        store.leaf_count
        (record { position = new_position 0 i; node_data = some b } ∷ [])
unfolding has_index new_position
one_leaf-Changes store leaf i b within = record {
  correct = (
    record {
      placed = refl;
      within = within;
      valued = let same : (i == i) ≡ true = ground arith in rw same refl;
    },
    tt,
  );
  same = λ c lt out. (lt, let other : (c == i) ≡ false = ground (arith, out) in rw other refl);
  some_leaf = omega arith;
}

module _ {D : Type 0} (cfg : Config D) (d : D) (two : 1 < cfg.tc.bfactor) (leaf : ℕ → Bytes)
    (tree : IsTree cfg.hash cfg.tc (merkle_store cfg.db d) leaf)
    (shuffles : (k : ℕ) → IsShuffle (cfg.arrive k)) where
  -- The digest of the root over other leaves.
  abbrev pub root_of : (ℕ → Bytes) → Bytes
  root_of leaves =
      let store = merkle_store cfg.db d in
      digest cfg.hash cfg.tc leaves store.leaf_count (store.height - 1) 0

  abbrev leaf_node : ℕ → Bytes → Node
  leaf_node i v = record { position = new_position 0 i; node_data = some (cfg.hash v) }

  verify-outside :
      (i : ℕ) (v : Bytes)
      → (merkle_store cfg.db d).leaf_count ≤ i
      → verify cfg.hash cfg.tc (merkle_store cfg.db d) cfg.arrive (leaf_node i v ∷ []) ≡ some false
  unfolding verify new_position are_leaves
  verify-outside i v out = elim (Option-cases (root cfg.hash cfg.tc (merkle_store cfg.db d))) [
    | inl e ↦ rw (verify, e) refl
    | inr (r, e) ↦
        let beyond : leb (merkle_store cfg.db d).leaf_count i ≡ true = ground (arith, out) in
        elim (Bool-cases ((merkle_store cfg.db d).leaf_count == 0)) [
          | inl z ↦ rw (verify, e, z) refl
          | inr z ↦ rw (verify, e, z, are_leaves, beyond) refl
        ]
  ]

  module _ (k : ℕ) (fits : (merkle_store cfg.db d).leaf_count ≤ cfg.tc.bfactor ^ k) (low : k < 255)
      (key : Bytes) where
    -- What VerifyState does for a value with a leaf.
    verify_state-leaf :
        (v idx : Bytes)
        → get_state_value cfg.db d key ≡ some v
        → get_merkle_index cfg.db d key ≡ some idx
        → verify_state cfg key d ≡ (
            if ltb (set_int_bytes 0 idx) (merkle_store cfg.db d).leaf_count
              && bytes_eq
                  (root_of leaf)
                  (root_of (with_leaf (set_int_bytes 0 idx) (cfg.hash v) leaf))
            then found (some v)
            else panicked)
    unfolding verify_state get_state_value get_merkle_index
    verify_state-leaf v idx e f =
        let i = set_int_bytes 0 idx in
        let n = (merkle_store cfg.db d).leaf_count in
        elim (Bool-cases (ltb i n)) [
          | inl g ↦
              let checked =
                verify-digest cfg.hash cfg.tc two (merkle_store cfg.db d) leaf
                  (with_leaf i (cfg.hash v) leaf) tree cfg.arrive shuffles k fits low
                  (leaf_node i v ∷ [])
                  (one_leaf-Changes (merkle_store cfg.db d) leaf i (cfg.hash v)
                    (ground (arith, g))) in
              rw (verify_state, e, f, g, checked) refl
          | inr g ↦ rw (verify_state, e, f, g, verify-outside i v (ground (arith, g))) refl
        ]

    -- The leaf of a key with a value, under which the value is what the tree has.
    pub record IsVerified (v : Bytes) : Type 0 where
      pub idx : Bytes
      pub stored : get_state_value cfg.db d key ≡ some v
      pub placed : get_merkle_index cfg.db d key ≡ some idx
      pub within : set_int_bytes 0 idx < (merkle_store cfg.db d).leaf_count
      pub same_root : root_of leaf ≡ root_of (with_leaf (set_int_bytes 0 idx) (cfg.hash v) leaf)

    IsVerified-verify_state : (v : Bytes) → IsVerified v → verify_state cfg key d ≡ found (some v)
    IsVerified-verify_state v w =
        verify_state-leaf v w.idx w.stored w.placed
        ∙ ground (arith, w.within, (bytes_eq_iff _ _).1 w.same_root)

    verify_state-IsVerified : (v : Bytes) → verify_state cfg key d ≡ found (some v) → IsVerified v
    unfolding verify_state get_state_value get_merkle_index
    verify_state-IsVerified v h = elim (Option-cases (get_state_value cfg.db d key)) [
      | inl e ↦ absurd (ground (arith, rw (verify_state, e) at h))
      | inr (v', e) ↦ elim (Option-cases (get_merkle_index cfg.db d key)) [
        | inl f ↦ absurd (ground (arith, rw (verify_state, e, f) at h))
        | inr (idx, f) ↦
            let checked = sym (verify_state-leaf v' idx e f) ∙ h in
            let i = set_int_bytes 0 idx in
            elim (Bool-cases (ltb i (merkle_store cfg.db d).leaf_count)) [
              | inr g ↦ absurd (ground (arith, rw g at checked))
              | inl g ↦
                  elim (Bool-cases
                    (bytes_eq (root_of leaf) (root_of (with_leaf i (cfg.hash v') leaf)))) [
                      | inr b ↦ absurd (ground (arith, rw (g, b) at checked))
                      | inl b ↦
                          let same : v' ≡ v =
                            some-injective _ _ (found-injective (rw (g, b) at checked)) in
                          subst IsVerified same (record {
                            idx = idx;
                            stored = e;
                            placed = f;
                            within = ground (arith, g);
                            same_root = (bytes_eq_iff _ _).0 b;
                          })
                    ]
            ]
      ]
    ]

-- A value is verified where the leaf has its hash.
pub verify_state-own_leaf :
    {D : Type 0} (cfg : Config D) (d : D) (two : 1 < cfg.tc.bfactor) (leaf : ℕ → Bytes)
    (tree : IsTree cfg.hash cfg.tc (merkle_store cfg.db d) leaf)
    (shuffles : (k : ℕ) → IsShuffle (cfg.arrive k)) (k : ℕ)
    (fits : (merkle_store cfg.db d).leaf_count ≤ cfg.tc.bfactor ^ k) (low : k < 255)
    (key v idx : Bytes)
    → get_state_value cfg.db d key ≡ some v
    → get_merkle_index cfg.db d key ≡ some idx
    → set_int_bytes 0 idx < (merkle_store cfg.db d).leaf_count
    → leaf (set_int_bytes 0 idx) ≡ cfg.hash v
    → verify_state cfg key d ≡ found (some v)
verify_state-own_leaf cfg d two leaf tree shuffles k fits low key v idx e f within own =
    IsVerified-verify_state cfg d two leaf tree shuffles k fits low key v (record {
      idx = idx;
      stored = e;
      placed = f;
      within = within;
      same_root = ap (root_of cfg d two leaf tree shuffles) (
          sym (
            ap (λ b. with_leaf (set_int_bytes 0 idx) b leaf) (sym own)
            ∙ with_leaf_same (set_int_bytes 0 idx) leaf));
    })

-- For a branch factor of at least 2 and a database with the tree of some leaves, which at most 254 levels
-- of branching hold, VerifyState returns a value exactly when it is the value stored for the key, the key
-- has a leaf of the tree, and the root does not change when the value's hash is set at that leaf. The
-- workers may give the parents in any order.
pub verify_state_iff :
    {D : Type 0} (cfg : Config D) (d : D) (two : 1 < cfg.tc.bfactor) (leaf : ℕ → Bytes)
    (tree : IsTree cfg.hash cfg.tc (merkle_store cfg.db d) leaf)
    (shuffles : (k : ℕ) → IsShuffle (cfg.arrive k)) (k : ℕ)
    (fits : (merkle_store cfg.db d).leaf_count ≤ cfg.tc.bfactor ^ k) (low : k < 255) (key v : Bytes)
    → (verify_state cfg key d ≡ found (some v))
      ↔ IsVerified cfg d two leaf tree shuffles k fits low key v
verify_state_iff cfg d two leaf tree shuffles k fits low key v = (
  verify_state-IsVerified cfg d two leaf tree shuffles k fits low key v,
  IsVerified-verify_state cfg d two leaf tree shuffles k fits low key v,
)
