-- ===== src/Merkle/Encoding.antt =====
-- The bytes of a position of merkle/types.go give the position back, so a store keeps positions apart.
use hs_blockchain.Prelude.{
  ℕ, zero, suc, ◌≡◌, ◌∙◌, refl, sym, ap, Bool-cases, false, Option, none, some, List, [], ◌∷◌, ◌++◌,
  Bytes, ◌==◌, ◌+◌, ◌*◌, ◌/◌, ◌≤◌, arith, inl, inr, Map, has, has-insert, insert, All, bytes_eq,
  bytes_eq_iff,
}
use hs_blockchain.Merkle.Position.{
  digits, int_bytes, set_int_bytes, Position, position_bytes, new_position, unmarshal_position,
  unique_loop, unique_map,
}

set_int_bytes-snoc :
    (n : ℕ) (xs : Bytes) (d : ℕ) → set_int_bytes n (xs ++ d ∷ []) ≡ set_int_bytes n xs * 256 + d
unfolding set_int_bytes
set_int_bytes-snoc n [] d = refl
set_int_bytes-snoc n (x ∷ xs) d = set_int_bytes-snoc (n * 256 + x) xs d

set_int_bytes-digits : (fuel n : ℕ) → n ≤ fuel → set_int_bytes 0 (digits fuel n) ≡ n
unfolding digits
set_int_bytes-digits zero n h = unfold set_int_bytes in omega (arith, h)
set_int_bytes-digits (suc fuel) n h = elim (Bool-cases (n == 0)) [
  | inl e ↦ rw (digits, e) (unfold set_int_bytes in ground (arith, e))
  | inr e ↦
      let pos : n / 256 ≤ fuel = ground (arith, h, e) in
      rw (digits, e, set_int_bytes-snoc, set_int_bytes-digits fuel (n / 256) pos) (omega arith)
]

index_tail :
    (index : ℕ) (b : Bytes)
    → int_bytes index ≡ b
    → set_int_bytes 0 (elim b [ [] ↦ 0 ∷ [] | x ∷ xs ↦ x ∷ xs ]) ≡ index
unfolding set_int_bytes int_bytes
index_tail index [] e =
    sym (ap (set_int_bytes 0) e) ∙ set_int_bytes-digits index index (omega arith)
index_tail index (x ∷ xs) e =
    sym (ap (set_int_bytes 0) e) ∙ set_int_bytes-digits index index (omega arith)

-- A position goes through its bytes and back unchanged: its level, its index and its bytes.
pub unmarshal_position-new_position :
    (level index : ℕ)
    → unmarshal_position (new_position level index).bytes ≡ some (new_position level index)
unfolding unmarshal_position new_position position_bytes
unmarshal_position-new_position level index =
    ap (λ (i : ℕ). some (record { level = level; index = i; bytes = position_bytes level index }))
      (index_tail index (int_bytes index) refl)

index_of : Option Position → ℕ
index_of none = 0
index_of (some p) = p.index

-- Positions with the same bytes have the same index.
pub new_position-injective :
    (l m i j : ℕ) → (new_position l i).bytes ≡ (new_position m j).bytes → i ≡ j
unfolding new_position index_of
new_position-injective l m i j e =
    sym (ap index_of (unmarshal_position-new_position l i))
    ∙ (ap (λ b. index_of (unmarshal_position b)) e
        ∙ ap index_of (unmarshal_position-new_position m j))

level_of : Bytes → ℕ
level_of [] = 0
level_of (x ∷ xs) = x

pub new_position-injective_level :
    (l m i j : ℕ) → (new_position l i).bytes ≡ (new_position m j).bytes → l ≡ m
unfolding new_position position_bytes level_of
new_position-injective_level l m i j e = ap level_of e

-- The entries of a map of positions stand under their bytes, and satisfy what the positions do.
module _ (P : Position → Type 0) where
  abbrev pub Entries : Map Position → Type 0
  Entries = All (λ (e : Bytes × Position). (e.0 ≡ e.1.bytes) × P e.1)

  Entries-insert :
      (p : Position) (m : Map Position) → P p → Entries m → Entries (insert p.bytes p m)
  unfolding insert
  Entries-insert p [] h a = ((refl, h), tt)
  Entries-insert p ((k, q) ∷ m) h a = elim (Bool-cases (bytes_eq k p.bytes)) [
    | inl e ↦ rw e ((refl, h), a.1)
    | inr e ↦ rw e (a.0, Entries-insert p m h a.1)
  ]

  unique_loop-Entries :
      (ps : List Position) (m : Map Position) → All P ps → Entries m → Entries (unique_loop ps m)
  unfolding unique_loop
  unique_loop-Entries [] m h a = a
  unique_loop-Entries (p ∷ ps) m h a = elim (Bool-cases (has p.bytes m)) [
    | inl e ↦ rw (e, unique_loop) (unique_loop-Entries ps m h.1 a)
    | inr e ↦
        rw (e, unique_loop)
          (unique_loop-Entries ps (insert p.bytes p m) h.1 (Entries-insert p m h.0 a))
  ]

  pub unique_map-Entries : (ps : List Position) → All P ps → Entries (unique_map ps)
  unfolding unique_map
  unique_map-Entries ps h = unique_loop-Entries ps [] h tt

-- A key that the map lacks is the key of no position.
unique_loop-lacks :
    (k : Bytes) (ps : List Position) (m : Map Position)
    → has k (unique_loop ps m) ≡ false
    → (has k m ≡ false) × All (λ (p : Position). bytes_eq p.bytes k ≡ false) ps
unfolding unique_loop
unique_loop-lacks k [] m h = (h, tt)
unique_loop-lacks k (p ∷ ps) m h = elim (Bool-cases (has p.bytes m)) [
  | inl e ↦
      let (old, rest) = unique_loop-lacks k ps m (rw (e, unique_loop) at h) in
      (old, (ground (arith, bytes_eq_iff p.bytes k, e, old), rest))
  | inr e ↦
      let (old, rest) = unique_loop-lacks k ps (insert p.bytes p m) (rw (e, unique_loop) at h) in
      (
        ground (arith, old, has-insert p.bytes k p m),
        (ground (arith, old, has-insert p.bytes k p m), rest),
      )
]

pub unique_map-lacks :
    (k : Bytes) (ps : List Position)
    → has k (unique_map ps) ≡ false
    → All (λ (p : Position). bytes_eq p.bytes k ≡ false) ps
unfolding unique_map
unique_map-lacks k ps h = (unique_loop-lacks k ps [] h).1
