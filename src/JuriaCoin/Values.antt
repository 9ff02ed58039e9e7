-- ===== src/JuriaCoin/Values.antt =====
-- The value of a key after reads and writes through trackers over a state that stays the same.
use hs_blockchain.Prelude.{
  ℕ, suc, ◌≡◌, ◌∙◌, refl, ap, Bool-cases, Option-cases, none, some, [], ◌∷◌, ◌++◌, Bytes, bytes_eq,
  if◌then◌else◌, inl, inr, arith, lookup, lookup-insert, insert, Bool,
}
use hs_blockchain.Execution.Tracker.{
  Value, Tracker, Getter, base, track, set_dependency, get_state, set_state, write,
}

-- The value of a key, without the notes of a read.
unfoldable pub value_at : Bytes → Getter → Value
value_at key (base view n) = view n key
value_at key (track t g) = elim (lookup (t.key_prefix ++ key) t.changes) [
  | none ↦ value_at (t.key_prefix ++ key) g
  | some v ↦ v
]

pub get_state-value_at : (key : Bytes) (g : Getter) → (get_state key g).0 ≡ value_at key g
unfolding get_state value_at
get_state-value_at key (base view n) = refl
get_state-value_at key (track t g) = elim (Option-cases (lookup (t.key_prefix ++ key) t.changes)) [
  | inl e ↦ rw (e, get_state, value_at) (get_state-value_at (t.key_prefix ++ key) g)
  | inr (v, e) ↦ rw (e, get_state, value_at) refl
]

-- The state at the bottom is the same at every read.
abbrev pub IsStill : Getter → Type 0
IsStill (base view n) = (i j : ℕ) (key : Bytes) → view i key ≡ view j key
IsStill (track t g) = IsStill g

pub IsStill-get_state : (key : Bytes) (g : Getter) → IsStill g → IsStill (get_state key g).1
unfolding get_state
IsStill-get_state key (base view n) s = s
IsStill-get_state key (track t g) s = elim (Option-cases (lookup (t.key_prefix ++ key) t.changes)) [
  | inl e ↦ rw (e, get_state) (IsStill-get_state (t.key_prefix ++ key) g s)
  | inr (v, e) ↦ rw (e, get_state) s
]

value_at-set_dependency :
    (j key : Bytes) (t : Tracker) (g : Getter)
    → value_at j (track (set_dependency key t) g) ≡ value_at j (track t g)
unfolding set_dependency insert value_at
value_at-set_dependency j key t g = elim (Bool-cases t.track_dep) [
  | inl e ↦ rw e refl
  | inr e ↦ rw e refl
]

-- A tracker over states with the same values.
value_at-below :
    (j : Bytes) (t : Tracker) (g h : Getter)
    → ((key : Bytes) → value_at key g ≡ value_at key h)
    → value_at j (track t g) ≡ value_at j (track t h)
unfolding value_at
value_at-below j t g h same = elim (Option-cases (lookup (t.key_prefix ++ j) t.changes)) [
  | inl e ↦ rw (e, value_at) (same (t.key_prefix ++ j))
  | inr (v, e) ↦ rw (e, value_at) refl
]

-- A read changes no value.
pub value_at-get_state :
    (j key : Bytes) (g : Getter) → IsStill g → value_at j (get_state key g).1 ≡ value_at j g
unfolding get_state value_at
value_at-get_state j key (base view n) s = s (suc n) n j
value_at-get_state j key (track t g) s =
    let full = t.key_prefix ++ key in
    elim (Option-cases (lookup full t.changes)) [
      | inl e ↦
          rw (e, get_state)
            (value_at-set_dependency j full t (get_state full g).1
              ∙ value_at-below j t (get_state full g).1 g (λ k. value_at-get_state k full g s))
      | inr (v, e) ↦ rw (e, get_state) (value_at-set_dependency j full t g)
    ]

bytes_eq-append : (p k j : Bytes) → bytes_eq (p ++ k) (p ++ j) ≡ bytes_eq k j
unfolding bytes_eq
bytes_eq-append [] k j = refl
bytes_eq-append (x ∷ p) k j = ground (arith, bytes_eq-append p k j)

lookup-write :
    (key j : Bytes) (v : Value) (t : Tracker)
    → lookup (t.key_prefix ++ j) (write key v t).changes
      ≡ (if bytes_eq key j then some v else lookup (t.key_prefix ++ j) t.changes)
unfolding write
lookup-write key j v t =
    lookup-insert (t.key_prefix ++ key) (t.key_prefix ++ j) v t.changes
    ∙ ap (λ (b : Bool). if b then some v else lookup (t.key_prefix ++ j) t.changes)
        (bytes_eq-append t.key_prefix key j)

-- A write changes the value of its key only.
pub value_at-set_state :
    (j key : Bytes) (v : Value) (t : Tracker) (g : Getter)
    → value_at j (set_state key v (track t g))
      ≡ (if bytes_eq key j then v else value_at j (track t g))
unfolding set_state value_at
value_at-set_state j key v t g =
    let own = t.key_prefix ++ j in
    let found : lookup own (write key v t).changes
        ≡ (if bytes_eq key j then some v else lookup own t.changes) =
      lookup-write key j v t in
    elim (Bool-cases (bytes_eq key j)) [
      | inl e ↦ rw (found, value_at, e) refl
      | inr e ↦ elim (Option-cases (lookup own t.changes)) [
        | inl miss ↦ rw (found, value_at, e, miss) refl
        | inr (w, hit) ↦ rw (found, value_at, e, hit) refl
      ]
    ]
