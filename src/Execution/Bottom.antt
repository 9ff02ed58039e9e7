-- ===== src/Execution/Bottom.antt =====
-- The tracker of a transaction, right above the state of the block: what it satisfies, the operations
-- of execution/state_tracker.go keep.
use hs_blockchain.Prelude.{
  ◌≡◌, refl, sym, subst, Option, none, some, [], ◌∷◌, ◌++◌, Bytes, Map, lookup, Option-cases, arith,
  inl, inr,
}
use hs_blockchain.Execution.Tracker.{
  Value, Tracker, Getter, base, track, spawn, set_dependency, get_state, write, set_state,
  write_all, merge,
}
use hs_blockchain.Execution.Chaincode.{Program, done, get, put, run_program}
use hs_blockchain.Execution.TxExecuter.{leave, merge_into}

-- The tracker right above the base.
unfoldable pub bottom : Getter → Option Tracker
bottom (base view n) = none
bottom (track t g) = elim (bottom g) [ none ↦ some t | some b ↦ some b ]

bottom-track : (t : Tracker) (g : Getter) → (b : Tracker) × (bottom (track t g) ≡ some b)
unfolding bottom
bottom-track t g = elim (Option-cases (bottom g)) [
  | inl e ↦ (t, rw e refl)
  | inr (b, e) ↦ (b, rw e refl)
]

module _ (P : Tracker → Type 0) where
  -- The tracker right above the base satisfies the predicate.
  abbrev pub At : Getter → Type 0
  At g = (b : Tracker) × (bottom g ≡ some b) × P b

  pub At-under : (t : Tracker) (g : Getter) → At g → At (track t g)
  unfolding bottom
  At-under t g (b, e, p) = (b, rw e refl, p)

  pub At-below : (t u : Tracker) (g : Getter) → At (track t (track u g)) → At (track u g)
  unfolding bottom
  At-below t u g (b, e, p) =
      let (b', e') = bottom-track u g in
      let same : b' ≡ b = ground (arith, e') in (b', e', subst P (sym same) p)

  pub At-leave : (g : Getter) → At g → At (leave g)
  unfolding leave
  At-leave (base view n) a = a
  At-leave (track t (base view n)) a = a
  At-leave (track t (track u g)) a = At-below t u g a

  pub At-spawn : (key_prefix : Bytes) (g : Getter) → At g → At (spawn key_prefix g)
  unfolding spawn
  At-spawn key_prefix g a = At-under _ g a

  module _ (noted : (key : Bytes) (t : Tracker) → P t → P (set_dependency key t)) where
    pub At-get_state : (key : Bytes) (g : Getter) → At g → At (get_state key g).1
    unfolding get_state bottom
    At-get_state key (base view n) (b, e, p) = cc
    At-get_state key (track t (base view n)) (b, e, p) =
        let same : t ≡ b = cc in
        let full = t.key_prefix ++ key in
        let kept = noted full t (subst P (sym same) p) in
        elim (Option-cases (lookup full t.changes)) [
          | inl miss ↦ rw (miss, get_state) (set_dependency full t, refl, kept)
          | inr (value, found) ↦ rw (found, get_state) (set_dependency full t, refl, kept)
        ]
    At-get_state key (track t (track u g)) a =
        let full = t.key_prefix ++ key in
        elim (Option-cases (lookup full t.changes)) [
          | inl miss ↦
              rw (miss, get_state)
                (At-under (set_dependency full t) (get_state full (track u g)).1
                  (At-get_state full (track u g) (At-below t u g a)))
          | inr (value, found) ↦
              rw (found, get_state)
                (At-under (set_dependency full t) (track u g) (At-below t u g a))
        ]

    module _
        (written : (key : Bytes) (value : Value) (t : Tracker) → P t → P (write key value t)) where
      pub At-set_state :
          (key : Bytes) (value : Value) (g : Getter) → At g → At (set_state key value g)
      unfolding set_state bottom
      At-set_state key value (base view n) a = a
      At-set_state key value (track t (base view n)) (b, e, p) =
          let same : t ≡ b = cc in
          (write key value t, refl, written key value t (subst P (sym same) p))
      At-set_state key value (track t (track u g)) a =
          At-under (write key value t) (track u g) (At-below t u g a)

      pub At-run_program : (p : Program (Option Bytes)) (g : Getter) → At g → At (run_program p g).1
      unfolding run_program
      At-run_program (done e) g a = a
      At-run_program (get key rest) g a =
          At-run_program (rest (get_state key g).0) (get_state key g).1 (At-get_state key g a)
      At-run_program (put key value rest) g a =
          At-run_program rest (set_state key value g) (At-set_state key value g a)

      At-write_all : (m : Map Value) (t : Tracker) → P t → P (write_all m t)
      unfolding write_all
      At-write_all [] t p = p
      At-write_all ((key, value) ∷ m) t p =
          At-write_all m (write key value t) (written key value t p)

      pub At-merge_into : (child : Tracker) (g : Getter) → At g → At (merge_into child g)
      unfolding merge_into bottom
      At-merge_into child (base view n) a = a
      At-merge_into child (track t (base view n)) (b, e, p) =
          let same : t ≡ b = cc in
          (write_all child.changes t, refl, At-write_all child.changes t (subst P (sym same) p))
      At-merge_into child (track t (track u g)) a =
          At-under (merge child t) (track u g) (At-below t u g a)
