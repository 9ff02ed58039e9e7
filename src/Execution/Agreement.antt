-- ===== src/Execution/Agreement.antt =====
-- Two executions of a transaction, over states that agree on every key which the block has not
-- changed, are the same, or the first one has read a changed key and has it as a dependency.
use hs_blockchain.Prelude.{
  Option, ℕ, ◌≡◌, refl, ap, ap₂, subst, true, false, [], ◌∷◌, ◌++◌, Bytes, bytes_eq_iff, Map, has,
  lookup, insert, Bool-cases, Option-cases, arith, ◌⊎◌, inl, inr, ◌||◌,
}
use hs_blockchain.Execution.Tracker.{
  Value, Tracker, Getter, base, track, spawn, set_dependency, get_state, write, set_state, merge,
  any_changed,
}
use hs_blockchain.Execution.Chaincode.{Program, done, get, put, run_program}
use hs_blockchain.Execution.TxExecuter.{leave, top_tracker, merge_into}
use hs_blockchain.Execution.Bottom.{bottom, At, At-under, At-below, At-set_state, At-run_program}

-- The tracker notes its reads.
abbrev pub Notes : Tracker → Type 0
Notes t = t.track_dep ≡ true

pub Notes-set_dependency : (key : Bytes) (t : Tracker) → Notes t → Notes (set_dependency key t)
unfolding set_dependency
Notes-set_dependency key t h = ground arith

pub Notes-write : (key : Bytes) (value : Value) (t : Tracker) → Notes t → Notes (write key value t)
unfolding write
Notes-write key value t h = h

module _ (changes : Map Value) where
  -- The tracker depends on a changed key.
  abbrev pub Hits : Tracker → Type 0
  Hits t = any_changed [] t.dependencies changes ≡ true

  any_changed-insert :
      (key : Bytes) (deps : Map (Unit {0}))
      → any_changed [] (insert key tt deps) changes
        ≡ (has key changes || any_changed [] deps changes)
  unfolding any_changed insert
  any_changed-insert key [] = ground arith
  any_changed-insert key ((j, x) ∷ deps) =
      ground (arith, bytes_eq_iff j key, any_changed-insert key deps)

  pub Hits-set_dependency : (key : Bytes) (t : Tracker) → Hits t → Hits (set_dependency key t)
  unfolding set_dependency
  Hits-set_dependency key t h = ground (arith, any_changed-insert key t.dependencies)

  pub Hits-write : (key : Bytes) (value : Value) (t : Tracker) → Hits t → Hits (write key value t)
  unfolding write
  Hits-write key value t h = h

  -- A read of a changed key is a hit.
  Hits-read :
      (key : Bytes) (t : Tracker) → Notes t → has key changes ≡ true → Hits (set_dependency key t)
  unfolding set_dependency
  Hits-read key t n h = ground (arith, any_changed-insert key t.dependencies)

  -- The same trackers, over states that agree at every read on what is not changed.
  abbrev pub Agree : Getter → Getter → Type 0
  Agree (base v n) (base w m) =
      (i j : ℕ) (key : Bytes) → has key changes ≡ false → v i key ≡ w j key
  Agree (base v n) (track u h) = ⊥
  Agree (track t g) (base w m) = ⊥
  Agree (track t g) (track u h) = (t ≡ u) × Agree g h

  -- The first run has hit a change, or both have the same outcome and go on to agree.
  abbrev pub Same : {A : Type 0} → A × Getter → A × Getter → Type 0
  Same (a, g) (b, h) = At Hits g ⊎ ((a ≡ b) × Agree g h × At Notes g)

  -- A read through one tracker right above the base.
  Same-read_base :
      (key : Bytes) (t : Tracker) (v w : ℕ → Bytes → Value) (n m : ℕ)
      → Agree (base v n) (base w m)
      → Notes t
      → Same (get_state key (track t (base v n))) (get_state key (track t (base w m)))
  unfolding get_state bottom
  Same-read_base key t v w n m a notes =
      let full = t.key_prefix ++ key in
      let kept = Notes-set_dependency full t notes in
      elim (Bool-cases (has full changes)) [
        | inl h ↦
            let hits = Hits-read full t notes h in
            elim (Option-cases (lookup full t.changes)) [
              | inl miss ↦ rw (miss, get_state) (inl (set_dependency full t, refl, hits))
              | inr (value, found) ↦ rw (found, get_state) (inl (set_dependency full t, refl, hits))
            ]
        | inr h ↦ elim (Option-cases (lookup full t.changes)) [
          | inl miss ↦
              rw (miss, get_state)
                (inr (a n m full h, (refl, a), (set_dependency full t, refl, kept)))
          | inr (value, found) ↦
              rw (found, get_state) (inr (refl, (refl, a), (set_dependency full t, refl, kept)))
        ]
      ]

  -- A read through a tracker over others: its own change, or what those give.
  Same-read_above :
      (key : Bytes) (t : Tracker) (g h : Getter)
      → Agree g h
      → At Notes g
      → Same (get_state (t.key_prefix ++ key) g) (get_state (t.key_prefix ++ key) h)
      → Same (get_state key (track t g)) (get_state key (track t h))
  unfolding get_state
  Same-read_above key t g h a notes below =
      let full = t.key_prefix ++ key in
      elim (Option-cases (lookup full t.changes)) [
        | inr (value, found) ↦
            rw (found, get_state)
              (inr (refl, (refl, a), At-under Notes (set_dependency full t) g notes))
        | inl miss ↦ elim below [
          | inl hits ↦
              rw (miss, get_state)
                (inl (At-under Hits (set_dependency full t) (get_state full g).1 hits))
          | inr (e, a', n) ↦
              rw (miss, get_state)
                (inr (e, (refl, a'), At-under Notes (set_dependency full t) (get_state full g).1 n))
        ]
      ]

  Same-get_state :
      (key : Bytes) (t u : Tracker) (g h : Getter)
      → Agree (track t g) (track u h)
      → At Notes (track t g)
      → Same (get_state key (track t g)) (get_state key (track u h))
  unfolding bottom
  Same-get_state key t u (base v n) (base w m) (e, a) (b, q, p) =
      let same : b ≡ t = cc in
      subst (λ x. Same (get_state key (track t (base v n))) (get_state key (track x (base w m)))) e
        (Same-read_base key t v w n m a (subst Notes same p))
  Same-get_state key t u (track t' g) (track u' h) (e, a) notes =
      let below = At-below Notes t t' g notes in
      subst
        (λ x. Same (get_state key (track t (track t' g))) (get_state key (track x (track u' h)))) e
        (Same-read_above key t (track t' g) (track u' h) a below
          (Same-get_state (t.key_prefix ++ key) t' u' g h a below))
  Same-get_state key t u (base v n) (track u' h) (e, a) notes = absurd a
  Same-get_state key t u (track t' g) (base w m) (e, a) notes = absurd a

  pub Agree-set_state :
      (key : Bytes) (value : Value) (g h : Getter)
      → Agree g h
      → Agree (set_state key value g) (set_state key value h)
  unfolding set_state
  Agree-set_state key value (base v n) (base w m) a = a
  Agree-set_state key value (track t g) (track u h) (e, a) = (ap (write key value) e, a)
  Agree-set_state key value (base v n) (track u h) a = absurd a
  Agree-set_state key value (track t g) (base w m) a = absurd a

  pub Hits-run : (p : Program (Option Bytes)) (g : Getter) → At Hits g → At Hits (run_program p g).1
  Hits-run p g a = At-run_program Hits Hits-set_dependency Hits-write p g a

  pub Same-get :
      (key : Bytes) (g h : Getter)
      → Agree g h
      → At Notes g
      → Same (get_state key g) (get_state key h)
  unfolding bottom
  Same-get key (track t g) (track u h) a notes = Same-get_state key t u g h a notes
  Same-get key (base v n) h a (b, q, p) = cc
  Same-get key (track t g) (base w m) a notes = absurd a

  -- A chaincode call.
  pub Same-run_program :
      (p : Program (Option Bytes)) (g h : Getter)
      → Agree g h
      → At Notes g
      → Same (run_program p g) (run_program p h)
  unfolding run_program
  Same-run_program (done e) g h a notes = inr (refl, a, notes)
  Same-run_program (put key value rest) g h a notes =
      Same-run_program rest (set_state key value g) (set_state key value h)
        (Agree-set_state key value g h a)
        (At-set_state Notes Notes-set_dependency Notes-write key value g notes)
  Same-run_program (get key rest) g h a notes = elim (Same-get key g h a notes) [
    | inl hits ↦ inl (Hits-run (rest (get_state key g).0) (get_state key g).1 hits)
    | inr (e, a', n) ↦
        subst
          (λ x.
            Same (run_program (rest (get_state key g).0) (get_state key g).1)
              (run_program (rest x) (get_state key h).1))
          e
          (Same-run_program (rest (get_state key g).0) (get_state key g).1 (get_state key h).1 a' n)
  ]

  -- One more step after two runs.
  pub Same-then :
      {A B : Type 0} (f : A × Getter → B × Getter)
      → ((r : A × Getter) → At Hits r.1 → At Hits (f r).1)
      → ((a : A) (g h : Getter) → Agree g h → At Notes g → Same (f (a, g)) (f (a, h)))
      → (r s : A × Getter) → Same r s
      → Same (f r) (f s)
  Same-then f keeps same (a, g) (b, h) (inl hits) = inl (keeps (a, g) hits)
  Same-then f keeps same (a, g) (b, h) (inr (e, ag, n)) =
      subst (λ x. Same (f (a, g)) (f (x, h))) e (same a g h ag n)

  pub Agree-leave : (g h : Getter) → Agree g h → Agree (leave g) (leave h)
  unfolding leave
  Agree-leave (base v n) (base w m) a = a
  Agree-leave (track t (base v n)) (track u (base w m)) a = a
  Agree-leave (track t (track t' g)) (track u (track u' h)) a = a.1
  Agree-leave (base v n) (track u h) a = absurd a
  Agree-leave (track t g) (base w m) a = absurd a
  Agree-leave (track t (base v n)) (track u (track u' h)) a = absurd a.1
  Agree-leave (track t (track t' g)) (track u (base w m)) a = absurd a.1

  pub Agree-merge_into :
      (t u : Tracker) (g h : Getter) → t ≡ u → Agree g h → Agree (merge_into t g) (merge_into u h)
  unfolding merge_into
  Agree-merge_into t u (base v n) (base w m) e a = a
  Agree-merge_into t u (track t' g) (track u' h) e a = (ap₂ merge e a.0, a.1)
  Agree-merge_into t u (base v n) (track u' h) e a = absurd a
  Agree-merge_into t u (track t' g) (base w m) e a = absurd a

  pub top_tracker-Agree : (g h : Getter) → Agree g h → top_tracker g ≡ top_tracker h
  unfolding top_tracker
  top_tracker-Agree (base v n) (base w m) a = refl
  top_tracker-Agree (track t g) (track u h) a = a.0
  top_tracker-Agree (base v n) (track u h) a = absurd a
  top_tracker-Agree (track t g) (base w m) a = absurd a

  pub Agree-spawn : (p : Bytes) (g h : Getter) → Agree g h → Agree (spawn p g) (spawn p h)
  unfolding spawn
  Agree-spawn p g h a = (refl, a)
