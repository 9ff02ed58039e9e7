-- ===== src/Execution/Bincc/Orders.antt =====
-- The order in which two joined processes take their steps makes no difference.
use hs_blockchain.Prelude.{
  ℕ, zero, suc, ◌≡◌, refl, sym, ap, subst, ◌∙◌, Bool, true, false, none, some, ◌++◌, Bytes, leb,
  length, ◌+◌, ◌≤◌, arith, Bool-cases, inl, inr, length-append, take-append, drop-append,
  Option-cases,
}
use hs_blockchain.Execution.Bincc.Processes.{
  Process, ended, send, receive, has_ended, advance, Pair, after_left, after_right, step, Steps,
}

some_same : {A : Type 0} {a b : A} → some a ≡ some b → a ≡ b
some_same h = cc

module _ {A : Type 0} where
  -- A process that makes a step while the other one goes on makes the same step later, when more bytes
  -- are in the pipe.
  advance-later :
      (c : Bool) (p : Process A) (xs ys : Bytes) (q : Process A × Bytes × Bytes)
      → advance false p xs ≡ some q
      → advance c p (xs ++ ys) ≡ some (q.0, q.1 ++ ys, q.2)
  unfolding advance
  advance-later c (ended a) xs ys q h = cc
  advance-later c (send b rest) xs ys q h = ground (arith, h)
  advance-later c (receive n rest) xs ys q h = elim (Bool-cases (leb n (length xs))) [
    | inl e ↦
        let fits : n ≤ length xs = ground (arith, e) in
        let more : leb n (length (xs ++ ys)) ≡ true = ground (arith, fits, length-append xs ys) in
        let h' = rw e at h in
        rw (more, take-append n xs ys fits, drop-append n xs ys fits) (ground arith)
    | inr e ↦ let h' = rw e at h in cc
  ]

  -- Only a process that is not over makes a step.
  advance-running :
      (c : Bool) (p : Process A) (xs : Bytes) (q : Process A × Bytes × Bytes)
      → advance c p xs ≡ some q
      → has_ended p ≡ false
  unfolding advance has_ended
  advance-running c (ended a) xs q h = cc
  advance-running c (send b rest) xs q h = refl
  advance-running c (receive n rest) xs q h = refl

module _ {A B : Type 0} where
  left_step :
      (s t : Pair A B)
      → step true s ≡ some t
      → (q : Process A × Bytes × Bytes) × (advance (has_ended s.right) s.left s.to_left ≡ some q)
        × (t ≡ after_left s q)
  unfolding step
  left_step s t h = elim (Option-cases (advance (has_ended s.right) s.left s.to_left)) [
    | inl e ↦ let h' = rw (e, step) at h in cc
    | inr (q, e) ↦ let h' = rw (e, step) at h in (q, e, sym (some_same h'))
  ]

  right_step :
      (s t : Pair A B)
      → step false s ≡ some t
      → (q : Process B × Bytes × Bytes) × (advance (has_ended s.left) s.right s.to_right ≡ some q)
        × (t ≡ after_right s q)
  unfolding step
  right_step s t h = elim (Option-cases (advance (has_ended s.left) s.right s.to_right)) [
    | inl e ↦ let h' = rw (e, step) at h in cc
    | inr (q, e) ↦ let h' = rw (e, step) at h in (q, e, sym (some_same h'))
  ]

  -- Where both processes can make a step, either order leads to the same state.
  swap_ends :
      (s : Pair A B) (q : Process A × Bytes × Bytes) (r : Process B × Bytes × Bytes)
      → advance (has_ended s.right) s.left s.to_left ≡ some q
      → advance (has_ended s.left) s.right s.to_right ≡ some r
      → (v : Pair A B) × (step false (after_left s q) ≡ some v)
        × (step true (after_right s r) ≡ some v)
  unfolding step after_left after_right
  swap_ends s q r hq hr =
      let hq' = rw (advance-running (has_ended s.left) s.right s.to_right r hr) at hq in
      let hr' = rw (advance-running (has_ended s.right) s.left s.to_left q hq) at hr in
      (
        record { left = q.0; right = r.0; to_left = q.1 ++ r.2; to_right = r.1 ++ q.2 },
        rw (advance-later (has_ended q.0) s.right s.to_right q.2 r hr', step) refl,
        rw (advance-later (has_ended r.0) s.left s.to_left r.2 q hq', step) refl,
      )

  swap_steps :
      (s t u : Pair A B)
      → step true s ≡ some t
      → step false s ≡ some u
      → (v : Pair A B) × (step false t ≡ some v) × (step true u ≡ some v)
  swap_steps s t u ht hu =
      let (q, hq, et) = left_step s t ht in
      let (r, hr, eu) = right_step s u hu in
      let (v, hv, hw) = swap_ends s q r hq hr in
      (v, ap (step false) et ∙ hv, ap (step true) eu ∙ hw)

  -- No process can make a step.
  abbrev pub IsStuck : Pair A B → Type 0
  IsStuck z = (b : Bool) → step b z ≡ none

  -- A first step, taken out of order, leaves one step less to the end.
  any_first :
      (n : ℕ) (b : Bool) (s t z : Pair A B)
      → IsStuck z
      → Steps n s z
      → step b s ≡ some t
      → (k : ℕ) × (n ≡ suc k) × Steps k t z
  any_first zero b s t z stuck e h = let e' = sym (stuck b) ∙ (ap (step b) (sym e) ∙ h) in cc
  any_first (suc n) true s t z stuck (true, u, hu, rest) h =
      (n, refl, subst (λ x. Steps n x z) (some_same (sym hu ∙ h)) rest)
  any_first (suc n) false s t z stuck (false, u, hu, rest) h =
      (n, refl, subst (λ x. Steps n x z) (some_same (sym hu ∙ h)) rest)
  any_first (suc n) true s t z stuck (false, u, hu, rest) h =
      let (v, hv, hw) = swap_steps s t u h hu in
      let (k, e, rest') = any_first n true u v z stuck rest hw in
      (suc k, ap suc e, (false, v, hv, rest'))
  any_first (suc n) false s t z stuck (true, u, hu, rest) h =
      let (v, hv, hw) = swap_steps s u t hu h in
      let (k, e, rest') = any_first n false u v z stuck rest hv in
      (suc k, ap suc e, (true, v, hw, rest'))

  -- Where one run leads to a stuck state, so does every run, after the same number of steps.
  pub any_order :
      (m n : ℕ) (s t z : Pair A B)
      → IsStuck z
      → Steps n s z
      → Steps m s t
      → (k : ℕ) × (m + k ≡ n) × Steps k t z
  any_order zero n s t z stuck rest e = (n, omega arith, subst (λ x. Steps n x z) e rest)
  any_order (suc m) n s t z stuck rest (b, u, hu, more) =
      let (k, e, rest') = any_first n b s u z stuck rest hu in
      let (j, e', rest'') = any_order m k u t z stuck rest' more in
      (j, omega (arith, e, e'), rest'')

  pub Steps-trans : (m n : ℕ) (s t u : Pair A B) → Steps m s t → Steps n t u → Steps (m + n) s u
  Steps-trans zero n s t u e rest =
      subst (λ k. Steps k s u) (sym zero_add_n) (subst (λ x. Steps n x u) (sym e) rest)
    where
      zero_add_n : zero + n ≡ n
      zero_add_n = omega arith
  Steps-trans (suc m) n s t u (b, v, h, more) rest =
      subst (λ k. Steps k s u) suc_add (b, v, h, Steps-trans m n v t u more rest)
    where
      suc_add : suc (m + n) ≡ suc m + n
      suc_add = omega arith
