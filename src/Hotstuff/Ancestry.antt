-- ===== src/Hotstuff/Ancestry.antt =====
-- The parents of a block, and CheckSafetyRule of hotstuff/hotstuff.go as a decision about them.
use hs_blockchain.Prelude.{
  ℕ, zero, suc, ◌≡◌, refl, sym, subst, Bool, true, false, Option, none, some, ◌+◌, ◌≤◌, ◌<◌, arith,
  ◌⊎◌, inl, inr, Bool-cases, Option-cases, some,
}
use hs_blockchain.Hotstuff.Types.{Blocks, IsLawful, Driver, Run, ok, is_higher, not_lower}
use hs_blockchain.Hotstuff.State.{State}
use hs_blockchain.Hotstuff.Engine.{safety_loop, check_safety_rule, can_vote, check_liveness_rule}

-- `b` is `c`, or `c` is one of the blocks that the parents of `b` lead to.
pub data Extends {B Q V : Type 0} (o : Blocks B Q V) (c : B) : B → Type 0 where
  same : Extends o c c
  above : {b p : B} → o.parent b ≡ some p → Extends o c p → Extends o c b

-- The test returns, and it returns true exactly when the statement holds.
abbrev pub Decides : Run Bool → Type 0 → Type 0
Decides r P = ((r ≡ ok true) × P) ⊎ ((r ≡ ok false) × (¬ P))

module _ {B Q V : Type 0} (o : Blocks B Q V) (law : IsLawful o) where
  pub height-Extends : {c b : B} → Extends o c b → o.height c ≤ o.height b
  height-Extends same = omega arith
  height-Extends (above {b = b} {p = p} q r) =
      omega (arith, law.height_parent b p q, height-Extends r)

  -- A block that is not `c` extends it only through its parent.
  Extends-inv :
      {c b : B} → Extends o c b → (b ≡ c) ⊎ ((p : B) × (o.parent b ≡ some p) × Extends o c p)
  Extends-inv same = inl refl
  Extends-inv (above {p = p} q r) = inr (p, q, r)

  not-Extends_lower : (c b : B) → not_lower o (some b) (some c) ≡ false → ¬ Extends o c b
  unfolding not_lower
  not-Extends_lower c b h = λ e. ground (arith, height-Extends e)

  pub not-Extends_root :
      (c b : B) → o.equal c (some b) ≡ false → o.parent b ≡ none → ¬ Extends o c b
  not-Extends_root c b ne top =
      λ e. elim (Extends-inv e) [ inl s ↦ cc ((law.equal_iff c b).1 (sym s)) | inr (p, q, r) ↦ cc ]

  pub not-Extends_above :
      (c b p : B)
      → o.equal c (some b) ≡ false
      → o.parent b ≡ some p
      → ¬ Extends o c p
      → ¬ Extends o c b
  not-Extends_above c b p ne up no_ext = λ e. elim (Extends-inv e) [
    | inl s ↦ cc ((law.equal_iff c b).1 (sym s))
    | inr (p', q, r) ↦ let e' : p' ≡ p = cc in no_ext (subst (Extends o c) e' r)
  ]

  module _ (driver : Driver Q V) (lock : B) where
    safety_loop-Decides :
        (fuel : ℕ) (b : B)
        → o.height b + 1 < fuel
        → Decides (safety_loop o driver fuel lock (some b)) (Extends o lock b)
    unfolding safety_loop
    safety_loop-Decides zero b h = absurd (omega arith)
    safety_loop-Decides (suc zero) b h = absurd (omega arith)
    safety_loop-Decides (suc (suc fuel)) b h =
        elim (Bool-cases (not_lower o (some b) (some lock))) [
          | inr low ↦ inr (rw low refl, not-Extends_lower lock b low)
          | inl enough ↦ elim (Bool-cases (o.equal lock (some b))) [
            | inl eq ↦
                inl
                  (rw (enough, eq) refl, subst (Extends o lock) ((law.equal_iff lock b).0 eq) same)
            | inr ne ↦ elim (Option-cases (o.parent b)) [
              | inl top ↦ inr (rw (enough, ne, top) refl, not-Extends_root lock b ne top)
              | inr (p, up) ↦
                  elim (safety_loop-Decides (suc fuel) p
                    (omega (arith, law.height_parent b p up))) [
                      | inl (e, r) ↦ inl (rw (enough, ne, up) e, above up r)
                      | inr (e, r) ↦ inr (rw (enough, ne, up) e, not-Extends_above lock b p ne up r)
                    ]
            ]
          ]
        ]

-- CheckSafetyRule returns for every block, and it is true exactly when the block is the locked
-- block or descends from it, where the block store is lawful.
pub check_safety_rule-Decides :
    {B Q V : Type 0} (o : Blocks B Q V) (driver : Driver Q V) (b : B) (s : State B Q V)
    → IsLawful o
    → Decides (check_safety_rule o driver b s) (Extends o s.b_lock b)
unfolding check_safety_rule
check_safety_rule-Decides o driver b s law =
    safety_loop-Decides o law driver s.b_lock (o.height b + 2) b (omega arith)

module _ {B Q V : Type 0} (o : Blocks B Q V) where
  pub is_higher-lt : (a b : B) → is_higher o (some a) (some b) ≡ true → o.height b < o.height a
  unfolding is_higher
  is_higher-lt a b h = ground arith

  pub lt-is_higher : (a b : B) → o.height b < o.height a → is_higher o (some a) (some b) ≡ true
  unfolding is_higher
  lt-is_higher a b h = ground arith

  pub is_higher-some :
      (x : Option B) (l : B)
      → is_higher o x (some l) ≡ true
      → (r : B) × (x ≡ some r) × (o.height l < o.height r)
  unfolding is_higher
  is_higher-some none l h = cc
  is_higher-some (some r) l h = (r, refl, is_higher-lt r l h)

module _ {B Q V : Type 0} (o : Blocks B Q V) (driver : Driver Q V) (b : B) (s : State B Q V) where
  abbrev JustifiedAbove : Type 0
  JustifiedAbove = (r : B) × (o.block (o.justify b) ≡ some r) × (o.height s.b_lock < o.height r)

  liveness-above : check_liveness_rule o driver b s ≡ true → JustifiedAbove
  unfolding check_liveness_rule
  liveness-above h = is_higher-some o (o.block (o.justify b)) s.b_lock h

  above-liveness : JustifiedAbove → check_liveness_rule o driver b s ≡ true
  unfolding check_liveness_rule
  above-liveness (r, e, lt) = rw e (lt-is_higher o r s.b_lock lt)

-- CanVote returns for every block, and it is true exactly when the block is above the last voted one
-- and extends the locked block or is justified by a block above the locked one.
pub can_vote-Decides :
    {B Q V : Type 0} (o : Blocks B Q V) (driver : Driver Q V) (b : B) (s : State B Q V)
    → IsLawful o
    → Decides (can_vote o driver b s) (
        (o.height s.b_vote < o.height b)
        × (Extends o s.b_lock b
            ⊎ ((r : B) × (o.block (o.justify b) ≡ some r) × (o.height s.b_lock < o.height r))))
unfolding can_vote
can_vote-Decides o driver b s law = elim (Bool-cases (is_higher o (some b) (some s.b_vote))) [
  | inr low ↦ inr (rw low refl, λ p. cc (lt-is_higher o b s.b_vote p.0))
  | inl up ↦ elim (check_safety_rule-Decides o driver b s law) [
    | inl (e, r) ↦ inl (rw (up, e) refl, (is_higher-lt o b s.b_vote up, inl r))
    | inr (e, nr) ↦ elim (Bool-cases (check_liveness_rule o driver b s)) [
      | inl live ↦ inl (
        rw (up, e) (rw live),
        (is_higher-lt o b s.b_vote up, inr (liveness-above o driver b s live)),
      )
      | inr dead ↦ inr (
        rw (up, e) (rw dead),
        λ p. elim p.1 [ inl r ↦ nr r | inr q ↦ cc (above-liveness o driver b s q) ],
      )
    ]
  ]
]
