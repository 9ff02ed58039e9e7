-- ===== src/Hotstuff/Commits.antt =====
-- Commits of hotstuff/hotstuff.go: what onCommit hands to the driver, and the chain of a whole run.
use hs_blockchain.Prelude.{
  ℕ, zero, suc, ◌≡◌, refl, ap, true, false, some, ◌+◌, ◌<◌, arith, ◌⊎◌, inl, inr, Bool-cases,
  Option-cases, List, [], ◌∷◌, ◌++◌, map, last_or, last_or-append,
}
use mathlib.Core.List.{append-nil, append_assoc, map-append}
use hs_blockchain.Hotstuff.Types.{Blocks, IsLawful, Driver, Run, ok, fatal, is_higher, ◌>>=◌}
use hs_blockchain.Hotstuff.State.{State, Call, log_call}
use hs_blockchain.Hotstuff.Engine.{commit_loop, on_commit}
use hs_blockchain.Hotstuff.Ancestry.{
  Extends, height-Extends, is_higher-lt, lt-is_higher, not-Extends_above, not-Extends_root,
}

module _ {B Q V : Type 0} (o : Blocks B Q V) where
  -- Each block of the list is the child of the one before it, the first a child of `e`.
  abbrev pub Links : B → List B → Type 0
  Links e [] = Unit
  Links e (x ∷ xs) = (o.parent x ≡ some e) × Links x xs

  pub Links-append :
      (e : B) (xs ys : List B) → Links e xs → Links (last_or e xs) ys → Links e (xs ++ ys)
  Links-append e [] ys hx hy = hy
  Links-append e (x ∷ xs) ys hx hy = (hx.0, Links-append x xs ys hx.1 hy)

-- The state after the driver committed the blocks, in this order.
abbrev pub with_commits : {B Q V : Type 0} → List B → State B Q V → State B Q V
with_commits {B} {Q} {V} cs s = record s { calls = s.calls ++ map Call.commit cs }

with_commits-append :
    {B Q V : Type 0} (s : State B Q V) (cs : List B) (b : B)
    → (s.calls ++ map Call.commit cs) ++ Call.commit b ∷ []
      ≡ s.calls ++ map Call.commit (cs ++ b ∷ [])
with_commits-append s cs b = simp (map-append, append_assoc)

module _ {B Q V : Type 0} (o : Blocks B Q V) (law : IsLawful o) (driver : Driver Q V)
    (s : State B Q V) where
  -- The run commits the blocks from above the last executed one up to `b`.
  abbrev pub Commits : B → Run (State B Q V) → Type 0
  Commits b r =
      (cs : List B) × (r ≡ ok (with_commits cs s)) × Links o s.b_exec cs × (last_or s.b_exec cs ≡ b)

  not-higher :
      (b : B)
      → is_higher o (some b) (some s.b_exec) ≡ false
      → o.equal s.b_exec (some b) ≡ false
      → ¬ Extends o s.b_exec b
  not-higher b low ne = elim (Option-cases (o.parent b)) [
    | inl top ↦ not-Extends_root o law s.b_exec b ne top
    | inr (p, up) ↦ not-Extends_above o law s.b_exec b p ne up λ e.
        let lt : o.height s.b_exec < o.height b =
          omega (arith, law.height_parent b p up, height-Extends o law e) in
        cc (lt-is_higher o b s.b_exec lt)
  ]

  -- A block above the last executed one is not that block.
  higher-ne :
      (b : B) → is_higher o (some b) (some s.b_exec) ≡ true → o.equal s.b_exec (some b) ≡ false
  higher-ne b high = elim (Bool-cases (o.equal s.b_exec (some b))) [
    | inr ne ↦ ne
    | inl e ↦ absurd (
        omega (arith, is_higher-lt o b s.b_exec high, ap o.height ((law.equal_iff s.b_exec b).0 e)))
  ]

  commit_one :
      (b p : B) (r : Run (State B Q V))
      → o.parent b ≡ some p
      → Commits p r
      → Commits b (r >>= λ s'. ok (log_call (Call.commit b) s'))
  unfolding log_call
  commit_one b p r up (cs, e, l, last) = (
    cs ++ b ∷ [],
    rw e (ap (λ (c : List (Call B V)). ok (record s { calls = c })) (with_commits-append s cs b)),
    Links-append o s.b_exec cs (b ∷ []) l (rw last (up, tt)),
    last_or-append s.b_exec cs b,
  )

  commit_loop-cases :
      (fuel : ℕ) (b : B)
      → o.height b + 1 < fuel
      → Commits b (commit_loop o driver fuel (some b) s)
        ⊎ ((commit_loop o driver fuel (some b) s ≡ fatal) × (¬ Extends o s.b_exec b))
  unfolding commit_loop
  commit_loop-cases zero b h = absurd (omega arith)
  commit_loop-cases (suc zero) b h = absurd (omega arith)
  commit_loop-cases (suc (suc fuel)) b h =
      elim (Bool-cases (is_higher o (some b) (some s.b_exec))) [
        | inr low ↦ elim (Bool-cases (o.equal s.b_exec (some b))) [
          | inl e ↦ inl ([], rw (low, e) (rw append-nil refl), tt, (law.equal_iff s.b_exec b).0 e)
          | inr ne ↦ inr (rw (low, ne) refl, not-higher b low ne)
        ]
        | inl high ↦ elim (Option-cases (o.parent b)) [
          | inl top ↦ inr (
            rw (high, top) (rw (law.equal_nil s.b_exec) refl),
            not-Extends_root o law s.b_exec b (higher-ne b high) top,
          )
          | inr (p, up) ↦
              elim (commit_loop-cases (suc fuel) p (omega (arith, law.height_parent b p up))) [
                | inl done ↦ inl (rw (high, up) (commit_one b p _ up done))
                | inr (e, no_ext) ↦ inr (
                  rw (high, up) (rw e refl),
                  not-Extends_above o law s.b_exec b p (higher-ne b high) up no_ext,
                )
              ]
        ]
      ]

-- onCommit returns or ends the process, and never runs on: if the block is or descends from the last
-- executed one, exactly the blocks above that one up to the block are committed, each the child of
-- the one before it, in ascending order, and nothing else changes; else the process ends.
pub on_commit-cases :
    {B Q V : Type 0} (o : Blocks B Q V) (driver : Driver Q V) (b : B) (s : State B Q V)
    → IsLawful o
    → ((cs : List B) × (on_commit o driver b s ≡ ok (with_commits cs s))
        × Links o s.b_exec cs
        × (last_or s.b_exec cs ≡ b))
      ⊎ ((on_commit o driver b s ≡ fatal) × (¬ Extends o s.b_exec b))
unfolding on_commit
on_commit-cases o driver b s law = commit_loop-cases o law driver s (o.height b + 2) b (omega arith)
