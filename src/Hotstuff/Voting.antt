-- ===== src/Hotstuff/Voting.antt =====
-- The calls of VoteBlock in the runs of hotstuff/hotstuff.go. The pacemaker's vote for the node's own
-- proposal (ProposerVote, in consensus/pacemaker.go) does not go through the engine.
use hs_blockchain.Prelude.{
  ℕ, ◌≡◌, refl, ◌∙◌, ap, true, Option, List, [], ◌∷◌, ◌++◌, map, inl, inr, arith, ◌≤◌, ◌<◌, last_or,
  last_or-append,
}
use mathlib.Core.List.{append-nil}
use hs_blockchain.Hotstuff.Types.{Blocks, IsLawful, Driver, Safely, ok}
use hs_blockchain.Hotstuff.State.{
  State, Call, broadcast_proposal, vote_block, commit, create_qc, new_state, log_call, end_proposal,
  start_proposal,
}
use hs_blockchain.Hotstuff.Engine.{Event, run, on_propose, cast_vote, can_vote}
use hs_blockchain.Hotstuff.Ancestry.{can_vote-Decides, is_higher-lt}
use hs_blockchain.Hotstuff.Frames.{
  calls-update_qc_high, update_qc_high-SameBlocks, on_propose-SameBlocks, calls-on_propose,
}
use hs_blockchain.Hotstuff.Runs.{Keeps, run-keeps}

-- The blocks handed to the driver's VoteBlock, the oldest first.
abbrev pub vote_blocks : {B V : Type 0} → List (Call B V) → List B
vote_blocks [] = []
vote_blocks (vote_block b ∷ cs) = b ∷ vote_blocks cs
vote_blocks (commit b ∷ cs) = vote_blocks cs
vote_blocks (broadcast_proposal b ∷ cs) = vote_blocks cs
vote_blocks (create_qc vs ∷ cs) = vote_blocks cs

vote_blocks-append :
    {B V : Type 0} (cs ds : List (Call B V))
    → vote_blocks (cs ++ ds) ≡ vote_blocks cs ++ vote_blocks ds
vote_blocks-append [] ds = refl
vote_blocks-append (vote_block b ∷ cs) ds = ap (◌∷◌ b) (vote_blocks-append cs ds)
vote_blocks-append (broadcast_proposal b ∷ cs) ds = vote_blocks-append cs ds
vote_blocks-append (commit b ∷ cs) ds = vote_blocks-append cs ds
vote_blocks-append (create_qc vs ∷ cs) ds = vote_blocks-append cs ds

vote_blocks-map :
    {B : Type 0} (V : Type 0) (bs : List B) → vote_blocks {V = V} (map Call.commit bs) ≡ []
vote_blocks-map V [] = refl
vote_blocks-map V (b ∷ bs) = vote_blocks-map V bs

module _ {B Q V : Type 0} (o : Blocks B Q V) where
  -- Each block of the list is above the one before it, the first above `b`.
  abbrev pub Ascends : B → List B → Type 0
  Ascends b [] = Unit
  Ascends b (x ∷ xs) = (o.height b < o.height x) × Ascends x xs

  Ascends-append :
      (b : B) (xs : List B) (y : B)
      → Ascends b xs
      → o.height (last_or b xs) < o.height y
      → Ascends b (xs ++ y ∷ [])
  Ascends-append b [] y h lt = (lt, tt)
  Ascends-append b (x ∷ xs) y h lt = (h.0, Ascends-append x xs y h.1 lt)

  module _ (b0 : B) where
    -- The blocks of VoteBlock ascend from `b0` to the last voted block, and the lock is not below `b0`.
    pub record VotesAscend (s : State B Q V) : Type 0 where
      pub ascend : Ascends b0 (vote_blocks s.calls)
      pub last : last_or b0 (vote_blocks s.calls) ≡ s.b_vote
      pub locked : o.height b0 ≤ o.height s.b_lock

    VotesAscend-same :
        {s t : State B Q V}
        → vote_blocks t.calls ≡ vote_blocks s.calls
        → t.b_vote ≡ s.b_vote
        → t.b_lock ≡ s.b_lock
        → VotesAscend s
        → VotesAscend t
    VotesAscend-same e f g c = record {
      ascend = rw e c.ascend;
      last = rw (e, f) c.last;
      locked = rw g c.locked;
    }

    module _ (driver : Driver Q V) (law : IsLawful o) where
      vote_blocks-on_propose :
          (f : B → Q → ℕ → Option B) (s : State B Q V)
          → vote_blocks (on_propose o driver f s).1.calls ≡ vote_blocks s.calls
      vote_blocks-on_propose f s = elim (calls-on_propose o driver f s) [
        | inl e ↦ rw e refl
        | inr (b, e) ↦ rw e (vote_blocks-append s.calls _ ∙ append-nil _)
      ]

      cast_vote-VotesAscend :
          (b : B) (s : State B Q V)
          → can_vote o driver b s ≡ ok true
          → VotesAscend s
          → VotesAscend (cast_vote o driver b true s)
      unfolding cast_vote
      cast_vote-VotesAscend b s h c = elim (can_vote-Decides o driver b s law) [
        | inr (e, _) ↦ cc
        | inl (_, (lt, _)) ↦ record {
          ascend = rw vote_blocks-append (Ascends-append b0 _ b c.ascend (rw c.last lt));
          last = rw vote_blocks-append (last_or-append b0 (vote_blocks s.calls) b);
          locked = c.locked;
        }
      ]

      VotesAscend-keeps : Keeps o driver VotesAscend
      unfolding log_call start_proposal end_proposal
      VotesAscend-keeps = record {
        qc_kept = λ qc s c.
            let same = update_qc_high-SameBlocks o driver qc s in
            VotesAscend-same (ap vote_blocks (calls-update_qc_high o driver qc s)) same.b_vote
              same.b_lock c;
        proposal_kept = λ f s c.
            let same = on_propose-SameBlocks o driver f s in
            VotesAscend-same (vote_blocks-on_propose f s) same.b_vote same.b_lock c;
        open_kept = λ b s c. VotesAscend-same refl refl refl c;
        collect_kept = λ v s p h c. VotesAscend-same refl refl refl c;
        certify_kept =
            λ s c. VotesAscend-same (vote_blocks-append s.calls _ ∙ append-nil _) refl refl c;
        close_kept = λ s c. VotesAscend-same refl refl refl c;
        cast_kept = cast_vote-VotesAscend;
        lock_kept = λ b s h c. record {
          ascend = c.ascend;
          last = c.last;
          locked = omega (arith, is_higher-lt o b s.b_lock h, c.locked);
        };
        commit_kept = λ b s cs l last c.
            VotesAscend-same (rw (vote_blocks-append, vote_blocks-map V) (append-nil _)) refl refl
              c;
      }

-- From the start at `b0`, every sequence of calls of the engine ends, and if no safety breach ended
-- the process, the blocks that the engine handed to the driver's VoteBlock ascend strictly in
-- height, the first above `b0`; the last of them is the engine's last voted block, and the locked
-- block is not below `b0`. The vote that the pacemaker signs for the node's own proposal is none of
-- these.
pub run-VotesAscend :
    {B Q V : Type 0} (o : Blocks B Q V) (driver : Driver Q V) (b0 : B) (q0 : Q)
    (es : List (Event B Q V))
    → IsLawful o
    → Safely (VotesAscend o b0) (run o driver es (new_state b0 q0))
unfolding new_state
run-VotesAscend o driver b0 q0 es law =
    run-keeps o driver law (VotesAscend-keeps o b0 driver law) es _
      (record { ascend = tt; last = refl; locked = omega arith })
