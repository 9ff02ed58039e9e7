-- ===== src/Hotstuff/Safety.antt =====
-- The history of a replica: over any run of hotstuff/hotstuff.go the committed blocks are one chain.
use hs_blockchain.Prelude.{
  ℕ, ◌≡◌, refl, ◌∙◌, ap, Option, List, [], ◌∷◌, ◌++◌, map, inl, inr, last_or,
}
use mathlib.Core.List.{append-nil}
use hs_blockchain.Hotstuff.Types.{Blocks, IsLawful, Driver, Safely}
use hs_blockchain.Hotstuff.State.{
  State, Call, broadcast_proposal, vote_block, commit, create_qc, new_state, log_call, end_proposal,
  start_proposal,
}
use hs_blockchain.Hotstuff.Engine.{Event, run, on_propose, cast_vote}
use hs_blockchain.Hotstuff.Commits.{Links, Links-append}
use hs_blockchain.Hotstuff.Frames.{
  calls-update_qc_high, update_qc_high-SameBlocks, on_propose-SameBlocks, calls-on_propose,
}
use hs_blockchain.Hotstuff.Runs.{Keeps, run-keeps}

-- The blocks that the driver was told to commit, the oldest first.
abbrev pub commits : {B V : Type 0} → List (Call B V) → List B
commits [] = []
commits (commit b ∷ cs) = b ∷ commits cs
commits (broadcast_proposal b ∷ cs) = commits cs
commits (vote_block b ∷ cs) = commits cs
commits (create_qc vs ∷ cs) = commits cs

commits-append :
    {B V : Type 0} (cs ds : List (Call B V)) → commits (cs ++ ds) ≡ commits cs ++ commits ds
commits-append [] ds = refl
commits-append (commit b ∷ cs) ds = ap (◌∷◌ b) (commits-append cs ds)
commits-append (broadcast_proposal b ∷ cs) ds = commits-append cs ds
commits-append (vote_block b ∷ cs) ds = commits-append cs ds
commits-append (create_qc vs ∷ cs) ds = commits-append cs ds

commits-map : {B : Type 0} (V : Type 0) (bs : List B) → commits {V = V} (map Call.commit bs) ≡ bs
commits-map V [] = refl
commits-map V (b ∷ bs) = ap (◌∷◌ b) (commits-map V bs)

last_or-append_list :
    {B : Type 0} (d : B) (xs ys : List B) → last_or d (xs ++ ys) ≡ last_or (last_or d xs) ys
last_or-append_list d [] ys = refl
last_or-append_list d (x ∷ xs) ys = last_or-append_list x xs ys

module _ {B Q V : Type 0} (o : Blocks B Q V) (b0 : B) where
  -- The committed blocks are a chain of children from `b0` to the last executed block.
  pub record IsChained (s : State B Q V) : Type 0 where
    pub links : Links o b0 (commits s.calls)
    pub last : last_or b0 (commits s.calls) ≡ s.b_exec

  -- Only the commits and the last executed block matter.
  IsChained-same :
      {s t : State B Q V}
      → commits t.calls ≡ commits s.calls
      → t.b_exec ≡ s.b_exec
      → IsChained s
      → IsChained t
  IsChained-same e f c = record { links = rw e c.links; last = rw (e, f) c.last }

  module _ (driver : Driver Q V) where
    commits-on_propose :
        (f : B → Q → ℕ → Option B) (s : State B Q V)
        → commits (on_propose o driver f s).1.calls ≡ commits s.calls
    commits-on_propose f s = elim (calls-on_propose o driver f s) [
      | inl e ↦ rw e refl
      | inr (b, e) ↦ rw e (commits-append s.calls _ ∙ append-nil _)
    ]

    IsChained-keeps : Keeps o driver IsChained
    unfolding cast_vote log_call start_proposal end_proposal
    IsChained-keeps = record {
      qc_kept = λ qc s c.
          IsChained-same (ap commits (calls-update_qc_high o driver qc s))
            (update_qc_high-SameBlocks o driver qc s).b_exec c;
      proposal_kept = λ f s c.
          IsChained-same (commits-on_propose f s) (on_propose-SameBlocks o driver f s).b_exec c;
      open_kept = λ b s c. IsChained-same refl refl c;
      collect_kept = λ v s p h c. IsChained-same refl refl c;
      certify_kept = λ s c. IsChained-same (commits-append s.calls _ ∙ append-nil _) refl c;
      close_kept = λ s c. IsChained-same refl refl c;
      cast_kept = λ b s h c. IsChained-same (commits-append s.calls _ ∙ append-nil _) refl c;
      lock_kept = λ b s h c. IsChained-same refl refl c;
      commit_kept = λ b s cs l last c. record {
        links = rw (commits-append, commits-map V) (Links-append o b0 _ cs c.links (rw c.last l));
        last = rw (commits-append, commits-map V, last_or-append_list, c.last) last;
      };
    }

-- From the start at `b0`, every sequence of calls of the engine ends, and if no safety breach ended
-- the process, the blocks handed to the driver's Commit are one chain: the first is a child of
-- `b0`, each next a child of the one before it, and the last is the last executed block.
pub run-IsChained :
    {B Q V : Type 0} (o : Blocks B Q V) (driver : Driver Q V) (b0 : B) (q0 : Q)
    (es : List (Event B Q V))
    → IsLawful o
    → Safely (IsChained o b0) (run o driver es (new_state b0 q0))
unfolding new_state
run-IsChained o driver b0 q0 es law =
    run-keeps o driver law (IsChained-keeps o b0 driver) es (new_state b0 q0)
      (record { links = tt; last = refl })
