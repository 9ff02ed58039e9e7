-- ===== src/Hotstuff/Runs.antt =====
-- Induction over the runs of the engine: what every primitive change of the state keeps, every
-- operation of hotstuff/hotstuff.go and every sequence of them keeps.
use hs_blockchain.Prelude.{
  ℕ, ◌≡◌, Bool, true, false, Option, none, some, List, [], ◌∷◌, inl, inr, Bool-cases, last_or,
}
use hs_blockchain.Hotstuff.Types.{
  Blocks, IsLawful, Driver, ok, is_higher, ◌>>=◌, Safely, Safely-bind,
}
use hs_blockchain.Hotstuff.State.{
  State, Call, start_proposal, end_proposal, log_call, get_votes, add_vote,
}
use hs_blockchain.Hotstuff.Engine.{
  update_qc_high, on_propose, on_receive_vote, can_vote, cast_vote, on_commit, decide_phase,
  lock_phase, update, on_receive_proposal, Event, propose, vote, proposal, block_update, new_view,
  open_voting, collect, certify, close_voting, step, run, get_justify_blocks, is_three_chain,
}
use hs_blockchain.Hotstuff.Ancestry.{can_vote-Decides}
use hs_blockchain.Hotstuff.Frames.{
  Counts, collected, vote-cases, add_vote-ignored, add_vote-counted, on_receive_vote-cases,
}
use hs_blockchain.Hotstuff.Commits.{Links, with_commits, on_commit-cases}

module _ {B Q V : Type 0} (o : Blocks B Q V) (driver : Driver Q V) where
  -- The changes of the state that the operations are made of, each with what its guard tells.
  pub record Keeps (P : State B Q V → Type 0) : Type 0 where
    pub qc_kept : (qc : Q) (s : State B Q V) → P s → P (update_qc_high o driver qc s)
    pub proposal_kept :
        (f : B → Q → ℕ → Option B) (s : State B Q V) → P s → P (on_propose o driver f s).1
    pub open_kept : (b : B) (s : State B Q V) → P s → P (start_proposal b s)
    pub collect_kept :
        (v : V) (s : State B Q V) (p : B) → Counts o driver v s p → P s → P (collected o driver v s)
    pub certify_kept : (s : State B Q V) → P s → P (log_call (Call.create_qc (get_votes s)) s)
    pub close_kept : (s : State B Q V) → P s → P (end_proposal s)
    pub cast_kept :
        (b : B) (s : State B Q V)
        → can_vote o driver b s ≡ ok true
        → P s
        → P (cast_vote o driver b true s)
    pub lock_kept :
        (b : B) (s : State B Q V)
        → is_higher o (some b) (some s.b_lock) ≡ true
        → P s
        → P (record s { b_lock = b })
    pub commit_kept :
        (b : B) (s : State B Q V) (cs : List B)
        → Links o s.b_exec cs
        → last_or s.b_exec cs ≡ b
        → P s
        → P (record (with_commits cs s) { b_exec = b })

  module _ (law : IsLawful o) {P : State B Q V → Type 0} (k : Keeps P) where
    on_commit-keeps :
        (b : B) (s : State B Q V)
        → P s
        → Safely P (on_commit o driver b s >>= λ s'. ok (record s' { b_exec = b }))
    on_commit-keeps b s p = elim (on_commit-cases o driver b s law) [
      | inl (cs, e, l, last) ↦ rw e (k.commit_kept b s cs l last p)
      | inr (e, _) ↦ rw e tt
    ]

    decide_phase-keeps :
        (b b1 b2 : Option B) (s : State B Q V) → P s → Safely P (decide_phase o driver b b1 b2 s)
    unfolding decide_phase
    decide_phase-keeps none b1 b2 s p = p
    decide_phase-keeps (some b) b1 b2 s p =
        elim (Bool-cases (is_three_chain o driver (some b) b1 b2)) [
          | inl e ↦ rw e (on_commit-keeps b s p)
          | inr e ↦ rw e p
        ]

    lock_phase-keeps :
        (bs : Option B × Option B × Option B) (s : State B Q V)
        → P s
        → Safely P (lock_phase o driver bs s)
    unfolding lock_phase
    lock_phase-keeps (b, none, b2) s p = p
    lock_phase-keeps (b, some b1, b2) s p =
        elim (Bool-cases (is_higher o (some b1) (some s.b_lock))) [
          | inl e ↦ rw e (decide_phase-keeps b (some b1) b2 _ (k.lock_kept b1 s e p))
          | inr e ↦ rw e p
        ]

    update-keeps : (b : B) (s : State B Q V) → P s → Safely P (update o driver b s)
    unfolding update
    update-keeps b s p =
        lock_phase-keeps (get_justify_blocks o driver b) _ (k.qc_kept (o.justify b) s p)

    cast_vote-keeps :
        (b : B) (voting : Bool) (s : State B Q V)
        → can_vote o driver b s ≡ ok voting
        → P s
        → P (cast_vote o driver b voting s)
    unfolding cast_vote
    cast_vote-keeps b true s h p = k.cast_kept b s h p
    cast_vote-keeps b false s h p = p

    on_receive_proposal-keeps :
        (b : B) (s : State B Q V) → P s → Safely P (on_receive_proposal o driver b s)
    unfolding on_receive_proposal
    on_receive_proposal-keeps b s p = elim (can_vote-Decides o driver b s law) [
      | inl (e, _) ↦ rw e (update-keeps b _ (cast_vote-keeps b true s e p))
      | inr (e, _) ↦ rw e (update-keeps b _ (cast_vote-keeps b false s e p))
    ]

    collect-keeps : (v : V) (s : State B Q V) → P s → P (add_vote o v s).1
    collect-keeps v s p = elim (vote-cases o driver v s) [
      | inl i ↦ rw (add_vote-ignored o driver v s i) p
      | inr (b, c) ↦ rw (add_vote-counted o driver v s b c) (k.collect_kept v s b c p)
    ]

    vote-keeps : (v : V) (s : State B Q V) → P s → P (on_receive_vote o driver v s)
    unfolding log_call end_proposal
    vote-keeps v s p = elim (on_receive_vote-cases o driver v s) [
      | inl (_, e) ↦ rw e p
      | inr (b, c, inl (_, e)) ↦ rw e (k.collect_kept v s b c p)
      | inr (b, c, inr (_, e)) ↦
          rw e (k.qc_kept _ _ (k.close_kept _ (k.certify_kept _ (k.collect_kept v s b c p))))
    ]

    step-keeps : (e : Event B Q V) (s : State B Q V) → P s → Safely P (step o driver e s)
    unfolding step
    step-keeps (propose f) s p = k.proposal_kept f s p
    step-keeps (vote v) s p = vote-keeps v s p
    step-keeps (proposal b) s p = on_receive_proposal-keeps b s p
    step-keeps (block_update b) s p = update-keeps b s p
    step-keeps (new_view qc) s p = k.qc_kept qc s p
    step-keeps (open_voting b) s p = k.open_kept b s p
    step-keeps (collect v) s p = collect-keeps v s p
    step-keeps certify s p = k.certify_kept s p
    step-keeps close_voting s p = k.close_kept s p

    pub run-keeps : (es : List (Event B Q V)) (s : State B Q V) → P s → Safely P (run o driver es s)
    unfolding run
    run-keeps [] s p = p
    run-keeps (e ∷ es) s p =
        Safely-bind P P (step o driver e s) (run o driver es) (step-keeps e s p) (run-keeps es)
