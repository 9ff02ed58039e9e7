-- ===== src/Hotstuff/Frames.antt =====
-- What the operations of hotstuff/hotstuff.go leave alone, and the calls that they add.
use hs_blockchain.Prelude.{
  ℕ, ◌≡◌, refl, true, false, Option, some, [], ◌∷◌, ◌++◌, ◌⊎◌, inl, inr, Bool-cases, Option-cases,
  arith, leb, length, ◌≤◌, ◌<◌, none, ◌+◌, insert, has,
}
use hs_blockchain.Hotstuff.Types.{Blocks, Driver}
use hs_blockchain.Hotstuff.State.{
  State, Call, get_votes, add_vote, add_vote_to, end_proposal, log_call,
}
use hs_blockchain.Hotstuff.Engine.{update_qc_high, on_propose, on_receive_vote}

module _ {B Q V : Type 0} where
  -- The fields that only proposals, locks and commits write.
  pub record SameBlocks (s t : State B Q V) : Type 0 where
    pub b_vote : t.b_vote ≡ s.b_vote
    pub b_lock : t.b_lock ≡ s.b_lock
    pub b_exec : t.b_exec ≡ s.b_exec

module _ {B Q V : Type 0} (o : Blocks B Q V) (driver : Driver Q V) where
  module _ (qc : Q) (s : State B Q V) where
    pub update_qc_high-SameBlocks : SameBlocks s (update_qc_high o driver qc s)
    unfolding update_qc_high
    update_qc_high-SameBlocks = ground arith

    pub calls-update_qc_high : (update_qc_high o driver qc s).calls ≡ s.calls
    unfolding update_qc_high
    calls-update_qc_high = ground arith

    pub proposal-update_qc_high : (update_qc_high o driver qc s).proposal ≡ s.proposal
    unfolding update_qc_high
    proposal-update_qc_high = ground arith

    pub votes-update_qc_high : (update_qc_high o driver qc s).votes ≡ s.votes
    unfolding update_qc_high
    votes-update_qc_high = ground arith

  module _ (f : B → Q → ℕ → Option B) (s : State B Q V) where
    pub on_propose-SameBlocks : SameBlocks s (on_propose o driver f s).1
    unfolding on_propose
    on_propose-SameBlocks = ground arith

    -- A proposal makes at most one call, which broadcasts the new block.
    pub calls-on_propose :
        ((on_propose o driver f s).1.calls ≡ s.calls)
        ⊎ ((b : B) × ((on_propose o driver f s).1.calls
              ≡ s.calls ++ Call.broadcast_proposal b ∷ []))
    unfolding on_propose
    calls-on_propose = elim (Option-cases (f s.b_leaf s.qc_high (o.height s.b_leaf + 1))) [
      | inl e ↦ inl (rw (e, on_propose) refl)
      | inr (b, e) ↦ inr (b, rw (e, on_propose) refl)
    ]

  module _ (v : V) (s : State B Q V) where
    pub on_receive_vote-SameBlocks : SameBlocks s (on_receive_vote o driver v s)
    unfolding on_receive_vote
    on_receive_vote-SameBlocks = ground arith

    -- The state that holds the vote too.
    abbrev pub collected : State B Q V
    collected = record s { votes = insert (o.voter v) v s.votes }

    -- The state after the certificate of the collected votes.
    abbrev pub certified : State B Q V
    certified =
        update_qc_high o driver (driver.create_qc (get_votes collected))
          (log_call (Call.create_qc (get_votes collected)) (end_proposal collected))

    -- A vote counts for the open proposal, once for each voter.
    abbrev pub Counts : B → Type 0
    Counts p =
        (s.proposal ≡ some p)
        × (o.equal p (o.vote_block v) ≡ true)
        × (has (o.voter v) s.votes ≡ false)

    -- A vote that does not count: no proposal is open, it is for another block, or its voter has voted.
    abbrev pub Ignored : Type 0
    Ignored =
        (s.proposal ≡ none)
        ⊎ ((p : B) × (s.proposal ≡ some p)
            × ((o.equal p (o.vote_block v) ≡ false) ⊎ (has (o.voter v) s.votes ≡ true)))

    -- A vote is ignored or counts.
    pub vote-cases : Ignored ⊎ ((p : B) × Counts p)
    vote-cases = elim (Option-cases s.proposal) [
      | inl e ↦ inl (inl e)
      | inr (p, e) ↦ elim (Bool-cases (o.equal p (o.vote_block v))) [
        | inr ne ↦ inl (inr (p, e, inl ne))
        | inl eq ↦ elim (Bool-cases (has (o.voter v) s.votes)) [
          | inl old ↦ inl (inr (p, e, inr old))
          | inr new ↦ inr (p, (e, eq, new))
        ]
      ]
    ]

    pub add_vote-ignored : Ignored → (add_vote o v s).1 ≡ s
    unfolding add_vote add_vote_to
    add_vote-ignored (inl e) = rw (e, add_vote_to) refl
    add_vote-ignored (inr (p, e, inl ne)) = rw (e, add_vote_to, ne) refl
    add_vote-ignored (inr (p, e, inr old)) = ground (arith, e, old)

    pub add_vote-counted : (p : B) → Counts p → (add_vote o v s).1 ≡ collected
    unfolding add_vote add_vote_to
    add_vote-counted p (e, eq, new) = rw (e, add_vote_to, eq, new) refl

    on_receive_vote-ignored : Ignored → on_receive_vote o driver v s ≡ s
    unfolding on_receive_vote
    on_receive_vote-ignored (inl e) = rw (e, add_vote_to) refl
    on_receive_vote-ignored (inr (p, e, inl ne)) = rw (e, add_vote_to, ne) refl
    on_receive_vote-ignored (inr (p, e, inr old)) = elim (Bool-cases (o.equal p (o.vote_block v))) [
      | inl eq ↦ rw (e, add_vote_to, eq, old) refl
      | inr ne ↦ rw (e, add_vote_to, ne) refl
    ]

    -- An OnReceiveVote that no other call interrupts ignores the vote when no proposal is open, or it is for
    -- another block, or its voter has voted; it collects a vote that counts and leaves it at that when the
    -- votes are fewer than the driver's majority count then; and when they reach it, it ends the
    -- proposal, asks for the certificate of the collected votes and gives it to UpdateQCHigh.
    pub on_receive_vote-cases :
        (Ignored × (on_receive_vote o driver v s ≡ s))
        ⊎ ((p : B) × Counts p
            × (((length collected.votes < driver.majority_count)
                  × (on_receive_vote o driver v s ≡ collected))
                ⊎ ((driver.majority_count ≤ length collected.votes)
                    × (on_receive_vote o driver v s ≡ certified))))
    unfolding on_receive_vote
    on_receive_vote-cases = elim vote-cases [
      | inl i ↦ inl (i, on_receive_vote-ignored i)
      | inr (p, (e, eq, new)) ↦
          elim (Bool-cases (leb driver.majority_count (length collected.votes))) [
            | inr few ↦
                inr (p, (e, eq, new), inl (ground arith, rw (e, add_vote_to, eq, new, few) refl))
            | inl enough ↦
                inr (p, (e, eq, new), inr (ground arith, rw (e, add_vote_to, eq, new, enough) refl))
          ]
    ]
