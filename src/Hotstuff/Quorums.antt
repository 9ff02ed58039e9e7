-- ===== src/Hotstuff/Quorums.antt =====
-- The calls of CreateQC in the runs of hotstuff/hotstuff.go, and the table of votes of state.go.
use hs_blockchain.Prelude.{
  ℕ, ◌≡◌, refl, subst, true, Option, none, some, ◌∙◌, arith, List, [], ◌∷◌, map, inl, inr, ◌+◌,
  All-of_map, Option-cases, All, All-append, All-map, Bytes, Map, Distinct, keys, has-contains,
  insert_new, Distinct-append_new,
}
use mathlib.Core.List.{map-append}
use hs_blockchain.Hotstuff.Types.{Blocks, IsLawful, Driver, Safely}
use hs_blockchain.Hotstuff.State.{
  State, Call, create_qc, new_state, log_call, end_proposal, start_proposal, get_votes,
}
use hs_blockchain.Hotstuff.Engine.{Event, run, on_propose, cast_vote}
use hs_blockchain.Hotstuff.Frames.{
  calls-update_qc_high, proposal-update_qc_high, votes-update_qc_high, Counts, collected,
}
use hs_blockchain.Hotstuff.Runs.{Keeps, run-keeps}

module _ {B Q V : Type 0} (o : Blocks B Q V) (driver : Driver Q V) where
  -- Votes of distinct voters, all of them for one block.
  pub record IsTally (vs : List V) : Type 0 where
    pub about : B
    pub same_block : All (λ v. o.equal about (o.vote_block v) ≡ true) vs
    pub distinct : Distinct (map o.voter vs)

  abbrev pub IsJustified : Call B V → Type 0
  IsJustified (create_qc vs) = IsTally vs
  IsJustified _ = Unit

  abbrev IsEntry : B → Bytes × V → Type 0
  IsEntry p e = (e.0 ≡ o.voter e.1) × (o.equal p (o.vote_block e.1) ≡ true)

  -- Every entry of the table of votes stands under its voter and is for the open proposal; no
  -- entry is there without one.
  pub record IsCounting (s : State B Q V) : Type 0 where
    pub no_votes : s.proposal ≡ none → s.votes ≡ []
    pub open_votes : (p : B) → s.proposal ≡ some p → All (IsEntry p) s.votes
    pub voters : Distinct (keys s.votes)
    pub certificates : All IsJustified s.calls

  IsCounting-same :
      {s t : State B Q V}
      → t.proposal ≡ s.proposal
      → t.votes ≡ s.votes
      → All IsJustified t.calls
      → IsCounting s
      → IsCounting t
  IsCounting-same e f h c = record {
    no_votes = λ q. f ∙ c.no_votes (rw (← e) q);
    open_votes = λ p q. rw f (c.open_votes p (rw (← e) q));
    voters = rw f c.voters;
    certificates = h;
  }

  -- Under its voters the table lists the voters of its votes.
  keys-votes : (p : B) (m : Map V) → All (IsEntry p) m → map o.voter (map (λ e. e.1) m) ≡ keys m
  keys-votes p [] h = refl
  keys-votes p ((k, v) ∷ m) h = rw (keys-votes p m h.1, h.0.0) refl

  collected-IsCounting :
      (v : V) (s : State B Q V) (p : B)
      → Counts o driver v s p
      → IsCounting s
      → IsCounting (collected o driver v s)
  collected-IsCounting v s p (e, eq, new) c = record {
    no_votes = λ q. absurd (ground (arith, e, q));
    open_votes = λ p' e'.
        let same : p ≡ p' = cc in
        rw (insert_new (o.voter v) v s.votes new) (
          All-append _ s.votes _ (c.open_votes p' e')
            ((refl, subst (λ x. o.equal x (o.vote_block v) ≡ true) same eq), tt));
    voters =
        rw (insert_new (o.voter v) v s.votes new, map-append)
          (Distinct-append_new (keys s.votes) (o.voter v) c.voters
            (rw (has-contains (o.voter v) s.votes) at new));
    certificates = c.certificates;
  }

  -- What GetVotes gives.
  get_votes-IsTally : (s : State B Q V) → IsCounting s → IsTally (get_votes s)
  unfolding get_votes
  get_votes-IsTally s c = elim (Option-cases s.proposal) [
    | inl e ↦ rw (c.no_votes e) record { about = s.b_leaf; same_block = tt; distinct = tt }
    | inr (p, e) ↦
        let opened = c.open_votes p e in
        record {
          about = p;
          same_block = All-of_map _ _ s.votes (All-map _ _ s.votes (λ x h. h.1) opened);
          distinct = rw (keys-votes p s.votes opened) c.voters;
        }
  ]

  commits-IsJustified : (cs : List B) → All IsJustified (map Call.commit cs)
  commits-IsJustified [] = tt
  commits-IsJustified (b ∷ cs) = (tt, commits-IsJustified cs)

  on_propose-IsCounting :
      (f : B → Q → ℕ → Option B) (s : State B Q V)
      → IsCounting s
      → IsCounting (on_propose o driver f s).1
  unfolding on_propose
  on_propose-IsCounting f s c = elim (Option-cases (f s.b_leaf s.qc_high (o.height s.b_leaf + 1))) [
    | inl e ↦ rw (e, on_propose) c
    | inr (b, e) ↦
        rw (e, on_propose)
          (record {
            no_votes = λ q. refl;
            open_votes = λ p' q. tt;
            voters = tt;
            certificates = All-append _ s.calls _ c.certificates (tt, tt);
          })
  ]

  IsCounting-keeps : Keeps o driver IsCounting
  unfolding cast_vote log_call on_propose start_proposal end_proposal
  IsCounting-keeps = record {
    qc_kept = λ qc s c.
        IsCounting-same (proposal-update_qc_high o driver qc s) (votes-update_qc_high o driver qc s)
          (rw calls-update_qc_high c.certificates) c;
    proposal_kept = on_propose-IsCounting;
    open_kept = λ b s c. record {
      no_votes = λ q. refl;
      open_votes = λ p q. tt;
      voters = tt;
      certificates = c.certificates;
    };
    collect_kept = collected-IsCounting;
    certify_kept = λ s c.
        IsCounting-same refl refl
          (All-append _ s.calls _ c.certificates (get_votes-IsTally s c, tt)) c;
    close_kept = λ s c. record {
      no_votes = λ q. refl;
      open_votes = λ p q. tt;
      voters = tt;
      certificates = c.certificates;
    };
    cast_kept =
        λ b s h c. IsCounting-same refl refl (All-append _ s.calls _ c.certificates (tt, tt)) c;
    lock_kept = λ b s h c. IsCounting-same refl refl c.certificates c;
    commit_kept = λ b s cs l last c.
        IsCounting-same refl refl (All-append _ s.calls _ c.certificates (commits-IsJustified cs))
          c;
  }

-- From an empty start, every sequence of calls of the engine ends, also when calls come between the
-- parts of an OnReceiveVote; and if no safety breach ended the process, the votes of every certificate
-- that the driver was asked for are of pairwise distinct voters, all of them for one block; the
-- table holds one vote a voter, all for the open proposal, and none without one. That the votes
-- are enough is not stated: calls that overlap can take them away before GetVotes.
pub run-IsCounting :
    {B Q V : Type 0} (o : Blocks B Q V) (driver : Driver Q V) (b0 : B) (q0 : Q)
    (es : List (Event B Q V))
    → IsLawful o
    → Safely (IsCounting o driver) (run o driver es (new_state b0 q0))
unfolding new_state
run-IsCounting o driver b0 q0 es law =
    run-keeps o driver law (IsCounting-keeps o driver) es (new_state b0 q0)
      (record { no_votes = λ q. refl; open_votes = λ p q. tt; voters = tt; certificates = tt })
