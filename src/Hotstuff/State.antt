-- ===== src/Hotstuff/State.antt =====
-- hotstuff/state.go: the replica's state and the collection of votes.
-- The calls that the engine makes on its driver are kept in `calls`, the oldest first, and the
-- events sent to the subscribers of new high certificates in `emitted`.
use hs_blockchain.Prelude.{
  ℕ, Bool, true, false, Option, none, some, List, [], ◌∷◌, ◌++◌, if◌then◌else◌, Map, insert, has,
  length, map, not,
}
use hs_blockchain.Hotstuff.Types.{Blocks}

pub data Call (B V : Type 0) : Type 0 where
  broadcast_proposal : B → Call B V
  vote_block : B → Call B V
  commit : B → Call B V
  create_qc : List V → Call B V

pub record State (B Q V : Type 0) : Type 0 where
  pub b_vote : B
  pub b_lock : B
  pub b_exec : B
  pub b_leaf : B
  pub qc_high : Q
  pub proposal : Option B
  pub votes : Map V
  pub emitted : List Q
  pub calls : List (Call B V)

pub data VoteError : Type 0 where
  no_proposal not_same_block duplicate_vote : VoteError

module _ {B Q V : Type 0} where
  -- newState
  unfoldable pub new_state : B → Q → State B Q V
  new_state b0 q0 = record {
    b_vote = b0;
    b_lock = b0;
    b_exec = b0;
    b_leaf = b0;
    qc_high = q0;
    proposal = none;
    votes = [];
    emitted = [];
    calls = [];
  }

  unfoldable pub log_call : Call B V → State B Q V → State B Q V
  log_call c s = record s { calls = s.calls ++ c ∷ [] }

  unfoldable pub is_proposing : State B Q V → Bool
  is_proposing s = elim (s.proposal) [ none ↦ false | some _ ↦ true ]

  unfoldable pub start_proposal : B → State B Q V → State B Q V
  start_proposal b s = record s { proposal = some b; votes = [] }

  unfoldable pub end_proposal : State B Q V → State B Q V
  end_proposal s = record s { proposal = none; votes = [] }

  -- GetVoteCount and GetVotes: a nil map has length 0.
  unfoldable pub get_vote_count : State B Q V → ℕ
  get_vote_count s = length s.votes

  unfoldable pub get_votes : State B Q V → List V
  get_votes s = map (λ e. e.1) s.votes

  -- addVote: the error, if any, and the state.
  unfoldable pub add_vote_to :
      Option B → Blocks B Q V → V → State B Q V → Option VoteError × State B Q V
  add_vote_to none o v s = (some VoteError.no_proposal, s)
  add_vote_to (some p) o v s =
      if not (o.equal p (o.vote_block v))
      then (some VoteError.not_same_block, s)
      else if has (o.voter v) s.votes
      then (some VoteError.duplicate_vote, s)
      else (none, record s { votes = insert (o.voter v) v s.votes })

  unfoldable pub add_vote : Blocks B Q V → V → State B Q V → Option VoteError × State B Q V
  unfolding add_vote_to
  add_vote o v s = add_vote_to s.proposal o v s
