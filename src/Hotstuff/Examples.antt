-- ===== src/Hotstuff/Examples.antt =====
-- A replica over the chain 0, 1, 2, … in which every block carries its parent's certificate.
use hs_blockchain.Prelude.{
  ℕ, zero, suc, ◌≡◌, refl, Option, none, some, List, [], ◌∷◌, Bytes, ◌==◌, ==_iff, Bool, false, ◌-◌,
  last_or, ◌⊎◌, length, ◌≤◌, ◌<◌, insert, bytes_eq, has,
}
use hs_blockchain.Hotstuff.Types.{Blocks, IsLawful, Driver, Safely, ok, fatal, ◌>>=◌}
use hs_blockchain.Hotstuff.State.{State, Call, new_state}
use hs_blockchain.Hotstuff.Engine.{
  Event, propose, vote, proposal, collect, certify, close_voting, run, on_receive_vote,
  check_safety_rule, can_vote, on_commit,
}
use hs_blockchain.Hotstuff.Ancestry.{Decides, Extends, check_safety_rule-Decides, can_vote-Decides}
use hs_blockchain.Hotstuff.Commits.{Links, with_commits, on_commit-cases}
use hs_blockchain.Hotstuff.Frames.{on_receive_vote-cases, Counts, Ignored, collected, certified}
use hs_blockchain.Hotstuff.Safety.{IsChained, run-IsChained}
use hs_blockchain.Hotstuff.Voting.{VotesAscend, run-VotesAscend}
use hs_blockchain.Hotstuff.Quorums.{IsCounting, run-IsCounting}

abbrev chain_parent : ℕ → Option ℕ
chain_parent zero = none
chain_parent (suc n) = some n

abbrev chain_equal : ℕ → Option ℕ → Bool
chain_equal a none = false
chain_equal a (some b) = a == b

abbrev chain : Blocks ℕ ℕ (ℕ × Bytes)
chain = record {
  height = λ b. b;
  parent = chain_parent;
  equal = chain_equal;
  justify = λ b. b - 1;
  block = λ q. some q;
  vote_block = λ v. some v.0;
  voter = λ v. v.1;
}

chain-IsLawful : IsLawful chain
chain-IsLawful = record {
  equal_nil = λ a. refl;
  equal_iff = λ a b. ==_iff a b;
  height_parent = parent_below;
}
  where
    parent_below : (a b : ℕ) → chain_parent a ≡ some b → a ≡ suc b
    parent_below zero b e = cc
    parent_below (suc n) b e = cc

abbrev two_votes : Driver ℕ (ℕ × Bytes)
two_votes = record { majority_count = 2; create_qc = λ votes. length votes }

-- Block 5 is proposed and two validators vote for it; then four blocks come in.
abbrev a_run : List (Event ℕ ℕ (ℕ × Bytes))
a_run =
    propose (λ leaf qc height. some 5)
    ∷ vote (5, 1 ∷ [])
    ∷ vote (5, 1 ∷ [])
    ∷ vote (5, 2 ∷ [])
    ∷ proposal 1
    ∷ proposal 2
    ∷ proposal 3
    ∷ proposal 4
    ∷ proposal 4
    ∷ []

-- The run commits block 1, on the three-chain that block 4 completes.
a_run-commits : ((run chain two_votes a_run (new_state 0 0)) >>= λ s. ok s.b_exec) ≡ ok 1
unfolding run new_state has insert bytes_eq
a_run-commits = refl

-- Two OnReceiveVote overlap: the second one counts three votes and reads none, since the first one has
-- ended the proposal in between.
abbrev a_race : List (Event ℕ ℕ (ℕ × Bytes))
a_race =
    propose (λ leaf qc height. some 5)
    ∷ collect (5, 1 ∷ [])
    ∷ collect (5, 2 ∷ [])
    ∷ collect (5, 3 ∷ [])
    ∷ certify
    ∷ close_voting
    ∷ certify
    ∷ close_voting
    ∷ []

a_race-empty :
    ((run chain two_votes a_race (new_state 0 0)) >>= λ s. ok s.calls)
    ≡ ok (
        Call.broadcast_proposal 5
        ∷ Call.create_qc ((5, 1 ∷ []) ∷ (5, 2 ∷ []) ∷ (5, 3 ∷ []) ∷ [])
        ∷ Call.create_qc []
        ∷ [])
unfolding run new_state has insert bytes_eq
a_race-empty = refl

run-IsChained_example : Safely (IsChained chain 0) (run chain two_votes a_run (new_state 0 0))
run-IsChained_example = run-IsChained chain two_votes 0 0 a_run chain-IsLawful

run-VotesAscend_example : Safely (VotesAscend chain 0) (run chain two_votes a_run (new_state 0 0))
run-VotesAscend_example = run-VotesAscend chain two_votes 0 0 a_run chain-IsLawful

run-IsCounting_example :
    Safely (IsCounting chain two_votes) (run chain two_votes a_race (new_state 0 0))
run-IsCounting_example = run-IsCounting chain two_votes 0 0 a_race chain-IsLawful

-- A replica that has locked block 2 and voted for block 3.
abbrev locked : State ℕ ℕ (ℕ × Bytes)
locked = record (new_state 0 0) { b_vote = 3; b_lock = 2; b_exec = 1; b_leaf = 3; qc_high = 3 }

check_safety_rule-Decides_example :
    Decides (check_safety_rule chain two_votes 4 locked) (Extends chain 2 4)
check_safety_rule-Decides_example =
    check_safety_rule-Decides chain two_votes 4 locked chain-IsLawful

can_vote-Decides_example :
    Decides
      (can_vote chain two_votes 4 locked)
      ((3 < 4) × (Extends chain 2 4 ⊎ ((r : ℕ) × (some 3 ≡ some r) × (2 < r))))
can_vote-Decides_example = can_vote-Decides chain two_votes 4 locked chain-IsLawful

on_commit-cases_example :
    ((cs : List ℕ) × (on_commit chain two_votes 3 locked ≡ ok (with_commits cs locked))
      × Links chain 1 cs
      × (last_or 1 cs ≡ 3))
    ⊎ ((on_commit chain two_votes 3 locked ≡ fatal) × (¬ Extends chain 1 3))
on_commit-cases_example = on_commit-cases chain two_votes 3 locked chain-IsLawful

-- A replica that has one vote for its proposal of block 4.
abbrev voting : State ℕ ℕ (ℕ × Bytes)
voting = record locked { proposal = some 4; votes = (1 ∷ [], (4, 1 ∷ [])) ∷ [] }

on_receive_vote-cases_example :
    (Ignored chain two_votes (4, 2 ∷ []) voting
      × (on_receive_vote chain two_votes (4, 2 ∷ []) voting ≡ voting))
    ⊎ ((p : ℕ) × Counts chain two_votes (4, 2 ∷ []) voting p
        × (((length (collected chain two_votes (4, 2 ∷ []) voting).votes < 2)
              × (on_receive_vote chain two_votes (4, 2 ∷ []) voting
                  ≡ collected chain two_votes (4, 2 ∷ []) voting))
            ⊎ ((2 ≤ length (collected chain two_votes (4, 2 ∷ []) voting).votes)
                × (on_receive_vote chain two_votes (4, 2 ∷ []) voting
                    ≡ certified chain two_votes (4, 2 ∷ []) voting))))
on_receive_vote-cases_example = on_receive_vote-cases chain two_votes (4, 2 ∷ []) voting
