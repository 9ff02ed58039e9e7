-- ===== src/Hotstuff/Engine.antt =====
-- hotstuff/hotstuff.go: proposing, voting, locking and committing.
-- OnPropose, OnReceiveProposal and Update are one step each: pacemaker.go and validator.go call them under
-- mtxUpdate. OnReceiveVote and UpdateQCHigh are called beside that mutex, too; so the parts of
-- OnReceiveVote and the start of a proposal are steps of their own as well, and any other may come between.
-- UpdateQCHigh is one step; no theorem on the runs tells which certificate is the highest.
use hs_blockchain.Prelude.{
  ℕ, zero, suc, Bool, true, false, Option, none, some, List, [], ◌∷◌, ◌++◌, if◌then◌else◌, leb, ◌+◌,
  ◌&&◌, ◌||◌,
}
use hs_blockchain.Hotstuff.Types.{
  Blocks, Driver, Run, ok, fatal, out_of_fuel, ◌>>=◌, is_higher, not_lower,
}
use hs_blockchain.Hotstuff.State.{
  Call, State, VoteError, log_call, start_proposal, end_proposal, get_vote_count, get_votes,
  add_vote,
}

-- The entry points of the engine, as the pacemaker, the validator and the driver call them; `vote` is an
-- OnReceiveVote that no other call interrupts. The last four are the parts of calls that overlap:
-- startProposal, addVote, CreateQC of what GetVotes gives, and endProposal. An UpdateQCHigh is `new_view`.
pub data Event (B Q V : Type 0) : Type 0 where
  propose : (B → Q → ℕ → Option B) → Event B Q V
  vote : V → Event B Q V
  proposal : B → Event B Q V
  block_update : B → Event B Q V
  new_view : Q → Event B Q V
  open_voting : B → Event B Q V
  collect : V → Event B Q V
  certify : Event B Q V
  close_voting : Event B Q V

module _ {B Q V : Type 0} (o : Blocks B Q V) (driver : Driver Q V) where
  -- UpdateQCHigh
  unfoldable pub update_qc_high : Q → State B Q V → State B Q V
  unfolding is_higher
  update_qc_high qc s = elim (o.block qc) [
    | none ↦ s
    | some b ↦
        if is_higher o (some b) (o.block s.qc_high)
        then record s { qc_high = qc; b_leaf = b; emitted = s.emitted ++ qc ∷ [] }
        else s
  ]

  -- OnPropose; `create_leaf` is the driver's CreateLeaf at this call, `none` for its nil.
  unfoldable pub on_propose : (B → Q → ℕ → Option B) → State B Q V → Option B × State B Q V
  unfolding start_proposal log_call
  on_propose create_leaf s = elim (create_leaf s.b_leaf s.qc_high (o.height s.b_leaf + 1)) [
    | none ↦ (none, s)
    | some b ↦
        (some b, log_call (Call.broadcast_proposal b) (start_proposal b (record s { b_leaf = b })))
  ]

  -- The second half of OnReceiveVote: the certificate, once the votes suffice.
  unfoldable pub count_votes : Option B → State B Q V → State B Q V
  unfolding get_vote_count get_votes end_proposal log_call update_qc_high
  count_votes none s = s
  count_votes (some p) s =
      if leb driver.majority_count (get_vote_count s)
      then update_qc_high (driver.create_qc (get_votes s))
          (log_call (Call.create_qc (get_votes s)) (end_proposal s))
      else s

  unfoldable pub after_vote : Option VoteError × State B Q V → State B Q V
  unfolding count_votes
  after_vote (some e, s) = s
  after_vote (none, s) = count_votes s.proposal s

  -- OnReceiveVote
  unfoldable pub on_receive_vote : V → State B Q V → State B Q V
  unfolding add_vote after_vote
  on_receive_vote v s = after_vote (add_vote o v s)

  -- CheckSafetyRule: the walk along the parents from the block, on fuel.
  unfoldable pub safety_loop : ℕ → B → Option B → Run Bool
  unfolding not_lower
  safety_loop zero b_lock b = out_of_fuel
  safety_loop (suc fuel) b_lock none = ok false
  safety_loop (suc fuel) b_lock (some b) =
      let rest = safety_loop fuel b_lock (o.parent b) in
      if not_lower o (some b) (some b_lock)
      then (if o.equal b_lock (some b) then ok true else rest)
      else ok false

  unfoldable pub check_safety_rule : B → State B Q V → Run Bool
  unfolding safety_loop
  check_safety_rule b_new s = safety_loop (o.height b_new + 2) s.b_lock (some b_new)

  -- CheckLivenessRule
  unfoldable pub check_liveness_rule : B → State B Q V → Bool
  unfolding is_higher
  check_liveness_rule b_new s = is_higher o (o.block (o.justify b_new)) (some s.b_lock)

  -- CanVote
  unfoldable pub can_vote : B → State B Q V → Run Bool
  unfolding check_safety_rule check_liveness_rule is_higher
  can_vote b_new s =
      if is_higher o (some b_new) (some s.b_vote)
      then (check_safety_rule b_new s >>= λ safe. ok (safe || check_liveness_rule b_new s))
      else ok false

  -- GetJustifyBlocks: b, b1, b2
  unfoldable pub get_justify_blocks : B → Option B × Option B × Option B
  get_justify_blocks b_new = elim (o.block (o.justify b_new)) [
    | none ↦ (none, none, none)
    | some b2 ↦ elim (o.block (o.justify b2)) [
      | none ↦ (none, none, some b2)
      | some b1 ↦ (o.block (o.justify b1), some b1, some b2)
    ]
  ]

  -- IsThreeChain
  unfoldable pub is_three_chain : Option B → Option B → Option B → Bool
  is_three_chain (some b) (some b1) (some b2) = o.equal b1 (o.parent b2) && o.equal b (o.parent b1)
  is_three_chain _ _ _ = false

  -- onCommit, on fuel: the parents first.
  unfoldable pub commit_loop : ℕ → Option B → State B Q V → Run (State B Q V)
  unfolding is_higher log_call
  commit_loop zero b s = out_of_fuel
  commit_loop (suc fuel) none s = if o.equal s.b_exec none then ok s else fatal
  commit_loop (suc fuel) (some b) s =
      let parents = commit_loop fuel (o.parent b) s in
      if is_higher o (some b) (some s.b_exec)
      then (parents >>= λ s'. ok (log_call (Call.commit b) s'))
      else if o.equal s.b_exec (some b)
      then ok s
      else fatal

  unfoldable pub on_commit : B → State B Q V → Run (State B Q V)
  unfolding commit_loop
  on_commit b s = commit_loop (o.height b + 2) (some b) s

  -- The decide phase of Update.
  unfoldable pub decide_phase : Option B → Option B → Option B → State B Q V → Run (State B Q V)
  unfolding is_three_chain on_commit
  decide_phase (some b) b1 b2 s =
      if is_three_chain (some b) b1 b2
      then (on_commit b s >>= λ s'. ok (record s' { b_exec = b }))
      else ok s
  decide_phase none b1 b2 s = ok s

  -- The commit phase of Update.
  unfoldable pub lock_phase : Option B × Option B × Option B → State B Q V → Run (State B Q V)
  unfolding decide_phase is_higher
  lock_phase (b, none, b2) s = ok s
  lock_phase (b, some b1, b2) s =
      if is_higher o (some b1) (some s.b_lock)
      then decide_phase b (some b1) b2 (record s { b_lock = b1 })
      else ok s

  -- Update
  unfoldable pub update : B → State B Q V → Run (State B Q V)
  unfolding update_qc_high get_justify_blocks lock_phase
  update b_new s = lock_phase (get_justify_blocks b_new) (update_qc_high (o.justify b_new) s)

  -- The vote of OnReceiveProposal.
  unfoldable pub cast_vote : B → Bool → State B Q V → State B Q V
  unfolding log_call
  cast_vote b_new voting s =
      if voting then record (log_call (Call.vote_block b_new) s) { b_vote = b_new } else s

  -- OnReceiveProposal
  unfoldable pub on_receive_proposal : B → State B Q V → Run (State B Q V)
  unfolding can_vote update cast_vote
  on_receive_proposal b_new s = do
    voting ← can_vote b_new s
    update b_new (cast_vote b_new voting s)

  unfoldable pub step : Event B Q V → State B Q V → Run (State B Q V)
  unfolding on_propose on_receive_vote on_receive_proposal update update_qc_high start_proposal
      add_vote log_call get_votes end_proposal
  step (propose create_leaf) s = ok (on_propose create_leaf s).1
  step (vote v) s = ok (on_receive_vote v s)
  step (proposal b) s = on_receive_proposal b s
  step (block_update b) s = update b s
  step (new_view qc) s = ok (update_qc_high qc s)
  step (open_voting b) s = ok (start_proposal b s)
  step (collect v) s = ok (add_vote o v s).1
  step certify s = ok (log_call (Call.create_qc (get_votes s)) s)
  step close_voting s = ok (end_proposal s)

  unfoldable pub run : List (Event B Q V) → State B Q V → Run (State B Q V)
  unfolding step
  run [] s = ok s
  run (e ∷ es) s = step e s >>= run es
