-- ===== src/Execution/BlkExecuter.antt =====
-- execution/blk_executer.go: the transactions of a block run concurrently and are merged in order.
-- What the worker of a transaction sees at each of its reads is a schedule's choice among the states
-- that the block's tracker had so far. Merging holds the tracker's lock, so it is one step.
use hs_blockchain.Prelude.{
  ℕ, suc, none, some, List, [], ◌∷◌, ◌++◌, Bytes, if◌then◌else◌, length, ◌==◌, get_elem?,
}
use hs_blockchain.Execution.Tracker.{
  Value, Tracker, base, track, new_state_tracker, spawn, get_state, merge, has_dependency_changes,
}
use hs_blockchain.Execution.TxExecuter.{
  TxInput, Registry, TxCommit, tx_commit, execute_chaincode, top_tracker,
}

-- The read with the given number sees the tracker after that many merges; a number beyond the merges
-- so far stands for the latest.
abbrev pub Schedule : Type 0
Schedule = ℕ → ℕ → ℕ

abbrev pub root_at : List Tracker → Tracker → ℕ → Tracker
root_at history root j = elim (get_elem? history j) [ none ↦ root | some r ↦ r ]

module _ (reg : Registry) (store : Bytes → Value) where
  -- GetState of the block's tracker, over the state store.
  unfoldable pub root_value : Tracker → Bytes → Value
  unfolding get_state
  root_value root key = (get_state key (track root (base (λ _. store) 0))).0

  -- executeTx, with what each read sees.
  unfoldable pub execute_tx : (ℕ → Bytes → Value) → TxInput → TxCommit × Tracker
  unfolding execute_chaincode tx_commit spawn top_tracker
  execute_tx view tx =
      let (e, g) = execute_chaincode reg tx (spawn [] (base view 0)) in
      (tx_commit tx e, top_tracker g)

  -- The changes of a transaction without an error are merged.
  unfoldable pub merge_commit : Tracker → TxCommit × Tracker → Tracker × TxCommit
  unfolding merge
  merge_commit root (commit, child) =
      if length commit.error == 0 then (merge child root, commit) else (root, commit)

  -- mergeTxStateChanges: run again, now that nothing can change, where a dependency changed.
  unfoldable pub merge_tx : Tracker → TxInput → TxCommit × Tracker → Tracker × TxCommit
  unfolding merge_commit has_dependency_changes execute_tx root_value
  merge_tx root tx (commit, child) =
      if has_dependency_changes child root
      then merge_commit root (execute_tx (λ _. root_value root) tx)
      else merge_commit root (commit, child)

  -- executeConcurrent: the merges, in the order of the transactions; `history` holds the trackers of
  -- the block up to now, the oldest first.
  unfoldable pub concurrent_loop :
      Schedule → ℕ → List Tracker → Tracker → List TxInput → Tracker × List TxCommit
  unfolding merge_tx
  concurrent_loop sched i history root [] = (root, [])
  concurrent_loop sched i history root (tx ∷ txs) =
      let early = execute_tx (λ n. root_value (root_at history root (sched i n))) tx in
      let (root', commit) = merge_tx root tx early in
      let (end, commits) = concurrent_loop sched (suc i) (history ++ root' ∷ []) root' txs in
      (end, commit ∷ commits)

  unfoldable pub execute_block : Schedule → List TxInput → Tracker × List TxCommit
  unfolding concurrent_loop new_state_tracker
  execute_block sched txs =
      concurrent_loop sched 0 (new_state_tracker [] ∷ []) (new_state_tracker []) txs

  -- The reference: each transaction runs and is merged before the next one runs.
  unfoldable pub serial_loop : Tracker → List TxInput → Tracker × List TxCommit
  unfolding merge_commit execute_tx root_value
  serial_loop root [] = (root, [])
  serial_loop root (tx ∷ txs) =
      let (root', commit) = merge_commit root (execute_tx (λ _. root_value root) tx) in
      let (end, commits) = serial_loop root' txs in (end, commit ∷ commits)
