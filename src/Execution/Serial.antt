-- ===== src/Execution/Serial.antt =====
-- The concurrent execution of a block by execution/blk_executer.go is the serial one.
use hs_blockchain.Prelude.{
  ℕ, zero, suc, ◌≡◌, ◌∙◌, refl, sym, ap, ap₂, subst, false, Option, none, List, [], ◌∷◌, ◌++◌,
  Bytes, Map, has, lookup, has-insert, Bool-cases, Option-cases, arith, inl, inr, length, ◌==◌, All,
  All-append, All-map,
}
use hs_blockchain.Execution.Tracker.{
  Value, Tracker, Getter, base, new_state_tracker, spawn, get_state, write_all, write, any_changed,
  has_dependency_changes,
}
use hs_blockchain.Execution.TxExecuter.{
  TxInput, Registry, TxCommit, tx_commit, top_tracker, execute_chaincode,
}
use hs_blockchain.Execution.BlkExecuter.{
  Schedule, root_value, root_at, execute_tx, merge_commit, merge_tx, concurrent_loop, execute_block,
  serial_loop,
}
use hs_blockchain.Execution.Bottom.{bottom}
use hs_blockchain.Execution.Agreement.{Hits, Same, top_tracker-Agree}
use hs_blockchain.Execution.Steps.{Same-execute_chaincode}
use hs_blockchain.Execution.Depth.{depth, depth-execute_chaincode, bottom-depth}

-- An earlier tracker of the block: what it has changed, the later one has changed too.
record Older (h root : Tracker) : Type 0 where
  pub at_top : h.key_prefix ≡ []
  pub grows : (key : Bytes) → has key root.changes ≡ false → has key h.changes ≡ false

unchanged-write :
    (k key : Bytes) (value : Value) (t : Tracker)
    → has key (write k value t).changes ≡ false
    → has key t.changes ≡ false
unfolding write
unchanged-write k key value t e =
    ground (arith, e, has-insert (t.key_prefix ++ k) key value t.changes)

unchanged-write_all :
    (m : Map Value) (t : Tracker) (key : Bytes)
    → has key (write_all m t).changes ≡ false
    → has key t.changes ≡ false
unfolding write_all
unchanged-write_all [] t key e = e
unchanged-write_all ((k, value) ∷ m) t key e =
    unchanged-write k key value t (unchanged-write_all m (write k value t) key e)

key_prefix-write_all : (m : Map Value) (t : Tracker) → (write_all m t).key_prefix ≡ t.key_prefix
unfolding write_all write
key_prefix-write_all [] t = refl
key_prefix-write_all ((k, value) ∷ m) t = key_prefix-write_all m (write k value t)

module _ (reg : Registry) (store : Bytes → Value) where
  -- A key without a change has the value of the state store.
  root_value-unchanged :
      (t : Tracker) (key : Bytes)
      → t.key_prefix ≡ []
      → has key t.changes ≡ false
      → root_value reg store t key ≡ store key
  unfolding root_value get_state has
  root_value-unchanged t key e h = elim (Option-cases (lookup key t.changes)) [
    | inl miss ↦
        let miss' : lookup (t.key_prefix ++ key) t.changes ≡ none = rw e miss in
        rw (miss', root_value, get_state) (ap (λ p. store (p ++ key)) e)
    | inr (value, found) ↦ ground (arith, h, found)
  ]

  module _ (root : Tracker) (top : root.key_prefix ≡ []) where
    -- Views of a transaction that agree with the block's tracker on the keys without a change.
    abbrev Sees : (ℕ → Bytes → Value) → Type 0
    Sees view =
        (i : ℕ) (key : Bytes)
        → has key root.changes ≡ false
        → view i key ≡ root_value reg store root key

    outcome-Same :
        (tx : TxInput) (r s : Option Bytes × Getter)
        → Same root.changes r s
        → depth r.1 ≡ 1
        → any_changed [] (top_tracker r.1).dependencies root.changes ≡ false
        → ◌≡◌ {A = TxCommit × Tracker}
            (tx_commit tx r.0, top_tracker r.1)
            (tx_commit tx s.0, top_tracker s.1)
    outcome-Same tx (e, g) (e', h) (inl (b, q, hits)) d none_changed =
        let b_top : b ≡ top_tracker g = ground (arith, bottom-depth g d, q) in
        let top_hits = subst (Hits root.changes) b_top hits in
        ground (arith, top_hits, none_changed)
    outcome-Same tx (e, g) (e', h) (inr (q, a, n)) d none_changed =
        ap₂ (λ x y. (tx_commit tx x, y)) q (top_tracker-Agree root.changes g h a)

    -- An execution that read no changed key is the execution over the block's tracker.
    execute_tx-view :
        (view : ℕ → Bytes → Value) (tx : TxInput)
        → Sees view
        → has_dependency_changes (execute_tx reg store view tx).1 root ≡ false
        → execute_tx reg store view tx ≡ execute_tx reg store (λ _. root_value reg store root) tx
    unfolding execute_tx spawn bottom depth has_dependency_changes
    execute_tx-view view tx sees same =
        let late = λ (_ : ℕ). root_value reg store root in
        outcome-Same tx (execute_chaincode reg tx (spawn [] (base view 0)))
          (execute_chaincode reg tx (spawn [] (base late 0)))
          (Same-execute_chaincode root.changes reg tx (spawn [] (base view 0))
            (spawn [] (base late 0)) (refl, λ i j. sees i) (_, refl, refl))
          (depth-execute_chaincode reg tx (spawn [] (base view 0)) refl)
          (subst
            (λ p.
              any_changed p
                (top_tracker (execute_chaincode reg tx (spawn [] (base view 0))).1).dependencies
                root.changes
              ≡ false)
            top same)

  merge_commit-Older :
      (root : Tracker) (r : TxCommit × Tracker)
      → root.key_prefix ≡ []
      → Older root (merge_commit reg store root r).0
  unfolding merge_commit
  merge_commit-Older root (commit, child) top = elim (Bool-cases (length commit.error == 0)) [
    | inl e ↦
        rw (e, merge_commit)
          record { at_top = top; grows = λ key h. unchanged-write_all child.changes root key h }
    | inr e ↦ rw (e, merge_commit) record { at_top = top; grows = λ key h. h }
  ]

  key_prefix-merge_commit :
      (root : Tracker) (r : TxCommit × Tracker)
      → root.key_prefix ≡ []
      → (merge_commit reg store root r).0.key_prefix ≡ []
  unfolding merge_commit
  key_prefix-merge_commit root (commit, child) top = elim (Bool-cases (length commit.error == 0)) [
    | inl e ↦ rw (e, merge_commit) (key_prefix-write_all child.changes root ∙ top)
    | inr e ↦ rw (e, merge_commit) top
  ]

  Older-trans : (h t root : Tracker) → Older h t → Older t root → Older h root
  Older-trans h t root a b = record {
    at_top = a.at_top;
    grows = λ key e. a.grows key (b.grows key e);
  }

  Older-root_at :
      (history : List Tracker) (root : Tracker) (j : ℕ)
      → root.key_prefix ≡ []
      → All (λ h. Older h root) history
      → Older (root_at history root j) root
  Older-root_at [] root j top a = record { at_top = top; grows = λ key h. h }
  Older-root_at (h ∷ history) root zero top a = a.0
  Older-root_at (h ∷ history) root (suc j) top a = Older-root_at history root j top a.1

  -- What a transaction reads early is what it reads late, on the keys without a change.
  Sees-root_at :
      (sched : ℕ → ℕ) (history : List Tracker) (root : Tracker) (top : root.key_prefix ≡ [])
      → All (λ h. Older h root) history
      → Sees root top (λ n. root_value reg store (root_at history root (sched n)))
  Sees-root_at sched history root top a i key h =
      let older = Older-root_at history root (sched i) top a in
      root_value-unchanged (root_at history root (sched i)) key older.at_top (older.grows key h)
      ∙ sym (root_value-unchanged root key top h)

  merge_tx-early :
      (view : ℕ → Bytes → Value) (root : Tracker) (tx : TxInput) (top : root.key_prefix ≡ [])
      → Sees root top view
      → merge_tx reg store root tx (execute_tx reg store view tx)
        ≡ merge_commit reg store root (execute_tx reg store (λ _. root_value reg store root) tx)
  unfolding merge_tx
  merge_tx-early view root tx top sees =
      let early = execute_tx reg store view tx in
      elim (Bool-cases (has_dependency_changes early.1 root)) [
        | inl e ↦ rw (e, merge_tx) refl
        | inr e ↦
            rw (e, merge_tx)
              (ap (merge_commit reg store root) (execute_tx-view root top view tx sees e))
      ]

  concurrent_loop-serial_loop :
      (sched : Schedule) (i : ℕ) (history : List Tracker) (root : Tracker) (txs : List TxInput)
      → root.key_prefix ≡ []
      → All (λ h. Older h root) history
      → concurrent_loop reg store sched i history root txs ≡ serial_loop reg store root txs
  unfolding concurrent_loop serial_loop
  concurrent_loop-serial_loop sched i history root [] top a = refl
  concurrent_loop-serial_loop sched i history root (tx ∷ txs) top a =
      let view = λ (n : ℕ). root_value reg store (root_at history root (sched i n)) in
      let late = execute_tx reg store (λ (_ : ℕ). root_value reg store root) tx in
      let next = (merge_commit reg store root late).0 in
      let grown = merge_commit-Older root late top in
      let top' = key_prefix-merge_commit root late top in
      let a' =
        All-append (λ h. Older h next) history (next ∷ [])
          (All-map (λ h. Older h root) (λ h. Older h next) history
            (λ h o. Older-trans h root next o grown) a)
          (record { at_top = top'; grows = λ key e. e }, tt) in
      let step =
        concurrent_loop-serial_loop sched (suc i) (history ++ next ∷ []) next txs top' a' in
      rw (merge_tx-early view root tx top (Sees-root_at (sched i) history root top a)) (
        ap (λ (r : Tracker × List TxCommit). (r.0, (merge_commit reg store root late).1 ∷ r.1))
          step)

  -- Whatever states of the block the concurrent workers happen to read, the execution of a block with
  -- its checks for changed dependencies ends with the tracker and the commits of the serial execution:
  -- transactions run and are merged one after another, in the order of the block.
  pub execute_block-serial_loop :
      (sched : Schedule) (txs : List TxInput)
      → execute_block reg store sched txs ≡ serial_loop reg store (new_state_tracker []) txs
  unfolding execute_block new_state_tracker
  execute_block-serial_loop sched txs =
      concurrent_loop-serial_loop sched 0 (new_state_tracker [] ∷ []) (new_state_tracker []) txs
        refl (record { at_top = refl; grows = λ key e. e }, tt)
