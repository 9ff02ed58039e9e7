-- ===== src/TxPool/Examples.antt =====
-- Two transactions come in, the earlier one is taken and the other one removed.
use hs_blockchain.Prelude.{
  Map, ℕ, ◌≡◌, refl, List, [], ◌∷◌, ◌+◌, has, insert, delete, lookup, bytes_eq,
}
use hs_blockchain.TxPool.TxStore.{
  Call, add, take, forget, calls, new_tx_store, get_status, get_tx_status, TxStatus,
}
use hs_blockchain.TxPool.Pooled.{IsPooled, calls-IsPooled}

abbrev some_calls : List (Call ℕ)
some_calls =
    add 9 (1 ∷ []) 100
    ∷ add 5 (2 ∷ []) 200
    ∷ add 7 (2 ∷ []) 200
    ∷ take 1
    ∷ forget ((1 ∷ []) ∷ [])
    ∷ []

calls-IsPooled_example :
    IsPooled (calls some_calls new_tx_store)
    × ((get_status (calls some_calls new_tx_store)).in_queue
          + (get_status (calls some_calls new_tx_store)).in_pending
        ≡ (get_status (calls some_calls new_tx_store)).total)
calls-IsPooled_example = calls-IsPooled some_calls

-- The earlier transaction was taken and is pending.
taken-pending : get_tx_status (2 ∷ []) (calls some_calls new_tx_store) ≡ TxStatus.pending
unfolding get_tx_status calls new_tx_store has insert delete lookup bytes_eq
taken-pending = refl

abbrev two_entries : Map ℕ
two_entries = (1 ∷ [], 9) ∷ (2 ∷ [], 5) ∷ []
