-- ===== src/TxPool/Sync.antt =====
-- txpool/txpool.go: new transactions, the synchronisation of missing ones with a peer, and the transactions
-- of a block that is executed. The storage, the execution and the network are parameters.
use hs_blockchain.Prelude.{
  ℕ, Bool, true, false, not, ◌&&◌, Option, none, some, List, [], ◌∷◌, Bytes, bytes_eq,
  if◌then◌else◌,
}
use hs_blockchain.Core.Crypto.{Crypto, ok, err, panic}
use hs_blockchain.Core.Blocks.{Transaction, validate_tx}
use hs_blockchain.TxPool.TxStore.{TxStore, add_new_tx, get_tx, set_txs_pending}

-- How a call ends.
pub data Outcome : Type 0 where
  returned failed panicked : Outcome

-- The other parts during a call; the workers of a list take it in an order that `arrive` gives.
pub record Pool : Type 0 where
  pub crypto : Crypto
  pub has_tx : Bytes → Bool
  pub verify_tx : Transaction → Bool
  pub request_tx_list : Bytes → List Bytes → Option (List Transaction)
  pub now : ℕ
  pub arrive : List Transaction → List Transaction

-- The first error of two calls, or a panic of either.
unfoldable pub both : Outcome → Outcome → Outcome
both returned b = b
both failed panicked = panicked
both failed b = failed
both panicked b = panicked

-- The end of the loop of requestTxList: more transactions than hashes are an index out of range.
unfoldable pub compare_hashes : List Bytes → List Transaction → Outcome
compare_hashes hashes [] = Outcome.returned
compare_hashes [] (tx ∷ txs) = Outcome.panicked
compare_hashes (hash ∷ hashes) (tx ∷ txs) =
    let rest = compare_hashes hashes txs in
    elim (tx.pb) [
      | none ↦ Outcome.panicked
      | some pb ↦ if bytes_eq hash pb.hash then rest else Outcome.failed
    ]

module _ (pool : Pool) where
  -- addNewTx
  unfoldable pub add_new_pool_tx : Transaction → TxStore Transaction → Outcome × TxStore Transaction
  unfolding validate_tx add_new_tx
  add_new_pool_tx tx store = elim (validate_tx (pool.crypto) tx) [
    | panic ↦ (Outcome.panicked, store)
    | err e ↦ (Outcome.failed, store)
    | ok valid ↦ elim (tx.pb) [
      | none ↦ (Outcome.panicked, store)
      | some pb ↦
          if pool.has_tx pb.hash
          then (Outcome.returned, store)
          else if not (pool.verify_tx tx)
          then (Outcome.failed, store)
          else (Outcome.returned, add_new_tx (pool.now) pb.hash tx store)
    ]
  ]

  unfoldable pub add_loop : List Transaction → TxStore Transaction → Outcome × TxStore Transaction
  unfolding add_new_pool_tx both
  add_loop [] store = (Outcome.returned, store)
  add_loop (tx ∷ txs) store =
      let (first, store') = add_new_pool_tx tx store in
      let (rest, end) = add_loop txs store' in (both first rest, end)

  -- addTxList, once all its workers are done.
  unfoldable pub add_tx_list :
      List Transaction → TxStore Transaction → Outcome × TxStore Transaction
  unfolding add_loop
  add_tx_list txs store = add_loop (pool.arrive txs) store

  -- The hashes that neither the storage nor the pool has.
  unfoldable pub missing_txs : List Bytes → TxStore Transaction → List Bytes
  unfolding get_tx
  missing_txs [] store = []
  missing_txs (hash ∷ hashes) store =
      let rest = missing_txs hashes store in
      let is_missing : Bool = elim (get_tx hash store) [ none ↦ true | some tx ↦ false ] in
      if not (pool.has_tx hash) && is_missing then hash ∷ rest else rest

  -- What syncTxs does with the answer of requestTxList.
  unfoldable pub accept_tx_list :
      List Bytes → Option (List Transaction) → TxStore Transaction → Outcome × TxStore Transaction
  unfolding compare_hashes add_tx_list
  accept_tx_list missing none store = (Outcome.failed, store)
  accept_tx_list missing (some txs) store = elim (compare_hashes missing txs) [
    | returned ↦ add_tx_list txs store
    | failed ↦ (Outcome.failed, store)
    | panicked ↦ (Outcome.panicked, store)
  ]

  -- syncTxs
  unfoldable pub sync_missing_txs :
      Bytes → List Bytes → TxStore Transaction → Outcome × TxStore Transaction
  unfolding accept_tx_list
  sync_missing_txs peer [] store = (Outcome.returned, store)
  sync_missing_txs peer (hash ∷ hashes) store =
      accept_tx_list (hash ∷ hashes) (pool.request_tx_list peer (hash ∷ hashes)) store

  unfoldable pub sync_pool_txs :
      Bytes → List Bytes → TxStore Transaction → Outcome × TxStore Transaction
  unfolding sync_missing_txs missing_txs
  sync_pool_txs peer hashes store = sync_missing_txs peer (missing_txs hashes store) store

  -- The loop of getTxsToExecute: the transactions and the executed hashes. A missing transaction is a nil
  -- pointer, of which the message of the error asks the hash.
  unfoldable pub execute_loop :
      List Bytes → TxStore Transaction → Option (List Transaction × List Bytes)
  unfolding get_tx
  execute_loop [] store = some ([], [])
  execute_loop (hash ∷ hashes) store = elim (execute_loop hashes store) [
    | none ↦ none
    | some (txs, executed) ↦
        if pool.has_tx hash
        then some (txs, hash ∷ executed)
        else elim (get_tx hash store) [ none ↦ none | some tx ↦ some (tx ∷ txs, executed) ]
  ]

  -- getTxsToExecute
  unfoldable pub get_txs_to_execute :
      List Bytes
      → TxStore Transaction
      → Option (List Transaction × List Bytes) × TxStore Transaction
  unfolding execute_loop set_txs_pending
  get_txs_to_execute hashes store = elim (execute_loop hashes store) [
    | none ↦ (none, store)
    | some found ↦ (some found, set_txs_pending hashes store)
  ]
