-- ===== src/TxPool/TxStore.antt =====
-- txpool/txstore.go: the known transactions and the queue of those that no block has taken.
-- The heap of container/heap is a list of hashes with their times, the earliest of which Pop takes;
-- items of one time come out in the order in which they went in, which the heap leaves open.
use hs_blockchain.Prelude.{
  ℕ, zero, suc, Bool, Option, none, some, List, [], ◌∷◌, ◌++◌, Bytes, if◌then◌else◌, Map, has,
  lookup, insert, delete, length, ltb, ◌-◌,
}

-- txItem; its index, which is -1 outside the queue, is whether the queue has its hash.
pub record TxItem (T : Type 0) : Type 0 where
  pub tx : T
  pub received_time : ℕ

pub record TxStore (T : Type 0) : Type 0 where
  pub txq : Map ℕ
  pub tx_items : Map (TxItem T)

pub data TxStatus : Type 0 where
  not_found queue pending commited : TxStatus

pub record Status : Type 0 where
  pub total : ℕ
  pub in_queue : ℕ
  pub in_pending : ℕ

-- The earliest of an entry and some others, by Less.
unfoldable pub earliest : Bytes × ℕ → Map ℕ → Bytes × ℕ
earliest e [] = e
earliest e (f ∷ q) = if ltb f.1 e.1 then earliest f q else earliest e q

-- heap.Pop
unfoldable pub pop : Map ℕ → Option (Bytes × Map ℕ)
unfolding earliest
pop [] = none
pop (e ∷ q) = some ((earliest e q).0, delete (earliest e q).0 (e ∷ q))

unfoldable pub min : ℕ → ℕ → ℕ
min i j = if ltb i j then i else j

-- The calls of the store's methods that change it.
pub data Call (T : Type 0) : Type 0 where
  add : ℕ → Bytes → T → Call T
  take : ℕ → Call T
  put_back : List Bytes → Call T
  keep_out : List Bytes → Call T
  forget : List Bytes → Call T

module _ {T : Type 0} where
  unfoldable pub new_tx_store : TxStore T
  new_tx_store = record { txq = []; tx_items = [] }

  -- inQueue
  unfoldable pub is_in_queue : Bytes → TxStore T → Bool
  is_in_queue hash store = has hash store.txq

  -- addNewTx, of a transaction with the given hash at the given time.
  unfoldable pub add_new_tx : ℕ → Bytes → T → TxStore T → TxStore T
  add_new_tx now hash tx store = if has hash store.tx_items then store else record {
    txq = store.txq ++ (hash, now) ∷ [];
    tx_items = insert hash (record { tx = tx; received_time = now }) store.tx_items;
  }

  unfoldable pub pop_loop : ℕ → TxStore T → List Bytes × TxStore T
  unfolding pop
  pop_loop zero store = ([], store)
  pop_loop (suc count) store = elim (pop store.txq) [
    | none ↦ ([], store)
    | some (hash, q) ↦
        let (hashes, end) = pop_loop count (record store { txq = q }) in (hash ∷ hashes, end)
  ]

  -- popTxsFromQueue
  unfoldable pub pop_txs_from_queue : ℕ → TxStore T → List Bytes × TxStore T
  unfolding pop_loop min
  pop_txs_from_queue max store = pop_loop (min (length store.txq) max) store

  unfoldable pub put_to_queue : Bytes → TxStore T → TxStore T
  unfolding is_in_queue
  put_to_queue hash store = elim (lookup hash store.tx_items) [
    | none ↦ store
    | some item ↦
        if is_in_queue hash store
        then store
        else record store { txq = store.txq ++ (hash, item.received_time) ∷ [] }
  ]

  -- putTxsToQueue
  unfoldable pub put_txs_to_queue : List Bytes → TxStore T → TxStore T
  unfolding put_to_queue
  put_txs_to_queue [] store = store
  put_txs_to_queue (hash ∷ hashes) store = put_txs_to_queue hashes (put_to_queue hash store)

  -- heap.Remove, where the item is in the queue
  unfoldable pub set_pending : Bytes → TxStore T → TxStore T
  unfolding is_in_queue
  set_pending hash store =
      if has hash store.tx_items
      then (if is_in_queue hash store then record store { txq = delete hash store.txq } else store)
      else store

  -- setTxsPending
  unfoldable pub set_txs_pending : List Bytes → TxStore T → TxStore T
  unfolding set_pending
  set_txs_pending [] store = store
  set_txs_pending (hash ∷ hashes) store = set_txs_pending hashes (set_pending hash store)

  unfoldable pub remove_tx : Bytes → TxStore T → TxStore T
  unfolding set_pending
  remove_tx hash store =
      if has hash store.tx_items
      then record (set_pending hash store) { tx_items = delete hash store.tx_items }
      else store

  -- removeTxs
  unfoldable pub remove_txs : List Bytes → TxStore T → TxStore T
  unfolding remove_tx
  remove_txs [] store = store
  remove_txs (hash ∷ hashes) store = remove_txs hashes (remove_tx hash store)

  -- getTx
  unfoldable pub get_tx : Bytes → TxStore T → Option T
  get_tx hash store = elim (lookup hash store.tx_items) [ none ↦ none | some item ↦ some item.tx ]

  -- getTxStatus
  unfoldable pub get_tx_status : Bytes → TxStore T → TxStatus
  unfolding is_in_queue
  get_tx_status hash store =
      if has hash store.tx_items
      then (if is_in_queue hash store then TxStatus.queue else TxStatus.pending)
      else TxStatus.not_found

  -- getTxStatus of txpool.go, over the storage's HasTx.
  unfoldable pub get_pool_tx_status : (Bytes → Bool) → Bytes → TxStore T → TxStatus
  unfolding get_tx_status
  get_pool_tx_status has_tx hash store = elim (get_tx_status hash store) [
    | not_found ↦ if has_tx hash then TxStatus.commited else TxStatus.not_found
    | status ↦ status
  ]

  -- getStatus
  unfoldable pub get_status : TxStore T → Status
  get_status store = record {
    total = length store.tx_items;
    in_queue = length store.txq;
    in_pending = length store.tx_items - length store.txq;
  }

  unfoldable pub call : Call T → TxStore T → TxStore T
  unfolding add_new_tx pop_txs_from_queue put_txs_to_queue set_txs_pending remove_txs
  call (add now hash tx) store = add_new_tx now hash tx store
  call (take max) store = (pop_txs_from_queue max store).1
  call (put_back hashes) store = put_txs_to_queue hashes store
  call (keep_out hashes) store = set_txs_pending hashes store
  call (forget hashes) store = remove_txs hashes store

  unfoldable pub calls : List (Call T) → TxStore T → TxStore T
  unfolding call
  calls [] store = store
  calls (c ∷ cs) store = calls cs (call c store)
