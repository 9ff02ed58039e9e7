-- ===== src/TxPool/Pooled.antt =====
-- What txpool/txstore.go keeps: the queue has each hash once, and only hashes of known transactions.
use hs_blockchain.Prelude.{
  ℕ, zero, suc, ◌≡◌, refl, true, false, List, [], ◌∷◌, ◌++◌, Bytes, has, lookup, insert, delete,
  length, arith, All, All-append, All-map, Distinct, Distinct-append_new, keys, has-contains,
  has-insert, length-Within, Bool-cases, Option-cases, inl, inr, bytes_eq, bytes_eq_iff, ◌+◌,
  length-map, ◌≤◌, lookup-delete,
}
use mathlib.Core.List.{map-append}
use hs_blockchain.TxPool.Queues.{Distinct-delete, All-delete, delete_absent, All-has, pop-cases}
use hs_blockchain.TxPool.TxStore.{
  Call, add, take, put_back, keep_out, forget, call, calls, TxItem, TxStore, new_tx_store,
  is_in_queue, add_new_tx, pop_loop, put_to_queue, put_txs_to_queue, set_pending, set_txs_pending,
  remove_tx, remove_txs, get_status,
}

module _ {T : Type 0} where
  abbrev IsKnown : TxStore T → Bytes → Type 0
  IsKnown store hash = has hash store.tx_items ≡ true

  pub record IsPooled (store : TxStore T) : Type 0 where
    pub once : Distinct (keys store.txq)
    pub known : All (IsKnown store) (keys store.txq)

  -- A new entry of the queue.
  pushed :
      (hash : Bytes) (time : ℕ) (store : TxStore T)
      → has hash store.tx_items ≡ true
      → has hash store.txq ≡ false
      → IsPooled store
      → IsPooled (record store { txq = store.txq ++ (hash, time) ∷ [] })
  pushed hash time store h new p = record {
    once = rw map-append (
        Distinct-append_new (keys store.txq) hash p.once (rw (has-contains hash store.txq) at new));
    known = rw map-append (All-append (IsKnown store) (keys store.txq) (hash ∷ []) p.known (h, tt));
  }

  deleted :
      (hash : Bytes) (store : TxStore T)
      → IsPooled store
      → IsPooled (record store { txq = delete hash store.txq })
  deleted hash store p = record {
    once = Distinct-delete hash store.txq p.once;
    known = All-delete (IsKnown store) (IsKnown store) hash store.txq (λ x e h. h) p.known;
  }

  -- Of a known transaction, setTxsPending leaves the queue without it.
  set_pending-known :
      (hash : Bytes) (store : TxStore T)
      → has hash store.tx_items ≡ true
      → set_pending hash store ≡ record store { txq = delete hash store.txq }
  unfolding set_pending is_in_queue
  set_pending-known hash store h = elim (Bool-cases (has hash store.txq)) [
    | inl e ↦ rw (set_pending, h, e) refl
    | inr e ↦ rw (set_pending, h, e, delete_absent hash store.txq e) refl
  ]

  add_new_tx-IsPooled :
      (now : ℕ) (hash : Bytes) (tx : T) (store : TxStore T)
      → IsPooled store
      → IsPooled (add_new_tx now hash tx store)
  unfolding add_new_tx
  add_new_tx-IsPooled now hash tx store p = elim (Bool-cases (has hash store.tx_items)) [
    | inl e ↦ rw (add_new_tx, e) p
    | inr e ↦
        let new : has hash store.txq ≡ false = elim (Bool-cases (has hash store.txq)) [
          | inl q ↦ absurd (ground (arith, e, All-has (IsKnown store) hash store.txq q p.known))
          | inr q ↦ q
        ] in
        let items = insert hash (record { tx = tx; received_time = now }) store.tx_items in
        let known' =
          All-map (IsKnown store) (λ x. has x items ≡ true) (keys store.txq)
            (λ x h. ground (
              arith,
              has-insert hash x (record { tx = tx; received_time = now }) store.tx_items,
              h,
            ))
            p.known in
        rw (add_new_tx, e)
          (pushed hash now (record store { tx_items = items })
            (ground (
              arith,
              has-insert hash hash (record { tx = tx; received_time = now }) store.tx_items,
              bytes_eq_iff hash hash,
            ))
            new (record { once = p.once; known = known' }))
  ]

  put_to_queue-IsPooled :
      (hash : Bytes) (store : TxStore T) → IsPooled store → IsPooled (put_to_queue hash store)
  unfolding put_to_queue is_in_queue has
  put_to_queue-IsPooled hash store p = elim (Option-cases (lookup hash store.tx_items)) [
    | inl e ↦ rw (put_to_queue, e) p
    | inr (item, e) ↦ elim (Bool-cases (has hash store.txq)) [
      | inl q ↦ rw (put_to_queue, e, q) p
      | inr q ↦
          rw (put_to_queue, e, q) (pushed hash item.received_time store (rw (has, e) refl) q p)
    ]
  ]

  set_pending-IsPooled :
      (hash : Bytes) (store : TxStore T) → IsPooled store → IsPooled (set_pending hash store)
  unfolding set_pending
  set_pending-IsPooled hash store p = elim (Bool-cases (has hash store.tx_items)) [
    | inl e ↦ rw (set_pending-known hash store e) (deleted hash store p)
    | inr e ↦ rw (set_pending, e) p
  ]

  remove_tx-known :
      (hash : Bytes) (store : TxStore T)
      → has hash store.tx_items ≡ true
      → remove_tx hash store
        ≡ record { txq = delete hash store.txq; tx_items = delete hash store.tx_items }
  unfolding remove_tx is_in_queue
  remove_tx-known hash store h = elim (Bool-cases (has hash store.txq)) [
    | inl e ↦ rw (remove_tx, h, e) refl
    | inr e ↦ rw (remove_tx, h, e, delete_absent hash store.txq e) refl
  ]

  still_known :
      (hash : Bytes) (store : TxStore T) (x : Bytes)
      → bytes_eq x hash ≡ false
      → has x store.tx_items ≡ true
      → has x (delete hash store.tx_items) ≡ true
  unfolding has
  still_known hash store x ne h =
      ground (
        arith,
        lookup-delete hash x store.tx_items,
        h,
        ne,
        bytes_eq_iff x hash,
        bytes_eq_iff hash x,
      )

  remove_tx-IsPooled :
      (hash : Bytes) (store : TxStore T) → IsPooled store → IsPooled (remove_tx hash store)
  unfolding remove_tx
  remove_tx-IsPooled hash store p = elim (Bool-cases (has hash store.tx_items)) [
    | inl e ↦ rw (remove_tx-known hash store e) record {
      once = Distinct-delete hash store.txq p.once;
      known =
          All-delete (IsKnown store) (λ x. has x (delete hash store.tx_items) ≡ true) hash store.txq
            (still_known hash store) p.known;
    }
    | inr e ↦ rw (remove_tx, e) p
  ]

  pop_loop-IsPooled :
      (count : ℕ) (store : TxStore T) → IsPooled store → IsPooled (pop_loop count store).1
  unfolding pop_loop
  pop_loop-IsPooled zero store p = p
  pop_loop-IsPooled (suc count) store p = elim (pop-cases store.txq) [
    | inl e ↦ rw (pop_loop, e) p
    | inr (hash, e) ↦
        rw (pop_loop, e)
          (pop_loop-IsPooled count (record store { txq = delete hash store.txq })
            (deleted hash store p))
  ]

  put_txs-IsPooled :
      (hs : List Bytes) (store : TxStore T) → IsPooled store → IsPooled (put_txs_to_queue hs store)
  unfolding put_txs_to_queue
  put_txs-IsPooled [] store p = p
  put_txs-IsPooled (h ∷ hs) store p =
      put_txs-IsPooled hs (put_to_queue h store) (put_to_queue-IsPooled h store p)

  set_txs-IsPooled :
      (hs : List Bytes) (store : TxStore T) → IsPooled store → IsPooled (set_txs_pending hs store)
  unfolding set_txs_pending
  set_txs-IsPooled [] store p = p
  set_txs-IsPooled (h ∷ hs) store p =
      set_txs-IsPooled hs (set_pending h store) (set_pending-IsPooled h store p)

  remove_txs-IsPooled :
      (hs : List Bytes) (store : TxStore T) → IsPooled store → IsPooled (remove_txs hs store)
  unfolding remove_txs
  remove_txs-IsPooled [] store p = p
  remove_txs-IsPooled (h ∷ hs) store p =
      remove_txs-IsPooled hs (remove_tx h store) (remove_tx-IsPooled h store p)

  call-IsPooled : (c : Call T) (store : TxStore T) → IsPooled store → IsPooled (call c store)
  unfolding call
  call-IsPooled (add now hash tx) store p = add_new_tx-IsPooled now hash tx store p
  call-IsPooled (take max) store p = pop_loop-IsPooled _ store p
  call-IsPooled (put_back hashes) store p = put_txs-IsPooled hashes store p
  call-IsPooled (keep_out hashes) store p = set_txs-IsPooled hashes store p
  call-IsPooled (forget hashes) store p = remove_txs-IsPooled hashes store p

  calls-keep : (cs : List (Call T)) (store : TxStore T) → IsPooled store → IsPooled (calls cs store)
  unfolding calls
  calls-keep [] store p = p
  calls-keep (c ∷ cs) store p = calls-keep cs (call c store) (call-IsPooled c store p)

  IsPooled-length : (store : TxStore T) → IsPooled store → length store.txq ≤ length store.tx_items
  IsPooled-length store p = omega (
    arith,
    length-Within (keys store.txq) (keys store.tx_items) p.once
        (All-map _ _ (keys store.txq) (λ x h. rw (has-contains x store.tx_items) at h) p.known),
    length-map (λ (e : Bytes × ℕ). e.0) store.txq,
    length-map (λ (e : Bytes × TxItem T). e.0) store.tx_items,
  )

  -- From an empty store, over every sequence of additions, pops, returns to the queue, settings to
  -- pending and removals, the queue has no hash twice and only hashes of stored transactions, and
  -- the numbers that getStatus gives add up: the queued and the pending are all the transactions.
  pub calls-IsPooled :
      (cs : List (Call T))
      → IsPooled (calls cs new_tx_store)
        × ((get_status (calls cs new_tx_store)).in_queue
              + (get_status (calls cs new_tx_store)).in_pending
            ≡ (get_status (calls cs new_tx_store)).total)
  unfolding new_tx_store get_status
  calls-IsPooled cs =
      let kept = calls-keep cs new_tx_store (record { once = tt; known = tt }) in
      (kept, omega (arith, IsPooled-length (calls cs new_tx_store) kept))
