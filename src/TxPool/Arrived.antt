-- ===== src/TxPool/Arrived.antt =====
-- txpool/txpool.go: what the pool has after transactions have arrived.
use hs_blockchain.Prelude.{
  ℕ, ◌≡◌, ◌∙◌, refl, sym, ap, subst, Bool-cases, true, false, not, Option, none, some,
  some-injective, List, [], ◌∷◌, Bytes, bytes_eq, bytes_eq_iff, bytes_eq_refl, if◌then◌else◌, arith,
  All, has, has-insert, ◌⊎◌, inl, inr,
}
use hs_blockchain.Core.Crypto.{Checked, ok, err, panic}
use hs_blockchain.Core.Blocks.{PbTransaction, Transaction, validate_tx}
use hs_blockchain.TxPool.TxStore.{TxStore, add_new_tx}
use hs_blockchain.TxPool.Sync.{Outcome, Pool, both, add_new_pool_tx, add_loop}

add_new_tx-has :
    (now : ℕ) (hash k : Bytes) (tx : Transaction) (s : TxStore Transaction)
    → has k (add_new_tx now hash tx s).tx_items
      ≡ (if bytes_eq hash k then true else has k s.tx_items)
unfolding add_new_tx
add_new_tx-has now hash k tx s = elim (Bool-cases (has hash s.tx_items)) [
  | inr e ↦ rw (add_new_tx, e) (has-insert hash k _ s.tx_items)
  | inl e ↦ rw (add_new_tx, e) (known (Bool-cases (bytes_eq hash k)) e)
]
  where
    known :
        (bytes_eq hash k ≡ true) ⊎ (bytes_eq hash k ≡ false)
        → has hash s.tx_items ≡ true
        → has k s.tx_items ≡ (if bytes_eq hash k then true else has k s.tx_items)
    known (inl f) e = rw f (subst (λ x. has x s.tx_items ≡ true) ((bytes_eq_iff hash k).0 f) e)
    known (inr f) e = rw f refl

module _ (pool : Pool) where
  -- The storage or the pool has the transaction of the hash.
  abbrev pub IsAvailable : TxStore Transaction → Bytes → Type 0
  IsAvailable s hash = (pool.has_tx hash ≡ true) ⊎ (has hash s.tx_items ≡ true)

  abbrev pub TxAvailable : TxStore Transaction → Transaction → Type 0
  TxAvailable s tx = (pb : PbTransaction) → tx.pb ≡ some pb → IsAvailable s pb.hash

  -- A store with all that another has.
  abbrev pub Grows : TxStore Transaction → TxStore Transaction → Type 0
  Grows s t = (k : Bytes) → has k s.tx_items ≡ true → has k t.tx_items ≡ true

  add_new_pool_tx-available :
      (tx : Transaction) (s : TxStore Transaction)
      → Grows s (add_new_pool_tx pool tx s).1
        × ((add_new_pool_tx pool tx s).0 ≡ Outcome.returned
            → TxAvailable (add_new_pool_tx pool tx s).1 tx)
  unfolding add_new_pool_tx
  add_new_pool_tx-available tx s = go (validate_tx pool.crypto tx) tx.pb refl
    where
      Step : Checked (Unit {0}) → Option PbTransaction → Outcome × TxStore Transaction
      Step c m = elim c [
        | panic ↦ (Outcome.panicked, s)
        | err e ↦ (Outcome.failed, s)
        | ok valid ↦ elim m [
          | none ↦ (Outcome.panicked, s)
          | some pb ↦
              if pool.has_tx pb.hash
              then (Outcome.returned, s)
              else if not (pool.verify_tx tx)
              then (Outcome.failed, s)
              else (Outcome.returned, add_new_tx (pool.now) pb.hash tx s)
        ]
      ]

      same : {pb qb : PbTransaction} → tx.pb ≡ some pb → tx.pb ≡ some qb → pb.hash ≡ qb.hash
      same e f = ap (λ (p : PbTransaction). p.hash) (some-injective _ _ (sym e ∙ f))

      go :
          (c : Checked (Unit {0})) (m : Option PbTransaction)
          → tx.pb ≡ m
          → Grows s (Step c m).1 × ((Step c m).0 ≡ Outcome.returned → TxAvailable (Step c m).1 tx)
      go panic m e = (λ k h. h, λ r. absurd (ground (arith, r)))
      go (err x) m e = (λ k h. h, λ r. absurd (ground (arith, r)))
      go (ok v) none e = (λ k h. h, λ r. absurd (ground (arith, r)))
      go (ok v) (some pb) e = elim (Bool-cases (pool.has_tx pb.hash)) [
        | inl a ↦ rw a (λ k h. h, λ r qb f. inl (subst (λ x. pool.has_tx x ≡ true) (same e f) a))
        | inr a ↦ elim (Bool-cases (pool.verify_tx tx)) [
          | inr b ↦ rw (a, b) (λ k h. h, λ r. absurd (ground (arith, r)))
          | inl b ↦
              rw (a, b)
                (
                  λ k h. ground (arith, add_new_tx-has (pool.now) pb.hash k tx s, h),
                  λ r qb f. inr (
                      subst (λ x. has x (add_new_tx (pool.now) pb.hash tx s).tx_items ≡ true)
                        (same e f)
                        (add_new_tx-has (pool.now) pb.hash pb.hash tx s
                          ∙ rw (bytes_eq_refl pb.hash) refl)),
                )
        ]
      ]

  TxAvailable-Grows :
      (s t : TxStore Transaction) (tx : Transaction)
      → Grows s t
      → TxAvailable s tx
      → TxAvailable t tx
  TxAvailable-Grows s t tx g a pb e = elim (a pb e) [ inl h ↦ inl h | inr h ↦ inr (g pb.hash h) ]

  both-returned :
      (a b : Outcome)
      → both a b ≡ Outcome.returned
      → (a ≡ Outcome.returned) × (b ≡ Outcome.returned)
  unfolding both
  both-returned Outcome.returned b h = (refl, h)
  both-returned Outcome.failed Outcome.returned h = absurd (ground (arith, h))
  both-returned Outcome.failed Outcome.failed h = absurd (ground (arith, h))
  both-returned Outcome.failed Outcome.panicked h = absurd (ground (arith, h))
  both-returned Outcome.panicked b h = absurd (ground (arith, h))

  pub add_loop-available :
      (txs : List Transaction) (s : TxStore Transaction)
      → Grows s (add_loop pool txs s).1
        × ((add_loop pool txs s).0 ≡ Outcome.returned
            → All (TxAvailable (add_loop pool txs s).1) txs)
  unfolding add_loop
  add_loop-available [] s = (λ k h. h, λ r. tt)
  add_loop-available (tx ∷ txs) s =
      let one = add_new_pool_tx-available tx s in
      let rest = add_loop-available txs (add_new_pool_tx pool tx s).1 in
      (
        λ k h. rest.0 k (one.0 k h),
        λ r.
            let (first, later) =
              both-returned (add_new_pool_tx pool tx s).0
                (add_loop pool txs (add_new_pool_tx pool tx s).1).0 r in
            (
              TxAvailable-Grows (add_new_pool_tx pool tx s).1
                  (add_loop pool txs (add_new_pool_tx pool tx s).1).1 tx rest.0 (one.1 first),
              rest.1 later,
            ),
      )
