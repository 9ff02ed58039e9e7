-- ===== src/Storage/Failures.antt =====
-- A commit of storage/storage.go that fails, or panics, on the way.
use hs_blockchain.Prelude.{
  ℕ, ◌≡◌, ◌∙◌, refl, sym, ap, Bool, Bool-cases, true, false, Option, none, some, some-injective,
  List, [], ◌∷◌, Bytes, bytes_eq, if◌then◌else◌, arith, All, All-append, All-of_each, ◌==◌, inl,
  inr, ◌<◌,
}
use hs_blockchain.Core.Crypto.{be64}
use hs_blockchain.Core.Blocks.{PbTransaction}
use hs_blockchain.Core.Certs.{PbQuorumCert}
use hs_blockchain.Core.Wire.{StateChange, PbTxCommit, failed, panicked}
use hs_blockchain.Merkle.Tree.{Node, UpdateResult}
use hs_blockchain.Storage.Database.{
  Badger, IsDatabase, UpdateFunc, Write, done, failed, panicked, ◌then◌, run_updates,
  update_badger_db,
}
use hs_blockchain.Storage.ChainStore.{
  set_marshalled, set_block, set_block_by_hash, set_block_hash_by_height, set_last_qc,
  set_block_commit, set_tx, set_txs, set_tx_commit, set_tx_commits,
}
use hs_blockchain.Storage.StateStore.{
  set_state_value, set_tree_index, moves_leaf, commit_state_change, commit_state_changes,
}
use hs_blockchain.Storage.MerkleStore.{
  set_merkle_node, set_merkle_nodes, set_leaf_count, set_tree_height, commit_update,
}
use hs_blockchain.Storage.Storage.{
  CommitData, Config, chain_updates, write_chain_data, write_block_commit,
}

-- The database that a write leaves, and whether the write is done.
abbrev pub result : {D : Type 0} → Write D → D
result (done d) = d
result (failed d) = d
result (panicked d) = d

abbrev pub is_done : {D : Type 0} → Write D → Bool
is_done (done d) = true
is_done (failed d) = false
is_done (panicked d) = false

module _ {D : Type 0} (db : Badger D) (lawful : IsDatabase db) (j : Bytes) where
  -- An update leaves the value of the key.
  abbrev Keeps : UpdateFunc D → Type 0
  Keeps fn = (d d' : D) → fn d ≡ some d' → db.get j d' ≡ db.get j d

  set-Keeps : (k v : Bytes) → bytes_eq k j ≡ false → Keeps (db.set k v)
  set-Keeps k v e d d' s = lawful.get_set k v j d d' s ∙ rw e refl

  run_updates-Keeps : (fns : List (UpdateFunc D)) → All Keeps fns → Keeps (run_updates db fns)
  unfolding run_updates
  run_updates-Keeps [] a d d' s = ap (db.get j) (sym (some-injective _ _ s))
  run_updates-Keeps (fn ∷ fns) a d d' s = go (λ x. run_updates-Keeps fns a.1 x) (fn d) refl s
    where
      go :
          ((x d' : D) → run_updates db fns x ≡ some d' → db.get j d' ≡ db.get j x)
          → (m : Option D) → fn d ≡ m
          → (elim m [ none ↦ none | some x ↦ run_updates db fns x ]) ≡ some d'
          → db.get j d' ≡ db.get j d
      go rest none e t = absurd (ground (arith, t))
      go rest (some x) e t = rest x d' t ∙ a.0 d x e

  -- Whether it is done or not, an update of such functions leaves the value.
  pub update_badger_db-keeps :
      (fns : List (UpdateFunc D)) (d : D)
      → All Keeps fns
      → db.get j (result (update_badger_db db fns d)) ≡ db.get j d
  unfolding update_badger_db
  update_badger_db-keeps fns d a = go (run_updates db fns d) refl
    where
      committed :
          (x : D) (m : Option D)
          → db.commit x ≡ m
          → db.get j x ≡ db.get j d
          → db.get j (result (elim m [ none ↦ failed d | some y ↦ done y ])) ≡ db.get j d
      committed x none e s = refl
      committed x (some y) e s = lawful.get_commit j x y e ∙ s

      go :
          (m : Option D)
          → run_updates db fns d ≡ m
          → db.get j (
              result (elim m [
                | none ↦ failed d
                | some x ↦ elim (db.commit x) [ none ↦ failed d | some y ↦ done y ]
              ]))
            ≡ db.get j d
      go none e = refl
      go (some x) e = committed x (db.commit x) refl (run_updates-Keeps fns a d x e)

  -- An update that is not done leaves all as it was.
  pub update_badger_db-failed :
      (fns : List (UpdateFunc D)) (d : D)
      → is_done (update_badger_db db fns d) ≡ false
      → result (update_badger_db db fns d) ≡ d
  unfolding update_badger_db
  update_badger_db-failed fns d = go (run_updates db fns d)
    where
      committed :
          (m : Option D)
          → is_done (elim m [ none ↦ failed d | some y ↦ done y ]) ≡ false
          → result (elim m [ none ↦ failed d | some y ↦ done y ]) ≡ d
      committed none h = refl
      committed (some y) h = absurd (ground (arith, h))

      go :
          (m : Option D)
          → is_done (elim m [
            | none ↦ failed d
            | some x ↦ elim (db.commit x) [ none ↦ failed d | some y ↦ done y ]
          ])
            ≡ false
          → result (elim m [
            | none ↦ failed d
            | some x ↦ elim (db.commit x) [ none ↦ failed d | some y ↦ done y ]
          ])
            ≡ d
      go none h = refl
      go (some x) h = committed (db.commit x) h

  -- Where two writes follow each other and both leave the value, so does the whole.
  pub then-keeps :
      (w : Write D) (f : D → Write D) (d : D)
      → db.get j (result w) ≡ db.get j d
      → ((x : D) → is_done (w then f) ≡ is_done (f x) → db.get j (result (f x)) ≡ db.get j x)
      → db.get j (result (w then f)) ≡ db.get j d
  then-keeps (done x) f d h k = k x refl ∙ h
  then-keeps (failed x) f d h k = h
  then-keeps (panicked x) f d h k = h

module _ {D : Type 0} (cfg : Config D) (lawful : IsDatabase cfg.db) (col : ℕ) (low : col < 4)
    (k : Bytes) where
  abbrev KeepsKey : UpdateFunc D → Type 0
  KeepsKey = Keeps cfg.db lawful (col ∷ k)

  other_column : (x : ℕ) (xs : Bytes) → (x == col) ≡ false → bytes_eq (x ∷ xs) (col ∷ k) ≡ false
  unfolding bytes_eq
  other_column x xs e = rw e refl

  set_marshalled-KeepsKey :
      (key : Bytes) (m : Option Bytes)
      → bytes_eq key (col ∷ k) ≡ false
      → KeepsKey (set_marshalled cfg.db cfg.crypto cfg.proto key m)
  unfolding set_marshalled
  set_marshalled-KeepsKey key none e = λ d d' s. absurd (ground (arith, s))
  set_marshalled-KeepsKey key (some v) e = set-Keeps cfg.db lawful (col ∷ k) key v e

  qc-KeepsKey : (qc : Option PbQuorumCert) → KeepsKey (set_last_qc cfg.db cfg.crypto cfg.proto qc)
  unfolding set_last_qc
  qc-KeepsKey none = λ d d' s. ap (cfg.db.get (col ∷ k)) (sym (some-injective _ _ s))
  qc-KeepsKey (some qc) =
      set_marshalled-KeepsKey (4 ∷ []) _ (other_column 4 [] (ground (arith, low)))

  -- The chain's entries leave a key that is not the block's own.
  pub write_chain_data-keeps :
      (data' : CommitData) (d : D)
      → bytes_eq (1 ∷ data'.block.hash) (col ∷ k) ≡ false
      → bytes_eq (2 ∷ be64 data'.block.height) (col ∷ k) ≡ false
      → cfg.db.get (col ∷ k) (result (write_chain_data cfg data' d)) ≡ cfg.db.get (col ∷ k) d
  unfolding write_chain_data chain_updates set_block set_block_by_hash set_block_hash_by_height
      set_txs set_tx set_tx_commits set_tx_commit
  write_chain_data-keeps data' d hash height =
      update_badger_db-keeps cfg.db lawful (col ∷ k) (chain_updates cfg data') d (
        set_marshalled-KeepsKey (1 ∷ data'.block.hash) _ hash,
        (
          set-Keeps cfg.db lawful (col ∷ k) _ _ height,
          (
            qc-KeepsKey data'.qc,
            All-append KeepsKey (set_txs cfg.db cfg.crypto cfg.proto data'.transactions) _
                (All-of_each KeepsKey _ data'.transactions (λ (tx : PbTransaction).
                  set_marshalled-KeepsKey (7 ∷ tx.hash) _
                    (other_column 7 tx.hash (ground (arith, low)))))
                (All-of_each KeepsKey _ data'.tx_commits (λ (txc : PbTxCommit).
                  set_marshalled-KeepsKey (8 ∷ txc.hash) _
                    (other_column 8 txc.hash (ground (arith, low))))),
          ),
        ),
      )

  pub write_block_commit-keeps :
      (data' : CommitData) (d : D)
      → cfg.db.get (col ∷ k) (result (write_block_commit cfg data' d)) ≡ cfg.db.get (col ∷ k) d
  unfolding write_block_commit set_block_commit
  write_block_commit-keeps data' d =
      update_badger_db-keeps cfg.db lawful (col ∷ k)
        (set_block_commit cfg.db cfg.crypto cfg.proto data'.block_commit ∷ []) d
        (
          set_marshalled-KeepsKey _ _
              (other_column 5 data'.block_commit.hash (ground (arith, low))),
          tt,
        )

  change-KeepsKey : (sc : StateChange) → All KeepsKey (commit_state_change cfg.db sc)
  unfolding commit_state_change set_state_value set_tree_index
  change-KeepsKey sc = elim (Bool-cases (moves_leaf sc)) [
    | inl e ↦ rw e (
      set-Keeps cfg.db lawful (col ∷ k) _ _ (other_column 9 sc.key (ground (arith, low))),
      (set-Keeps cfg.db lawful (col ∷ k) _ _ (other_column 10 sc.key (ground (arith, low))), tt),
    )
    | inr e ↦
        rw e
          (set-Keeps cfg.db lawful (col ∷ k) _ _ (other_column 9 sc.key (ground (arith, low))), tt)
  ]

  pub changes-KeepsKey : (scs : List StateChange) → All KeepsKey (commit_state_changes cfg.db scs)
  unfolding commit_state_changes
  changes-KeepsKey [] = tt
  changes-KeepsKey (sc ∷ scs) =
      All-append KeepsKey (commit_state_change cfg.db sc) _ (change-KeepsKey sc)
        (changes-KeepsKey scs)

  pub tree-KeepsKey : (upd : UpdateResult) → All KeepsKey (commit_update cfg.db upd)
  unfolding commit_update set_merkle_nodes set_merkle_node set_leaf_count set_tree_height
  tree-KeepsKey upd =
      let node = λ (n : Node).
        set-Keeps cfg.db lawful (col ∷ k) _ _
          (other_column 13 n.position.bytes (ground (arith, low))) in
      All-append KeepsKey (set_merkle_nodes cfg.db upd.leaves) _
        (All-of_each KeepsKey _ upd.leaves node)
        (All-append KeepsKey (set_merkle_nodes cfg.db upd.branches) _
          (All-of_each KeepsKey _ upd.branches node)
          (
            set-Keeps cfg.db lawful (col ∷ k) _ _ (other_column 12 [] (ground (arith, low))),
            (set-Keeps cfg.db lawful (col ∷ k) _ _ (other_column 11 [] (ground (arith, low))), tt),
          ))
