-- ===== src/Storage/Reads.antt =====
-- What the reads of storage/ find after a commit.
use hs_blockchain.Prelude.{
  ℕ, ◌≡◌, ◌∙◌, refl, ap, Bool-cases, true, false, Option, none, some, List, [], ◌∷◌, ◌++◌, Bytes,
  bytes_eq, bytes_eq_refl, if◌then◌else◌, arith, All, All-append, All-map, All-of_each, ◌==◌, map,
  inl, inr, ◌<◌, ◌^◌,
}
use hs_blockchain.Core.Crypto.{be64}
use hs_blockchain.Core.Certs.{PbQuorumCert}
use hs_blockchain.Core.Blocks.{Block, PbTransaction}
use hs_blockchain.Core.Wire.{StateChange, Proto, found, unmarshal_block}
use hs_blockchain.Merkle.Tree.{UpdateResult, written}
use hs_blockchain.Storage.Database.{IsDatabase, IsReliable, done, has_key}
use hs_blockchain.Storage.ChainStore.{
  be64_value, get_block_height, get_block_hash_by_height, get_block, get_block_by_height,
  get_last_block, has_tx,
}
use hs_blockchain.Storage.StateStore.{moves_leaf}
use hs_blockchain.Storage.Storage.{CommitData, Config, write_commit_data}
use hs_blockchain.Storage.Overlay.{Entry, overlay, overlay-append, Avoids, overlay-Avoids}
use hs_blockchain.Storage.Commits.{
  Marshals, block_entries, qc_entry, tx_entry, tx_commit_entry, chain_entries, commit_entries,
  change_entries, changes_entries, node_entry, state_entries, height_entries, all_entries,
}
use hs_blockchain.Storage.Written.{HasUpdate, write_commit_data-overlay}

-- binary.BigEndian.Uint64 gives back what binary.Write wrote.
pub be64_value-be64 : (n : ℕ) → n < 2 ^ 64 → be64_value (be64 n) ≡ found n
unfolding be64_value be64
be64_value-be64 n h = ap found (omega (arith, h))

-- The entries set no key of the column.
abbrev pub Off : ℕ → List Entry → Type 0
Off col = All (λ e. elim e [
  | none ↦ Unit {0}
  | some kv ↦ elim (kv.0) [ [] ↦ Unit {0} | x ∷ xs ↦ (x == col) ≡ false ]
])

Off-Avoids : (col : ℕ) (k : Bytes) (es : List Entry) → Off col es → Avoids (col ∷ k) es
unfolding bytes_eq
Off-Avoids col k [] a = tt
Off-Avoids col k (none ∷ es) a = (tt, Off-Avoids col k es a.1)
Off-Avoids col k (some ([], v) ∷ es) a = (refl, Off-Avoids col k es a.1)
Off-Avoids col k (some (x ∷ xs, v) ∷ es) a = (rw a.0 refl, Off-Avoids col k es a.1)

pub overlay-Off :
    (col : ℕ) (k : Bytes) (es : List Entry) (x : Option Bytes)
    → Off col es
    → overlay (col ∷ k) es x ≡ x
overlay-Off col k es x a = overlay-Avoids (col ∷ k) es x (Off-Avoids col k es a)

module _ (proto : Proto) (col : ℕ) (low : col < 4) where
  qc-Off : (qc : Option PbQuorumCert) → Off col (qc_entry proto qc ∷ [])
  qc-Off none = (tt, tt)
  qc-Off (some qc) = (ground (arith, low), tt)

  txs-Off :
      (data' : CommitData)
      → Off col
          (map (tx_entry proto) data'.transactions ++ map (tx_commit_entry proto) data'.tx_commits)
  txs-Off data' =
      All-append _ (map (tx_entry proto) data'.transactions) _
        (All-of_each _ (tx_entry proto) data'.transactions (λ tx. ground (arith, low)))
        (All-of_each _ (tx_commit_entry proto) data'.tx_commits (λ txc. ground (arith, low)))

  changes-Off : (scs : List StateChange) → Off col (changes_entries scs)
  changes-Off [] = tt
  changes-Off (sc ∷ scs) = All-append _ (change_entries sc) _ (change-Off sc) (changes-Off scs)
    where
      change-Off : (sc : StateChange) → Off col (change_entries sc)
      change-Off sc = elim (Bool-cases (moves_leaf sc)) [
        | inl e ↦ rw e (ground (arith, low), (ground (arith, low), tt))
        | inr e ↦ rw e (ground (arith, low), tt)
      ]

  state-Off : (scs : List StateChange) (upd : Option UpdateResult) → Off col (state_entries scs upd)
  state-Off [] upd = tt
  state-Off (sc ∷ scs) none = tt
  state-Off (sc ∷ scs) (some upd) =
      All-append _ (changes_entries (sc ∷ scs)) _ (changes-Off (sc ∷ scs)) (
        All-append _ (map node_entry upd.leaves) _
          (All-of_each _ node_entry upd.leaves (λ n. ground (arith, low)))
          (All-append _ (map node_entry upd.branches) _
            (All-of_each _ node_entry upd.branches (λ n. ground (arith, low)))
            (ground (arith, low), (ground (arith, low), tt))))

  -- A key of the first three columns has what the block's entries and the height leave.
  overlay-block :
      (data' : CommitData) (k : Bytes) (x : Option Bytes)
      → overlay (col ∷ k) (all_entries proto data') x
        ≡ overlay
            (col ∷ k)
            (height_entries data')
            (overlay (col ∷ k) (block_entries proto data'.block) x)
  overlay-block data' k x =
      let j = col ∷ k in
      let block = block_entries proto data'.block in
      let txs =
        map (tx_entry proto) data'.transactions ++ map (tx_commit_entry proto) data'.tx_commits in
      let commits = commit_entries proto data' in
      let states = state_entries data'.block_commit.state_changes data'.merkle_update in
      let heights = height_entries data' in
      let first = overlay j block x in
      let chain : overlay j (chain_entries proto data') x ≡ first =
        overlay-append j block (qc_entry proto data'.qc ∷ txs) x
        ∙ overlay-Off col k (qc_entry proto data'.qc ∷ txs) first
            ((qc-Off data'.qc).0, txs-Off data') in
      let rest : overlay j states (overlay j commits first) ≡ first =
        overlay-Off col k states _ (state-Off data'.block_commit.state_changes data'.merkle_update)
        ∙ overlay-Off col k commits first (ground (arith, low), tt) in
      overlay-append j (chain_entries proto data') _ x
      ∙ (ap (overlay j (commits ++ (states ++ heights))) chain
          ∙ (overlay-append j commits _ first
              ∙ (overlay-append j states heights _ ∙ ap (overlay j heights) rest)))

-- A value that is set stays, or gives way to another.
overlay-some :
    (j : Bytes) (es : List Entry) (y : Bytes) → (z : Bytes) × (overlay j es (some y) ≡ some z)
unfolding overlay
overlay-some j [] y = (y, refl)
overlay-some j (none ∷ es) y = overlay-some j es y
overlay-some j (some (k, v) ∷ es) y = elim (Bool-cases (bytes_eq k j)) [
  | inl e ↦ rw e (overlay-some j es v)
  | inr e ↦ rw e (overlay-some j es y)
]

-- Each of the transactions has a value, whatever comes behind.
txs-some :
    (proto : Proto) (txs : List PbTransaction) (es : List Entry) (x : Bytes → Option Bytes)
    → All
        (λ (tx : PbTransaction).
          (z : Bytes) × (overlay (7 ∷ tx.hash) (map (tx_entry proto) txs ++ es) (x (7 ∷ tx.hash))
            ≡ some z))
        txs
unfolding overlay
txs-some proto [] es x = tt
txs-some proto (tx ∷ txs) es x = (
  rw (bytes_eq_refl (7 ∷ tx.hash))
      (overlay-some (7 ∷ tx.hash) (map (tx_entry proto) txs ++ es) (written (proto.marshal_tx tx))),
  txs-some proto txs es
      (λ j. if bytes_eq (7 ∷ tx.hash) j then some (written (proto.marshal_tx tx)) else x j),
)

module _ {D : Type 0} (cfg : Config D) (marshals : Marshals cfg.proto) (lawful : IsDatabase cfg.db)
    (reliable : IsReliable cfg.db) where
  overlay-txs :
      (data' : CommitData) (j : Bytes) (x : Option Bytes)
      → overlay j (all_entries cfg.proto data') x
        ≡ overlay j
            (commit_entries cfg.proto data'
              ++ (state_entries data'.block_commit.state_changes data'.merkle_update
                  ++ height_entries data'))
            (overlay j
              (map (tx_entry cfg.proto) data'.transactions
                ++ map (tx_commit_entry cfg.proto) data'.tx_commits)
              (overlay j
                (block_entries cfg.proto data'.block ++ (qc_entry cfg.proto data'.qc ∷ []))
                x))
  overlay-txs data' j x =
      overlay-append j (chain_entries cfg.proto data') _ x
      ∙ ap (overlay j _) (
          overlay-append j
            (block_entries cfg.proto data'.block ++ (qc_entry cfg.proto data'.qc ∷ []))
            (map (tx_entry cfg.proto) data'.transactions
              ++ map (tx_commit_entry cfg.proto) data'.tx_commits)
            x)

  module _ (data' : CommitData) (d d' : D)
      (gets : (j : Bytes)
        → cfg.db.get j d' ≡ overlay j (all_entries cfg.proto data') (cfg.db.get j d)) where
    block_height-written :
        data'.block.height < 2 ^ 64
        → get_block_height cfg.db cfg.crypto cfg.proto d' ≡ found data'.block.height
    unfolding get_block_height overlay bytes_eq
    block_height-written small =
        let stored =
          gets (3 ∷ [])
          ∙ overlay-block cfg.proto 3 (omega arith) data' [] (cfg.db.get (3 ∷ []) d) in
        rw stored (be64_value-be64 data'.block.height small)

    block_hash-written :
        get_block_hash_by_height cfg.db cfg.crypto cfg.proto data'.block.height d'
        ≡ found data'.block.hash
    unfolding get_block_hash_by_height overlay bytes_eq
    block_hash-written =
        let k = be64 data'.block.height in
        let stored =
          gets (2 ∷ k) ∙ overlay-block cfg.proto 2 (omega arith) data' k (cfg.db.get (2 ∷ k) d) in
        rw (stored, bytes_eq_refl k) refl

    block-written :
        get_block cfg.db cfg.crypto cfg.proto data'.block.hash d'
        ≡ unmarshal_block cfg.crypto cfg.proto (written (cfg.proto.marshal_block data'.block))
    unfolding get_block overlay bytes_eq
    block-written =
        let k = data'.block.hash in
        let stored =
          gets (1 ∷ k) ∙ overlay-block cfg.proto 1 (omega arith) data' k (cfg.db.get (1 ∷ k) d) in
        rw (stored, bytes_eq_refl k) refl

    txs-written :
        All
          (λ (tx : PbTransaction). has_tx cfg.db cfg.crypto cfg.proto tx.hash d' ≡ true)
          data'.transactions
    unfolding has_tx has_key
    txs-written =
        let before = λ (j : Bytes).
          overlay j (block_entries cfg.proto data'.block ++ (qc_entry cfg.proto data'.qc ∷ []))
            (cfg.db.get j d) in
        let sets =
          txs-some cfg.proto data'.transactions (map (tx_commit_entry cfg.proto) data'.tx_commits)
            before in
        All-map _ _ data'.transactions
          (λ tx set.
            let (y, e) = set in
            let later =
              commit_entries cfg.proto data'
              ++ (state_entries data'.block_commit.state_changes data'.merkle_update
                  ++ height_entries data') in
            let (z, keeps) = overlay-some (7 ∷ tx.hash) later y in
            let stored =
              gets (7 ∷ tx.hash)
              ∙ (overlay-txs data' (7 ∷ tx.hash) (cfg.db.get (7 ∷ tx.hash) d)
                  ∙ (ap (overlay (7 ∷ tx.hash) later) e ∙ keeps)) in
            rw (has_tx, has_key, stored) refl)
          sets

  -- After the data of a block is written, the last block is the block, as its encoding loads.
  pub write_commit_data-get_last_block :
      (data' : CommitData) (blk : Block)
      → HasUpdate data'.block_commit.state_changes data'.merkle_update
      → data'.block.height < 2 ^ 64
      → unmarshal_block cfg.crypto cfg.proto (written (cfg.proto.marshal_block data'.block))
        ≡ found blk
      → (d : D)
      → (d' : D) × (write_commit_data cfg data' d ≡ done d')
        × (get_last_block cfg.db cfg.crypto cfg.proto d' ≡ found blk)
        × (get_block cfg.db cfg.crypto cfg.proto data'.block.hash d' ≡ found blk)
        × (get_block_height cfg.db cfg.crypto cfg.proto d' ≡ found data'.block.height)
        × All
            (λ (tx : PbTransaction). has_tx cfg.db cfg.crypto cfg.proto tx.hash d' ≡ true)
            data'.transactions
  unfolding get_last_block get_block_by_height
  write_commit_data-get_last_block data' blk has small loads d =
      let (d', runs, gets) = write_commit_data-overlay cfg marshals lawful reliable data' has d in
      let height = block_height-written data' d d' gets small in
      let hash = block_hash-written data' d d' gets in
      let block = block-written data' d d' gets ∙ loads in
      (
        d',
        runs,
        rw (get_last_block, height, get_block_by_height, hash) block,
        block,
        height,
        txs-written data' d d' gets,
      )
