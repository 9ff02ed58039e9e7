-- ===== src/Storage/States.antt =====
-- What a commit of storage/storage.go leaves of the state: the value of each changed key, and the others as
-- they were.
use hs_blockchain.Prelude.{
  ℕ, ◌≡◌, ◌∙◌, refl, sym, ap, ap₂, subst, Bool-cases, true, false, Option, none, some, List, [],
  ◌∷◌, ◌++◌, Bytes, bytes_eq, if◌then◌else◌, arith, All-append, All-of_each, length, map, inl, inr,
  ◌<◌, ◌≤◌, ◌^◌, not, ◌&&◌,
}
use hs_blockchain.Core.Certs.{PbQuorumCert}
use hs_blockchain.Core.Wire.{StateChange, Proto}
use hs_blockchain.Merkle.Levels.{IsShuffle}
use hs_blockchain.Merkle.Tree.{UpdateResult}
use hs_blockchain.Storage.Database.{IsDatabase, IsReliable, done}
use hs_blockchain.Storage.StateStore.{
  moves_leaf, is_new, keep_tree_index, set_leaf_index, load_prev_tree_index, get_state_value,
  has_new, set_leaf_of, index_loop, set_new_tree_indexes, load_prev_values, load_prev_tree_indexes,
  sort_strings, new_keys,
}
use hs_blockchain.Storage.Storage.{
  CommitData, Config, has_changes, indexed_changes, write_commit_data, commit,
}
use hs_blockchain.Storage.Overlay.{Entry, overlay, overlay-append}
use hs_blockchain.Storage.Commits.{
  Marshals, qc_entry, tx_entry, tx_commit_entry, chain_entries, commit_entries, change_entries,
  changes_entries, node_entry, tree_entries, state_entries, height_entries, all_entries,
}
use hs_blockchain.Storage.Written.{HasUpdate, write_commit_data-overlay}
use hs_blockchain.Storage.Reads.{Off, overlay-Off}
use hs_blockchain.Storage.Committed.{compute_merkle_update-some}

-- A key and its new value.
abbrev pub pair_of : StateChange → Bytes × Bytes
pair_of sc = (sc.key, sc.value)

-- The value of a key after the changes: the last of its changes.
unfoldable pub last_value : Bytes → List (Bytes × Bytes) → Option Bytes → Option Bytes
last_value key [] old = old
last_value key ((k, v) ∷ kvs) old = last_value key kvs (if bytes_eq k key then some v else old)

-- The leaves of changes are set without a change of keys and values.
map-pair_of :
    (f : StateChange → StateChange) (scs : List StateChange)
    → ((sc : StateChange) → pair_of (f sc) ≡ pair_of sc)
    → map pair_of (map f scs) ≡ map pair_of scs
map-pair_of f [] h = refl
map-pair_of f (sc ∷ scs) h = ap₂ (λ x y. x ∷ y) (h sc) (map-pair_of f scs h)

set_leaf_of-pairs :
    (key : Bytes) (idx : ℕ) (scs : List StateChange)
    → map pair_of (set_leaf_of key idx scs) ≡ map pair_of scs
unfolding set_leaf_of set_leaf_index
set_leaf_of-pairs key idx [] = refl
set_leaf_of-pairs key idx (sc ∷ scs) =
    elim (Bool-cases (is_new sc && bytes_eq sc.key key && not (has_new key scs))) [
      | inl e ↦ rw (set_leaf_of, e) refl
      | inr e ↦ rw (set_leaf_of, e) (ap (λ xs. pair_of sc ∷ xs) (set_leaf_of-pairs key idx scs))
    ]

index_loop-pairs :
    (keys : List Bytes) (scs : List StateChange) (n : ℕ)
    → map pair_of (index_loop keys scs n).0 ≡ map pair_of scs
unfolding index_loop
index_loop-pairs [] scs n = refl
index_loop-pairs (key ∷ keys) scs n = index_loop-pairs keys _ _ ∙ set_leaf_of-pairs key n scs

module _ {D : Type 0} (cfg : Config D) where
  indexed_changes-pairs :
      (d : D) (scs : List StateChange) → map pair_of (indexed_changes cfg d scs).0 ≡ map pair_of scs
  unfolding indexed_changes set_new_tree_indexes load_prev_values load_prev_tree_indexes
  indexed_changes-pairs d scs =
      let loaded = load_prev_values cfg.db d scs in
      let placed = load_prev_tree_indexes cfg.db d loaded in
      index_loop-pairs (sort_strings (new_keys placed)) (map keep_tree_index placed) _
      ∙ (map-pair_of keep_tree_index placed kept
          ∙ (map-pair_of (load_prev_tree_index cfg.db d) loaded loads
              ∙ map-pair_of
                  (λ (sc : StateChange). record sc { prev_value = get_state_value cfg.db d sc.key })
                  scs (λ sc. refl)))
    where
      kept : (sc : StateChange) → pair_of (keep_tree_index sc) ≡ pair_of sc
      kept sc = unfold keep_tree_index in ground arith

      loads : (sc : StateChange) → pair_of (load_prev_tree_index cfg.db d sc) ≡ pair_of sc
      loads sc = unfold load_prev_tree_index in ground arith

-- Only the entries of the values are in the column of the values.
module _ (proto : Proto) where
  qc-Off9 : (qc : Option PbQuorumCert) → Off 9 (qc_entry proto qc ∷ [])
  qc-Off9 none = (tt, tt)
  qc-Off9 (some qc) = (refl, tt)

  chain-Off9 : (data' : CommitData) → Off 9 (chain_entries proto data')
  chain-Off9 data' = (
    refl,
    (
      refl,
      (
        (qc-Off9 data'.qc).0,
        All-append _ (map (tx_entry proto) data'.transactions) _
            (All-of_each _ (tx_entry proto) data'.transactions (λ tx. refl))
            (All-of_each _ (tx_commit_entry proto) data'.tx_commits (λ txc. refl)),
      ),
    ),
  )

  tree-Off9 : (upd : UpdateResult) → Off 9 (tree_entries upd)
  tree-Off9 upd =
      All-append _ (map node_entry upd.leaves) _ (All-of_each _ node_entry upd.leaves (λ n. refl)) (
        All-append _ (map node_entry upd.branches) _
          (All-of_each _ node_entry upd.branches (λ n. refl)) (refl, (refl, tt)))

  overlay-change :
      (key : Bytes) (sc : StateChange) (es : List Entry) (x : Option Bytes)
      → overlay (9 ∷ key) (change_entries sc ++ es) x
        ≡ overlay (9 ∷ key) es (if bytes_eq sc.key key then some sc.value else x)
  unfolding overlay bytes_eq
  overlay-change key sc es x = elim (Bool-cases (moves_leaf sc)) [
    | inl e ↦ rw e refl
    | inr e ↦ rw e refl
  ]

  overlay-changes :
      (key : Bytes) (scs : List StateChange) (x : Option Bytes)
      → overlay (9 ∷ key) (changes_entries scs) x ≡ last_value key (map pair_of scs) x
  unfolding overlay last_value
  overlay-changes key [] x = refl
  overlay-changes key (sc ∷ scs) x =
      overlay-change key sc (changes_entries scs) x ∙ overlay-changes key scs _

  overlay-states :
      (key : Bytes) (scs : List StateChange) (upd : Option UpdateResult) (x : Option Bytes)
      → HasUpdate scs upd
      → overlay (9 ∷ key) (state_entries scs upd) x ≡ last_value key (map pair_of scs) x
  unfolding overlay last_value
  overlay-states key [] upd x h = refl
  overlay-states key (sc ∷ scs) none x h = absurd h
  overlay-states key (sc ∷ scs) (some upd) x h =
      overlay-append (9 ∷ key) (changes_entries (sc ∷ scs)) (tree_entries upd) x
      ∙ (overlay-Off 9 key (tree_entries upd) _ (tree-Off9 upd) ∙ overlay-changes key (sc ∷ scs) x)

  overlay-values :
      (key : Bytes) (data' : CommitData) (x : Option Bytes)
      → HasUpdate data'.block_commit.state_changes data'.merkle_update
      → overlay (9 ∷ key) (all_entries proto data') x
        ≡ last_value key (map pair_of data'.block_commit.state_changes) x
  overlay-values key data' x h =
      let j = 9 ∷ key in
      let chain = chain_entries proto data' in
      let commits = commit_entries proto data' in
      let states = state_entries data'.block_commit.state_changes data'.merkle_update in
      let heights = height_entries data' in
      overlay-append j chain (commits ++ (states ++ heights)) x
      ∙ (ap (overlay j (commits ++ (states ++ heights)))
            (overlay-Off 9 key chain x (chain-Off9 data'))
          ∙ (overlay-append j commits (states ++ heights) x
              ∙ (ap (overlay j (states ++ heights)) (overlay-Off 9 key commits x (refl, tt))
                  ∙ (overlay-append j states heights x
                      ∙ (overlay-Off 9 key heights _ (refl, tt)
                          ∙ overlay-states key data'.block_commit.state_changes data'.merkle_update
                              x h)))))

-- Every key of the state has the value of its last change, or what it had.
abbrev pub HoldsValues : {D : Type 0} → Config D → List StateChange → D → D → Type 0
HoldsValues cfg scs d d' =
    (key : Bytes)
    → get_state_value cfg.db d' key
      ≡ last_value key (map pair_of scs) (get_state_value cfg.db d key)

module _ {D : Type 0} (cfg : Config D) (two : 1 < cfg.tc.bfactor)
    (shuffles : (k : ℕ) → IsShuffle (cfg.arrive k)) (marshals : Marshals cfg.proto)
    (lawful : IsDatabase cfg.db) (reliable : IsReliable cfg.db) where
  write-HoldsValues :
      (data' : CommitData) (d : D)
      → HasUpdate data'.block_commit.state_changes data'.merkle_update
      → (d' : D) × (write_commit_data cfg data' d ≡ done d')
        × HoldsValues cfg data'.block_commit.state_changes d d'
  unfolding get_state_value
  write-HoldsValues data' d h =
      let (d', runs, gets) = write_commit_data-overlay cfg marshals lawful reliable data' h d in
      (
        d',
        runs,
        λ key. gets (9 ∷ key) ∙ overlay-values cfg.proto key data' (cfg.db.get (9 ∷ key) d) h,
      )

  commit-values :
      (data' : CommitData) (elapsed k : ℕ) (d : D) (scs : List StateChange)
      → data'.block_commit.state_changes ≡ scs
      → (indexed_changes cfg d data'.block_commit.state_changes).1 ≤ cfg.tc.bfactor ^ k
      → k < 255
      → (d' : D) × (commit cfg elapsed data' d ≡ done d')
        × HoldsValues cfg data'.block_commit.state_changes d d'
  unfolding commit
  commit-values data' elapsed k d [] e fits low =
      let still : has_changes data'.block_commit.state_changes ≡ false = ap has_changes e in
      let (d', runs, holds) =
        write-HoldsValues data' d (subst (λ s. HasUpdate s data'.merkle_update) (sym e) tt) in
      (d', rw (commit, still) runs, holds)
  commit-values data' elapsed k d (sc ∷ scs) e fits low =
      let changes : has_changes data'.block_commit.state_changes ≡ true = ap has_changes e in
      let (new, made, extends) =
        compute_merkle_update-some cfg two shuffles d data' k
          (subst (λ s. 0 < length s) (sym e) (omega arith)) fits low in
      let timed : CommitData = record new {
        block_commit = record (new.block_commit) { elapsed_merkle = elapsed };
      } in
      let (d', runs, holds) =
        write-HoldsValues timed d (extends.2 new.block_commit.state_changes) in
      let same : map pair_of new.block_commit.state_changes
          ≡ map pair_of data'.block_commit.state_changes =
        ap (map pair_of) extends.3 ∙ indexed_changes-pairs cfg d data'.block_commit.state_changes in
      (
        d',
        rw (commit, changes, made) runs,
        λ key. holds key ∙ ap (λ kvs. last_value key kvs (get_state_value cfg.db d key)) same,
      )

  -- A commit that cannot fail leaves in the database the value of the last change of each key, and the
  -- others as they were.
  pub commit-HoldsValues :
      (data' : CommitData) (elapsed k : ℕ) (d d' : D)
      → (indexed_changes cfg d data'.block_commit.state_changes).1 ≤ cfg.tc.bfactor ^ k
      → k < 255
      → commit cfg elapsed data' d ≡ done d'
      → HoldsValues cfg data'.block_commit.state_changes d d'
  commit-HoldsValues data' elapsed k d d' fits low runs =
      let (d'', runs'', holds) =
        commit-values data' elapsed k d data'.block_commit.state_changes refl fits low in
      subst (HoldsValues cfg data'.block_commit.state_changes d) (same_database (sym runs'' ∙ runs))
        holds
    where
      same_database : {a b : D} → done a ≡ done b → a ≡ b
      same_database h = cc
