-- ===== src/Storage/Written.antt =====
-- writeCommitData of storage/storage.go, in a database whose calls do not fail.
use hs_blockchain.Prelude.{◌≡◌, ◌∙◌, refl, sym, ap, Option, none, some, List, [], ◌∷◌, ◌++◌, Bytes}
use hs_blockchain.Core.Wire.{StateChange}
use hs_blockchain.Merkle.Tree.{UpdateResult}
use hs_blockchain.Storage.Database.{IsDatabase, IsReliable, Write, done}
use hs_blockchain.Storage.ChainStore.{set_block_height, set_block_commit}
use hs_blockchain.Storage.StateStore.{commit_state_changes}
use hs_blockchain.Storage.MerkleStore.{commit_update}
use hs_blockchain.Storage.Storage.{
  CommitData, Config, chain_updates, write_chain_data, write_block_commit, write_state_merkle_tree,
  set_committed_block_height, write_commit_data,
}
use hs_blockchain.Storage.Overlay.{
  Entry, overlay, overlay-append, AllSets-append, update_badger_db-overlay,
}
use hs_blockchain.Storage.Commits.{
  Marshals, chain_entries, commit_entries, changes_entries, tree_entries, state_entries,
  height_entries, all_entries, set_marshalled-written, chain-AllSets, changes-AllSets, tree-AllSets,
}

-- State changes come with an update of the tree.
abbrev pub HasUpdate : List StateChange → Option UpdateResult → Type 0
HasUpdate [] upd = Unit
HasUpdate (sc ∷ scs) none = ⊥
HasUpdate (sc ∷ scs) (some upd) = Unit

module _ {D : Type 0} (cfg : Config D) (marshals : Marshals cfg.proto) (lawful : IsDatabase cfg.db)
    (reliable : IsReliable cfg.db) where
  -- The step returns, and leaves the entries over what was there.
  abbrev Leaves : (D → Write D) → List Entry → Type 0
  Leaves step es =
      (d : D)
      → (d' : D) × (step d ≡ done d')
        × ((j : Bytes) → cfg.db.get j d' ≡ overlay j es (cfg.db.get j d))

  chain-Leaves :
      (data' : CommitData) → Leaves (write_chain_data cfg data') (chain_entries cfg.proto data')
  unfolding write_chain_data
  chain-Leaves data' d =
      update_badger_db-overlay cfg.db lawful reliable (chain_updates cfg data')
        (chain_entries cfg.proto data') d (chain-AllSets cfg marshals data')

  commit-Leaves :
      (data' : CommitData) → Leaves (write_block_commit cfg data') (commit_entries cfg.proto data')
  unfolding write_block_commit set_block_commit
  commit-Leaves data' d =
      update_badger_db-overlay cfg.db lawful reliable
        (set_block_commit cfg.db cfg.crypto cfg.proto data'.block_commit ∷ [])
        (commit_entries cfg.proto data') d
        (
          λ x. set_marshalled-written cfg marshals _ _ x (marshals.block_commit data'.block_commit),
          tt,
        )

  height-Leaves :
      (data' : CommitData)
      → Leaves (set_committed_block_height cfg data'.block.height) (height_entries data')
  unfolding set_committed_block_height set_block_height
  height-Leaves data' d =
      update_badger_db-overlay cfg.db lawful reliable
        (set_block_height cfg.db cfg.crypto cfg.proto data'.block.height ∷ [])
        (height_entries data') d (λ x. refl, tt)

  state-Leaves :
      (data' : CommitData) (scs : List StateChange) (upd : Option UpdateResult)
      → data'.block_commit.state_changes ≡ scs
      → data'.merkle_update ≡ upd
      → HasUpdate scs upd
      → Leaves (write_state_merkle_tree cfg data') (state_entries scs upd)
  unfolding write_state_merkle_tree overlay
  state-Leaves data' [] upd e u h d = (d, rw (write_state_merkle_tree, e) refl, λ j. refl)
  state-Leaves data' (sc ∷ scs) none e u h d = absurd h
  state-Leaves data' (sc ∷ scs) (some upd) e u h d =
      let (d', runs, gets) =
        update_badger_db-overlay cfg.db lawful reliable
          (commit_state_changes cfg.db (sc ∷ scs) ++ commit_update cfg.db upd)
          (changes_entries (sc ∷ scs) ++ tree_entries upd) d
          (AllSets-append cfg.db (commit_state_changes cfg.db (sc ∷ scs)) (commit_update cfg.db upd)
            (changes_entries (sc ∷ scs)) (tree_entries upd)
            (changes-AllSets cfg marshals (sc ∷ scs)) (tree-AllSets cfg marshals upd)) in
      (d', rw (write_state_merkle_tree, e, u, e) runs, gets)

  pub write_commit_data-overlay :
      (data' : CommitData)
      → HasUpdate data'.block_commit.state_changes data'.merkle_update
      → (d : D)
      → (d' : D) × (write_commit_data cfg data' d ≡ done d')
        × ((j : Bytes) → cfg.db.get j d' ≡ overlay j (all_entries cfg.proto data') (cfg.db.get j d))
  unfolding write_commit_data
  write_commit_data-overlay data' h d =
      let (d₁, runs₁, gets₁) = chain-Leaves data' d in
      let (d₂, runs₂, gets₂) = commit-Leaves data' d₁ in
      let (d₃, runs₃, gets₃) =
        state-Leaves data' data'.block_commit.state_changes data'.merkle_update refl refl h d₂ in
      let (d₄, runs₄, gets₄) = height-Leaves data' d₃ in
      let states = state_entries data'.block_commit.state_changes data'.merkle_update in
      let heights = height_entries data' in
      (
        d₄,
        rw (write_commit_data, runs₁, runs₂, runs₃) runs₄,
        λ j.
            gets₄ j
            ∙ (ap (overlay j heights) (
                  gets₃ j
                  ∙ ap (overlay j states)
                      (gets₂ j ∙ ap (overlay j (commit_entries cfg.proto data')) (gets₁ j)))
                ∙ sym (
                    overlay-append j (chain_entries cfg.proto data') _ _
                    ∙ (overlay-append j (commit_entries cfg.proto data') _ _
                        ∙ overlay-append j states heights _))),
      )
