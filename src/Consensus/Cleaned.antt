-- ===== src/Consensus/Cleaned.antt =====
-- The blocks that consensus/hs_driver.go leaves in the state after a commit.
use hs_blockchain.Prelude.{
  ◌≡◌, ◌∙◌, refl, sym, ap, Bool, Bool-cases, true, false, not, ◌&&◌, ◌||◌, Option, none, some,
  some-injective, List, [], ◌∷◌, Bytes, bytes_eq, bytes_eq_iff, if◌then◌else◌, ltb, arith, inl, inr,
  ◌+◌, ◌-◌, ◌<◌, Map, has, lookup, lookup-delete,
}
use hs_blockchain.Core.Blocks.{PbBlock}
use hs_blockchain.TxPool.TxStore.{remove_txs}
use hs_blockchain.Consensus.Cleanup.{
  Pools, select, delete_block, delete_qc, set_committed_block, delete_committed, get_older_blocks,
  get_uncommitted_older_blocks, drop_loop, forget_loop, delete_committed_older_blocks,
  clean_state_on_committed,
}

-- A block of the list has the hash.
unfoldable has_hash : Bytes → List PbBlock → Bool
has_hash k [] = false
has_hash k (b ∷ bs) = bytes_eq b.hash k || has_hash k bs

select-has_hash :
    (test : PbBlock → Bool) (m : Map PbBlock) (k : Bytes) (b : PbBlock)
    → lookup k m ≡ some b
    → b.hash ≡ k
    → test b ≡ true
    → has_hash k (select test m) ≡ true
unfolding select lookup has_hash
select-has_hash test [] k b e h t = absurd (ground (arith, e))
select-has_hash test ((j, c) ∷ m) k b e h t = elim (Bool-cases (bytes_eq j k)) [
  | inl f ↦
      let same : c ≡ b = some-injective _ _ (rw (lookup, f) at e) in
      let tested : test c ≡ true = ap test same ∙ t in
      let key : bytes_eq c.hash k ≡ true =
        (bytes_eq_iff c.hash k).1 (ap (λ (x : PbBlock). x.hash) same ∙ h) in
      rw (select, tested, has_hash, key) refl
  | inr f ↦
      let rest = select-has_hash test m k b (rw (lookup, f) at e) h t in
      elim (Bool-cases (test c)) [
        | inl g ↦ rw (select, g, has_hash, rest) (ground arith)
        | inr g ↦ rw (select, g) rest
      ]
]

module _ {T : Type 0} where
  drop_loop-blocks :
      (bs : List PbBlock) (s : Pools T) (k : Bytes)
      → lookup k (drop_loop bs s).blocks ≡ (if has_hash k bs then none else lookup k s.blocks)
  unfolding drop_loop delete_block delete_qc has_hash
  drop_loop-blocks [] s k = refl
  drop_loop-blocks (b ∷ bs) s k =
      drop_loop-blocks bs _ k ∙ ground (arith, lookup-delete b.hash k s.blocks)

  drop_loop-committed : (bs : List PbBlock) (s : Pools T) → (drop_loop bs s).committed ≡ s.committed
  unfolding drop_loop delete_block delete_qc
  drop_loop-committed [] s = refl
  drop_loop-committed (b ∷ bs) s = drop_loop-committed bs _

  forget_loop-blocks :
      (bs : List PbBlock) (s : Pools T) (k : Bytes)
      → lookup k (forget_loop bs s).blocks ≡ (if has_hash k bs then none else lookup k s.blocks)
  unfolding forget_loop delete_block delete_committed has_hash
  forget_loop-blocks [] s k = refl
  forget_loop-blocks (b ∷ bs) s k =
      forget_loop-blocks bs _ k ∙ ground (arith, lookup-delete b.hash k s.blocks)

  forget_loop-committed :
      (bs : List PbBlock) (s : Pools T) (k : Bytes)
      → lookup k (forget_loop bs s).committed
        ≡ (if has_hash k bs then none else lookup k s.committed)
  unfolding forget_loop delete_block delete_committed has_hash
  forget_loop-committed [] s k = refl
  forget_loop-committed (b ∷ bs) s k =
      forget_loop-committed bs _ k ∙ ground (arith, lookup-delete b.hash k s.committed)

  -- The state once the block is marked as committed.
  marked : PbBlock → Pools T → Pools T
  marked bexec s =
      let kept = delete_qc bexec.hash s in
      set_committed_block bexec (record kept { txs = remove_txs bexec.transactions kept.txs })

  -- A block that stays of those below the committed one is committed.
  dropped-committed :
      (bexec b : PbBlock) (s : Pools T) (k : Bytes)
      → b.hash ≡ k
      → b.height < bexec.height
      → lookup k (drop_loop (get_uncommitted_older_blocks bexec s) s).blocks ≡ some b
      → (lookup k s.blocks ≡ some b) × (has k s.committed ≡ true)
  unfolding get_uncommitted_older_blocks
  dropped-committed bexec b s k h lt e =
      let others = get_uncommitted_older_blocks bexec s in
      let after = sym (drop_loop-blocks others s k) ∙ e in
      elim (Bool-cases (has_hash k others)) [
        | inl f ↦ absurd (ground (arith, after, f))
        | inr f ↦
            let found : lookup k s.blocks ≡ some b = ground (arith, after, f) in
            elim (Bool-cases (has k s.committed)) [
              | inl g ↦ (found, g)
              | inr g ↦
                  let mine : has b.hash s.committed ≡ false = ap (λ x. has x s.committed) h ∙ g in
                  let test : (ltb b.height bexec.height && not (has b.hash s.committed)) ≡ true =
                    ground (arith, lt, mine) in
                  absurd (
                    ground (
                      arith,
                      f,
                      select-has_hash
                          (λ c. ltb c.height bexec.height && not (has c.hash s.committed)) s.blocks
                          k b found h test,
                    ))
            ]
      ]

  forgotten-keeps :
      (bexec b : PbBlock) (s : Pools T) (k : Bytes)
      → b.hash ≡ k
      → lookup k (delete_committed_older_blocks bexec s).blocks ≡ some b
      → (lookup k s.blocks ≡ some b)
        × (has k (delete_committed_older_blocks bexec s).committed ≡ has k s.committed)
        × (bexec.height < b.height + 21)
  unfolding delete_committed_older_blocks get_older_blocks has
  forgotten-keeps bexec b s k h e = elim (Bool-cases (ltb bexec.height 20)) [
    | inl low ↦
        let found : lookup k s.blocks ≡ some b = rw (delete_committed_older_blocks, low) at e in
        rw (delete_committed_older_blocks, low) (found, refl, ground (arith, low))
    | inr low ↦
        let old = get_older_blocks (bexec.height - 20) s in
        let after : lookup k (forget_loop old s).blocks ≡ some b =
          rw (delete_committed_older_blocks, low) at e in
        let split = sym (forget_loop-blocks old s k) ∙ after in
        elim (Bool-cases (has_hash k old)) [
          | inl f ↦ absurd (ground (arith, split, f))
          | inr f ↦
              let found : lookup k s.blocks ≡ some b = ground (arith, split, f) in
              let same : lookup k (forget_loop old s).committed ≡ lookup k s.committed =
                forget_loop-committed old s k ∙ rw f refl in
              rw (delete_committed_older_blocks, low)
                (
                  found,
                  ap (λ (x : Option (Unit {0})). elim x [ none ↦ false | some _ ↦ true ]) same,
                  elim (Bool-cases (ltb b.height (bexec.height - 20))) [
                    | inr g ↦ ground (arith, g, low)
                    | inl g ↦ absurd (
                        ground (
                          arith,
                          f,
                          select-has_hash (λ c. ltb c.height (bexec.height - 20)) s.blocks k b found
                              h g,
                        ))
                  ],
                )
        ]
  ]

  -- After the cleaning that follows the commit of a block, a block that is still in the state under its
  -- hash and lies below the committed one was there before, is committed, and is at most 20 lower.
  pub clean_state_on_committed-has :
      (bexec b : PbBlock) (s : Pools T) (k : Bytes)
      → b.hash ≡ k
      → b.height < bexec.height
      → lookup k (clean_state_on_committed bexec s).blocks ≡ some b
      → (lookup k s.blocks ≡ some b)
        × (has k (clean_state_on_committed bexec s).committed ≡ true)
        × (bexec.height < b.height + 21)
  unfolding clean_state_on_committed marked delete_qc set_committed_block
  clean_state_on_committed-has bexec b s k h lt e =
      let m = marked bexec s in
      let (found, same, near) =
        forgotten-keeps bexec b (drop_loop (get_uncommitted_older_blocks bexec m) m) k h e in
      let (before, committed) = dropped-committed bexec b m k h lt found in
      (
        before,
        same
            ∙ (ap (λ c. has k c) (drop_loop-committed (get_uncommitted_older_blocks bexec m) m)
                ∙ committed),
        near,
      )
