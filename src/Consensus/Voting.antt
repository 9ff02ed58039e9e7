-- ===== src/Consensus/Voting.antt =====
-- verifyProposalToVote of consensus/validator.go, against what it is to check.
use hs_blockchain.Prelude.{
  ℕ, ◌≡◌, refl, Bool, Bool-cases, true, false, not, ◌&&◌, Option, none, some, some-injective, ap,
  List, [], ◌∷◌, Bytes, bytes_eq_iff, if◌then◌else◌, ◌==◌, ==_iff, ltb, arith, All, inl, inr, ◌↔◌,
  ◌≤◌, ◌∙◌, sym,
}
use hs_blockchain.Core.Blocks.{PbBlock, PbTransaction}
use hs_blockchain.Consensus.Validator.{
  Resources, verify_proposal_txs, verify_merkle_root, verify_proposal_to_vote,
}

module _ {W : Type 0} (r : Resources W) where
  -- A transaction that is not committed, is in the pool, and does not expire below the height.
  abbrev pub IsFresh : ℕ → W → Bytes → Type 0
  IsFresh height w hash =
      (r.has_tx hash w ≡ false)
      × ((tx : PbTransaction) × (r.get_tx hash w ≡ some tx)
          × ((tx.expiry == 0) ≡ false → height ≤ tx.expiry))

  -- The state that the block was made on is the node's own.
  abbrev pub SameState : PbBlock → W → Type 0
  SameState pb w = (r.block_height w ≡ pb.exec_height) × (r.merkle_root w ≡ pb.merkle_root)

  verify_proposal_txs_iff :
      (height : ℕ) (hashes : List Bytes) (w : W)
      → (verify_proposal_txs r height hashes w ≡ true) ↔ All (IsFresh height w) hashes
  unfolding verify_proposal_txs
  verify_proposal_txs_iff height [] w = (λ h. tt, λ a. refl)
  verify_proposal_txs_iff height (hash ∷ hashes) w =
      go (r.has_tx hash w) (r.get_tx hash w) refl refl (verify_proposal_txs_iff height hashes w)
    where
      Rest : Bool → Option PbTransaction → Bool
      Rest has found = if has then false else elim found [
        | none ↦ false
        | some tx ↦
            if not (tx.expiry == 0) && ltb tx.expiry height
            then false
            else verify_proposal_txs r height hashes w
      ]

      go :
          (has : Bool) (found : Option PbTransaction)
          → r.has_tx hash w ≡ has
          → r.get_tx hash w ≡ found
          → (verify_proposal_txs r height hashes w ≡ true) ↔ All (IsFresh height w) hashes
          → (Rest has found ≡ true) ↔ (IsFresh height w hash × All (IsFresh height w) hashes)
      go true found e f ih =
          (λ h. absurd (ground (arith, h)), λ a. absurd (ground (arith, e, a.0.0)))
      go false none e f ih = (
        λ h. absurd (ground (arith, h)),
        λ a. let (tx, g, k) = a.0.1 in absurd (ground (arith, sym f ∙ g)),
      )
      go false (some tx) e f ih = elim (Bool-cases (not (tx.expiry == 0) && ltb tx.expiry height)) [
        | inl x ↦ rw x (
          λ h. absurd (ground (arith, h)),
          λ a.
              let (tx', g, k) = a.0.1 in
              let same : tx.expiry ≡ tx'.expiry =
                ap (λ (t : PbTransaction). t.expiry) (some-injective _ _ (sym f ∙ g)) in
              let bound = k (ground (arith, x, same)) in absurd (ground (arith, x, same, bound)),
        )
        | inr x ↦ rw x (λ h. ((e, (tx, f, λ n. ground (arith, x, n))), ih.0 h), λ a. ih.1 a.1)
      ]

  verify_merkle_root_iff :
      (pb : PbBlock) (w : W) → (verify_merkle_root r pb w ≡ true) ↔ SameState pb w
  unfolding verify_merkle_root
  verify_merkle_root_iff pb w = ground (
    arith,
    ==_iff (r.block_height w) pb.exec_height,
    bytes_eq_iff (r.merkle_root w) pb.merkle_root,
  )

  -- A proposal may be voted for exactly when its proposer is the leader, its execution height and Merkle
  -- root are the node's own (once the node has committed a block since its start), and each of its
  -- transactions is not committed, is in the pool, and has no expiry or one not below the block's height.
  pub verify_proposal_to_vote_iff :
      (pb : PbBlock) (w : W)
      → (verify_proposal_to_vote r pb w ≡ true) ↔ (
          (r.is_leader pb.proposer w ≡ true)
          × ((r.committed_height w == 0) ≡ false → SameState pb w)
          × All (IsFresh pb.height w) pb.transactions)
  unfolding verify_proposal_to_vote
  verify_proposal_to_vote_iff pb w =
      let root = verify_merkle_root_iff pb w in
      let txs = verify_proposal_txs_iff pb.height pb.transactions w in
      elim (Bool-cases (r.is_leader pb.proposer w)) [
        | inr l ↦
            rw (verify_proposal_to_vote, l)
              (λ h. absurd (ground (arith, h)), λ a. absurd (ground (arith, a.0)))
        | inl l ↦ elim (Bool-cases (r.committed_height w == 0)) [
          | inl z ↦
              rw (verify_proposal_to_vote, l, z)
                (λ h. (refl, λ n. absurd (ground (arith, n)), txs.0 h), λ a. txs.1 a.2)
          | inr z ↦ elim (Bool-cases (verify_merkle_root r pb w)) [
            | inl m ↦
                rw (verify_proposal_to_vote, l, z, m)
                  (λ h. (refl, λ n. root.0 m, txs.0 h), λ a. txs.1 a.2)
            | inr m ↦
                rw (verify_proposal_to_vote, l, z, m)
                  (
                    λ h. absurd (ground (arith, h)),
                    λ a. absurd (ground (arith, m, root.1 (a.1 refl))),
                  )
          ]
        ]
      ]
