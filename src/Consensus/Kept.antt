-- ===== src/Consensus/Kept.antt =====
-- consensus/genesis.go: each handler keeps what a node has of the genesis block.
use hs_blockchain.Prelude.{
  ◌≡◌, refl, sym, ◌∙◌, Bool, true, false, not, Option, none, some, ◌∷◌, bytes_eq, Bool-cases, inl,
  inr, ◌==◌, ltb, length, map, Map, insert, if◌then◌else◌,
}
use hs_blockchain.Core.Crypto.{PublicKey}
use hs_blockchain.Core.Certs.{
  QuorumCert, Vote, bytes_or_empty, validate_qc, validate_vote, build_qc, new_quorum_cert,
}
use hs_blockchain.Core.Blocks.{PbBlock, Block, is_genesis, validate_block, block_vote}
use hs_blockchain.Consensus.Validator.{Result, returned}
use hs_blockchain.Consensus.Creation.{
  Setting, State, continue, ◌>>◌, note, send_vote, send_new_view, broadcast_proposal,
  broadcast_new_view, close_done,
}
use hs_blockchain.Consensus.Genesis.{
  hash_chain_id, is_genesis_leader, build_genesis_qc, accept_vote, vote_into, broadcast_round,
  fetch_genesis, vote_genesis, on_genesis_proposal, tell_leader, accept_genesis_qc,
  on_genesis_new_view,
}
use hs_blockchain.Consensus.Created.{
  IsCertified, IsFine, from_checked-rule, pointer-rule, present-rule, check-rule, running,
  with_block, same_parts, zero_of, same_hash, close-IsFine, fetch-IsFine,
}

-- What holds of both branches, each under its test.
pub if_rule :
    {A : Type 0} (P : A → Type 0) (b : Bool) (x y : A)
    → (b ≡ true → P x)
    → (b ≡ false → P y)
    → P (if b then x else y)
if_rule P true x y hx hy = hx refl
if_rule P false x y hx hy = hy refl

module _ {W : Type 0} (r : Setting W) where
  -- The state after a call.
  abbrev pub After : Result (Unit {0}) × State W → Type 0
  After x = IsFine r x.1

  build-IsFine :
      (votes : Map Vote) (s : State W)
      → s.done ≡ false
      → IsFine r s
      → IsFine r (build_genesis_qc r votes s).1
  unfolding build_genesis_qc
  build-IsFine votes s open' i =
      from_checked-rule (IsFine r) s _ (build_qc new_quorum_cert (r.arrange (map (λ e. e.1) votes)))
        i
        (λ q e.
          running r (record s { q0 = some q; sent = broadcast_new_view q ∷ s.sent; busy = true })
            open' i.heights)

  accept-IsFine :
      (votes : Map Vote) (vote : Vote) (s : State W)
      → s.done ≡ false
      → IsFine r s
      → IsFine r (accept_vote r votes vote s).1
  unfolding accept_vote
  accept-IsFine votes vote s open' i =
      pointer-rule (IsFine r) s _ vote.voter i (λ key e. enough key)
    where
      enough :
          (key : PublicKey)
          → IsFine r
              (if ltb (length (insert key.key_str vote votes)) r.vld_store.majority
                then (returned tt, record s { votes = some (insert key.key_str vote votes) })
                else build_genesis_qc r
                    (insert key.key_str vote votes)
                    (record s { votes = some (insert key.key_str vote votes) })).1
      enough key =
          elim (Bool-cases (ltb (length (insert key.key_str vote votes)) r.vld_store.majority)) [
            | inl e ↦ rw e (
                same_parts r s (record s { votes = some (insert key.key_str vote votes) }) refl refl
                  refl i)
            | inr e ↦ rw e (
                build-IsFine (insert key.key_str vote votes)
                  (record s { votes = some (insert key.key_str vote votes) }) open'
                  (same_parts r s (record s { votes = some (insert key.key_str vote votes) }) refl
                    refl refl i))
          ]

  pub vote_into-IsFine :
      (vote : Vote) (o : Option (Map Vote)) (s : State W)
      → s.done ≡ false
      → IsFine r s
      → IsFine r (vote_into r vote o s).1
  unfolding vote_into
  vote_into-IsFine vote none s open' i = i
  vote_into-IsFine vote (some votes) s open' i =
      from_checked-rule (IsFine r) s _ (validate_vote r.crypto r.vld_store vote) i
        (λ _ e. accept-IsFine votes vote s open' i)

  pub broadcast-IsFine :
      (o : Option (Map Vote)) (q : Option QuorumCert) (s : State W)
      → IsFine r s
      → IsFine r (broadcast_round r o q s).1
  unfolding broadcast_round
  broadcast-IsFine none q s i = i
  broadcast-IsFine (some votes) (some q0) s i = i
  broadcast-IsFine (some votes) none s i =
      pointer-rule (IsFine r) s _ s.b0 i (λ b0 e.
        same_parts r s (record s { sent = broadcast_proposal b0 ∷ s.sent }) refl refl refl i)

  vote_genesis-IsFine :
      (b : Block) (pb : PbBlock) (s : State W)
      → b.pb ≡ some pb
      → not (is_genesis pb) ≡ false
      → s.done ≡ false
      → IsFine r s
      → IsFine r (vote_genesis r b pb s).1
  unfolding vote_genesis
  vote_genesis-IsFine b pb s e g open' i =
      let t = record s { b0 = some b } in
      let fine = with_block r s b pb open' e (zero_of r pb g) in
      check-rule (IsFine r) s _ (not (bytes_eq (hash_chain_id r r.chain_id) pb.parent_hash)) i (λ _.
        check-rule (IsFine r) s _ (not (is_genesis_leader r b.proposer)) i (λ _.
          check-rule (IsFine r) s _ (not (length pb.transactions == 0)) i (λ _.
            from_checked-rule (IsFine r) t _ (block_vote r.crypto r.signer pb) fine (λ v _.
              same_parts r t (record t { sent = send_vote v ∷ s.sent }) refl refl refl fine))))

  pub proposal-IsFine :
      (b : Block) (s : State W)
      → s.done ≡ false
      → IsFine r s
      → IsFine r (on_genesis_proposal r b s).1
  unfolding on_genesis_proposal
  proposal-IsFine b s open' i =
      from_checked-rule (IsFine r) s _ (validate_block r.crypto r.vld_store b) i
        (λ _ _. pointer-rule (IsFine r) s _ b.pb i (λ pb e. first pb e))
    where
      first :
          (pb : PbBlock)
          → b.pb ≡ some pb
          → IsFine r
              ((if not (is_genesis pb) then fetch_genesis r b.proposer else vote_genesis r b pb)
                s).1
      first pb e = elim (Bool-cases (not (is_genesis pb))) [
        | inl g ↦ rw g (fetch-IsFine r b.proposer s open' i)
        | inr g ↦ rw g (vote_genesis-IsFine b pb s e g open' i)
      ]

  accept_qc-IsFine :
      (b : Block) (q : QuorumCert) (s : State W)
      → s.done ≡ false
      → s.b0 ≡ some b
      → IsCertified r.crypto r.vld_store b q
      → IsFine r (accept_genesis_qc r q s).1
  unfolding accept_genesis_qc tell_leader
  accept_qc-IsFine b q s open' e c =
      if_rule After s.done _ _ (λ d. absurd_open (sym d ∙ open')) (λ _. told)
    where
      absurd_open : {A : Type 0} → true ≡ false → A
      absurd_open h = cc

      t : State W
      t = record s { q0 = some q }

      told : IsFine r ((tell_leader r q >> close_done) t).1
      told =
          if_rule
            (λ (x : Result (Unit {0}) × State W). IsFine r (continue x.0 x.1 (λ _. close_done)).1)
            (is_genesis_leader r (some r.signer.public_key)) (returned tt, t)
            (note (send_new_view q) t) (λ _. close-IsFine r t b q open' e refl c)
            (λ _. close-IsFine r (record t { sent = send_new_view q ∷ s.sent }) b q open' e refl c)

  pub new_view-IsFine :
      (q : QuorumCert) (s : State W)
      → s.done ≡ false
      → IsFine r s
      → IsFine r (on_genesis_new_view r q s).1
  unfolding on_genesis_new_view
  new_view-IsFine q s open' i =
      from_checked-rule (IsFine r) s _ (validate_qc r.crypto r.vld_store q) i (λ u v.
        present-rule (IsFine r) s _ s.b0 i (λ b eb. pointer-rule (IsFine r) s _ b.pb i (λ pb ep.
          pointer-rule (IsFine r) s _ q.pb i (λ pq eq.
            check-rule (IsFine r) s _ (not (bytes_eq pb.hash (bytes_or_empty pq.block_hash))) i
              (λ h. accept_qc-IsFine b q s open' eb (record {
                pb = pb;
                pq = pq;
                block_pb = ep;
                cert_pb = eq;
                first = i.heights b eb pb ep;
                valid = v;
                same = same_hash r pb.hash (bytes_or_empty pq.block_hash) h;
              }))))))
