-- ===== src/Consensus/Finished.antt =====
-- consensus/genesis.go: a handler that ends the creation has a certificate for its block.
use hs_blockchain.Prelude.{◌≡◌, refl, false, not, some, []}
use hs_blockchain.Core.Blocks.{proposer_vote, sign_block}
use hs_blockchain.Consensus.Creation.{Setting, State}
use hs_blockchain.Consensus.Genesis.{
  is_genesis_leader, create_genesis_block, on_genesis_vote, propose_genesis, broadcast_genesis,
  Event, broadcast_time, received_proposal, received_vote, received_new_view, handle_event,
  propose_time,
}
use hs_blockchain.Consensus.Created.{IsFine, from_checked-rule, pointer-rule, with_block}
use hs_blockchain.Consensus.Kept.{
  if_rule, After, broadcast-IsFine, vote_into-IsFine, proposal-IsFine, new_view-IsFine,
}

module _ {W : Type 0} (r : Setting W) where
  created-IsFine :
      (s : State W) → s.done ≡ false → IsFine r (record s { b0 = some (create_genesis_block r) })
  unfolding create_genesis_block sign_block
  created-IsFine s open' = with_block r s (create_genesis_block r) _ open' refl refl

  propose-IsFine : (s : State W) → s.done ≡ false → IsFine r s → IsFine r (propose_genesis r s).1
  unfolding propose_genesis on_genesis_vote
  propose-IsFine s open' i =
      let b = create_genesis_block r in
      let t = record s { votes = some []; b0 = some b } in
      let fine = created-IsFine (record s { votes = some [] }) open' in
      if_rule (After r) (not (is_genesis_leader r (some r.signer.public_key))) _ _ (λ _. i)
        (λ _. pointer-rule (IsFine r) t _ b.pb fine (λ pb e.
          from_checked-rule (IsFine r) t _ (proposer_vote r.crypto pb) fine
            (λ v _. vote_into-IsFine r v (some []) t open' fine)))

  -- A handler that no other one overlaps, in a state that is not done and whose block, if there is one,
  -- has height 0: propose, a round of the broadcast, and what a proposal, a vote or a certificate
  -- leads to leave such a state, or one that is done; and in a state that is done the node has a block of
  -- height 0 and a certificate that QuorumCert.Validate accepts and that is about that block.
  pub handle_event-IsFine :
      (e : Event) (s : State W) → s.done ≡ false → IsFine r s → IsFine r (handle_event r e s).1
  unfolding handle_event broadcast_genesis on_genesis_vote
  handle_event-IsFine propose_time s open' i = propose-IsFine s open' i
  handle_event-IsFine broadcast_time s open' i = broadcast-IsFine r s.votes s.q0 s i
  handle_event-IsFine (received_proposal b) s open' i = proposal-IsFine r b s open' i
  handle_event-IsFine (received_vote v) s open' i = vote_into-IsFine r v s.votes s open' i
  handle_event-IsFine (received_new_view q) s open' i = new_view-IsFine r q s open' i
