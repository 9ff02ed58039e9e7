-- ===== src/Consensus/Genesis.antt =====
-- consensus/genesis.go: what each handler of the creation of the genesis block does when no other one runs
-- meanwhile. In the program propose and the loops of proposals, votes and certificates are goroutines
-- that can overlap, and a loop may take a message after the end; that is not modelled.
use hs_blockchain.Prelude.{
  ℕ, Bool, true, false, not, Option, none, some, [], Bytes, bytes_eq, if◌then◌else◌, ◌==◌, ltb,
  length, map, Map, insert,
}
use hs_blockchain.Core.Crypto.{PublicKey, be64}
use hs_blockchain.Core.Validators.{is_validator, get_validator_index}
use hs_blockchain.Core.Certs.{
  QuorumCert, Vote, bytes_or_empty, new_quorum_cert, build_qc, validate_qc, validate_vote,
}
use hs_blockchain.Core.Blocks.{
  PbBlock, Block, is_genesis, validate_block, set_block_data, sign_block, block_vote, proposer_vote,
}
use hs_blockchain.Consensus.Validator.{returned, failed}
use hs_blockchain.Consensus.Creation.{
  Setting, broadcast_proposal, send_vote, broadcast_new_view, send_new_view, Action, ◌>>=◌, ◌>>◌,
  check, from_checked, pointer, present, note, set_b0, set_q0, close_done, get_b0,
}

-- What runs a handler: the start, the time of another broadcast of the proposal, or a message.
pub data Event : Type 0 where
  propose_time : Event
  broadcast_time : Event
  received_proposal : Block → Event
  received_vote : Vote → Event
  received_new_view : QuorumCert → Event

module _ {W : Type 0} (r : Setting W) where
  -- hashChainID
  unfoldable pub hash_chain_id : ℕ → Bytes
  hash_chain_id id = r.crypto.sha3 (be64 id)

  -- isLeader
  unfoldable pub is_genesis_leader : Option PublicKey → Bool
  is_genesis_leader key =
      if not (is_validator r.vld_store key) then false else get_validator_index r.vld_store key == 0

  -- createGenesisBlock
  unfoldable pub create_genesis_block : Block
  unfolding hash_chain_id
  create_genesis_block =
      sign_block r.crypto r.signer
        (record {
          hash = [];
          height = 0;
          parent_hash = hash_chain_id r.chain_id;
          proposer = [];
          quorum_cert = none;
          exec_height = 0;
          merkle_root = [];
          timestamp = r.now;
          transactions = [];
          signature = [];
        })
        none

  -- The end of acceptVote, with enough votes: the certificate, and broadcastQC.
  unfoldable pub build_genesis_qc : Map Vote → Action W (Unit {0})
  build_genesis_qc votes = do
    q0 ← from_checked (build_qc new_quorum_cert (r.arrange (map (λ e. e.1) votes)))
    set_q0 q0
    note (broadcast_new_view q0)
    λ s. (returned tt, record s { busy = true })

  -- acceptVote
  unfoldable pub accept_vote : Map Vote → Vote → Action W (Unit {0})
  unfolding build_genesis_qc
  accept_vote votes vote = do
    voter ← pointer vote.voter
    let votes' = insert voter.key_str vote votes
    λ s.
        let s' = record s { votes = some votes' } in
        if ltb (length votes') r.vld_store.majority
        then (returned tt, s')
        else build_genesis_qc votes' s'

  -- onReceiveVote, with the map of votes.
  unfoldable pub vote_into : Vote → Option (Map Vote) → Action W (Unit {0})
  unfolding accept_vote
  vote_into vote none s = (failed, s)
  vote_into vote (some votes) s =
      (from_checked (validate_vote r.crypto r.vld_store vote) >> accept_vote votes vote) s

  unfoldable pub on_genesis_vote : Vote → Action W (Unit {0})
  unfolding vote_into
  on_genesis_vote vote s = vote_into vote s.votes s

  -- propose
  unfoldable pub propose_genesis : Action W (Unit {0})
  unfolding create_genesis_block on_genesis_vote is_genesis_leader
  propose_genesis s =
      if not (is_genesis_leader (some r.signer.public_key))
      then (returned tt, s)
      else (do
        set_b0 create_genesis_block
        pb ← pointer create_genesis_block.pb
        vote ← from_checked (proposer_vote r.crypto pb)
        on_genesis_vote vote)
          (record s { votes = some [] })

  -- One round of broadcastProposalLoop, which only the leader starts: with the map of votes and the
  -- certificate.
  unfoldable pub broadcast_round : Option (Map Vote) → Option QuorumCert → Action W (Unit {0})
  broadcast_round none q s = (returned tt, s)
  broadcast_round (some votes) (some q0) s = (returned tt, s)
  broadcast_round (some votes) none s =
      (get_b0 >>= λ b. pointer b >>= λ b0. note (broadcast_proposal b0)) s

  unfoldable pub broadcast_genesis : Action W (Unit {0})
  unfolding broadcast_round
  broadcast_genesis s = broadcast_round s.votes s.q0 s

  -- RequestBlockByHeight of p2p/msg_service.go, with the answer of the peer.
  unfoldable pub unmarshal_answer : Option PbBlock → Action W Block
  unmarshal_answer none = λ s. (failed, s)
  unmarshal_answer (some pb) = from_checked (set_block_data r.crypto pb)

  -- requestBlockByHeight
  unfoldable pub request_valid_block : Option PublicKey → ℕ → Action W Block
  unfolding unmarshal_answer
  request_valid_block peer height s =
      let (pb, world) = r.answer peer height s.world in
      (do
        blk ← unmarshal_answer pb
        from_checked (validate_block r.crypto r.vld_store blk)
        λ s'. (returned blk, s'))
        (record s { world = world })

  -- fetchGenesisBlockAndQC
  unfoldable pub fetch_genesis : Option PublicKey → Action W (Unit {0})
  unfolding request_valid_block close_done
  fetch_genesis peer = do
    b0 ← request_valid_block peer 0
    pb0 ← pointer b0.pb
    check (not (is_genesis pb0))
    b1 ← request_valid_block peer 1
    qc ← pointer b1.quorum_cert
    pq ← pointer qc.pb
    check (not (bytes_eq pb0.hash (bytes_or_empty pq.block_hash)))
    set_b0 b0
    set_q0 qc
    close_done

  -- onReceiveProposal, for a genesis block
  unfoldable pub vote_genesis : Block → PbBlock → Action W (Unit {0})
  unfolding hash_chain_id is_genesis_leader
  vote_genesis proposal pb = do
    check (not (bytes_eq (hash_chain_id r.chain_id) pb.parent_hash))
    check (not (is_genesis_leader proposal.proposer))
    check (not (length pb.transactions == 0))
    set_b0 proposal
    vote ← from_checked (block_vote r.crypto r.signer pb)
    note (send_vote vote)

  -- onReceiveProposal
  unfoldable pub on_genesis_proposal : Block → Action W (Unit {0})
  unfolding fetch_genesis vote_genesis
  on_genesis_proposal proposal = do
    from_checked (validate_block r.crypto r.vld_store proposal)
    pb ← pointer proposal.pb
    if not (is_genesis pb) then fetch_genesis proposal.proposer else vote_genesis proposal pb

  -- A node that is not the leader passes the certificate on to it.
  unfoldable pub tell_leader : QuorumCert → Action W (Unit {0})
  unfolding is_genesis_leader
  tell_leader qc s =
      if is_genesis_leader (some r.signer.public_key)
      then (returned tt, s)
      else note (send_new_view qc) s

  -- acceptQC
  unfoldable pub accept_genesis_qc : QuorumCert → Action W (Unit {0})
  unfolding close_done tell_leader
  accept_genesis_qc qc s =
      if s.done then (returned tt, s) else (do set_q0 qc; tell_leader qc; close_done) s

  -- onReceiveNewView
  unfoldable pub on_genesis_new_view : QuorumCert → Action W (Unit {0})
  unfolding accept_genesis_qc
  on_genesis_new_view qc = do
    from_checked (validate_qc r.crypto r.vld_store qc)
    b ← get_b0
    b0 ← present b
    pb ← pointer b0.pb
    pq ← pointer qc.pb
    check (not (bytes_eq pb.hash (bytes_or_empty pq.block_hash)))
    accept_genesis_qc qc

  -- propose, a round of the broadcast or of one of the three loops, which takes a message.
  unfoldable pub handle_event : Event → Action W (Unit {0})
  unfolding propose_genesis broadcast_genesis on_genesis_proposal on_genesis_vote
      on_genesis_new_view
  handle_event propose_time s = propose_genesis s
  handle_event broadcast_time s = broadcast_genesis s
  handle_event (received_proposal b) s = on_genesis_proposal b s
  handle_event (received_vote v) s = on_genesis_vote v s
  handle_event (received_new_view q) s = on_genesis_new_view q s
