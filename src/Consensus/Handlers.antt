-- ===== src/Consensus/Handlers.antt =====
-- consensus/validator.go: the synchronisation of blocks that a node lacks, and what it does with a message.
use hs_blockchain.Prelude.{
  ℕ, zero, suc, true, false, Option, none, some, List, [], ◌∷◌, Bytes, if◌then◌else◌, ltb, leb, ◌-◌,
}
use hs_blockchain.Core.Certs.{QuorumCert, Vote, validate_qc, validate_vote}
use hs_blockchain.Core.Blocks.{PbBlock, Block, validate_block, is_genesis, qc_hash}
use hs_blockchain.Consensus.Validator.{
  Resources, Call, State, returned, failed, out_of_fuel, Action, ◌>>=◌, ◌>>◌, return, fail, check,
  from_checked, message, height_of, or_else, get_state_block, request_block,
  request_block_by_height, verify_with_parent_and_update_hotstuff,
}

module _ {W : Type 0} (r : Resources W) where
  -- A block goes to the engine under its parent, if that is known.
  unfoldable pub connect_block : Bytes → Block → Option Block → Action W (Unit {0})
  unfolding verify_with_parent_and_update_hotstuff
  connect_block peer blk none = fail
  connect_block peer blk (some parent) =
      verify_with_parent_and_update_hotstuff r peer blk parent false

  -- The loop of syncForwardCommitedBlocks, for as many heights as are left.
  unfoldable pub sync_forward_loop : Bytes → ℕ → ℕ → Action W (Unit {0})
  unfolding request_block_by_height get_state_block connect_block
  sync_forward_loop peer zero height = return tt
  sync_forward_loop peer (suc count) height = do
    blk ← request_block_by_height r peer height
    pb ← message blk
    parent ← get_state_block r pb.parent_hash
    connect_block peer blk parent
    sync_forward_loop peer count (suc height)

  -- syncForwardCommitedBlocks; the end is exclusive.
  unfoldable pub sync_forward_committed_blocks : Bytes → ℕ → ℕ → Action W (Unit {0})
  unfolding sync_forward_loop
  sync_forward_committed_blocks peer start end = sync_forward_loop peer (end - start) start

  -- The block that the certificate of a proposal is about.
  unfoldable pub get_qc_ref : Bytes → Bytes → Action W Block
  unfolding get_state_block request_block or_else
  get_qc_ref peer hash = do
    known ← get_state_block r hash
    or_else known (request_block r peer hash)

  -- syncMissingCommitedBlocks
  unfoldable pub sync_missing_committed_blocks : PbBlock → Action W (Unit {0})
  unfolding get_qc_ref sync_forward_committed_blocks
  sync_missing_committed_blocks pb s =
      let commit_height = r.block_height s.world in
      if leb pb.exec_height commit_height
      then (returned tt, s)
      else if is_genesis pb
      then (failed, s)
      else (get_qc_ref pb.proposer (qc_hash pb.quorum_cert) >>= λ qc_ref.
            check (ltb (height_of qc_ref) commit_height)
            >> sync_forward_committed_blocks pb.proposer (suc commit_height) pb.exec_height)
          s

  -- syncMissingParentBlocksRecursive, on fuel: the peer's answers decide how deep it goes.
  unfoldable pub sync_missing_parent_blocks : ℕ → Bytes → Bytes → Action W Block
  unfolding get_state_block request_block verify_with_parent_and_update_hotstuff or_else
  sync_missing_parent_blocks zero peer parent_hash = λ s. (out_of_fuel, s)
  sync_missing_parent_blocks (suc fuel) peer parent_hash = do
    known ← get_state_block r parent_hash
    or_else known (do
      parent ← request_block r peer parent_hash
      pb ← message parent
      grand_parent ← sync_missing_parent_blocks fuel peer pb.parent_hash
      verify_with_parent_and_update_hotstuff r peer parent grand_parent false
      return parent)

  -- getParentBlock
  unfoldable pub get_parent_block : ℕ → PbBlock → Action W Block
  unfolding get_state_block sync_missing_committed_blocks sync_missing_parent_blocks or_else
  get_parent_block fuel pb = do
    known ← get_state_block r pb.parent_hash
    or_else known (
        sync_missing_committed_blocks pb
        >> sync_missing_parent_blocks fuel pb.proposer pb.parent_hash)

  -- onReceiveProposal
  unfoldable pub on_receive_proposal : ℕ → Block → Action W (Unit {0})
  unfolding validate_block get_parent_block verify_with_parent_and_update_hotstuff
  on_receive_proposal fuel proposal = do
    from_checked (validate_block (r.crypto) (r.vld_store) proposal)
    pb ← message proposal
    parent ← get_parent_block fuel pb
    verify_with_parent_and_update_hotstuff r pb.proposer proposal parent true

  -- onReceiveVote
  unfoldable pub on_receive_vote : Vote → Action W (Unit {0})
  unfolding validate_vote
  on_receive_vote vote = from_checked (validate_vote (r.crypto) (r.vld_store) vote) >> λ s. (
    returned tt,
    record s { world = r.receive_vote vote s.world; calls = Call.receive_vote vote ∷ s.calls },
  )

  -- onReceiveNewView
  unfoldable pub on_receive_new_view : QuorumCert → Action W (Unit {0})
  unfolding validate_qc
  on_receive_new_view qc = from_checked (validate_qc (r.crypto) (r.vld_store) qc) >> λ s. (
    returned tt,
    record s { world = r.update_qc_high qc s.world; calls = Call.update_qc_high qc ∷ s.calls },
  )

-- The messages of the three loops, in the order in which the node takes them.
pub data Event : Type 0 where
  proposal : Block → Event
  vote : Vote → Event
  new_view : QuorumCert → Event

module _ {W : Type 0} (r : Resources W) (fuel : ℕ) where
  -- The error of a handler is logged, and the loop goes on.
  unfoldable pub handle : Event → State W → State W
  unfolding on_receive_proposal on_receive_vote on_receive_new_view
  handle (Event.proposal blk) s = (on_receive_proposal r fuel blk s).1
  handle (Event.vote v) s = (on_receive_vote r v s).1
  handle (Event.new_view qc) s = (on_receive_new_view r qc s).1

  unfoldable pub handle_all : List Event → State W → State W
  unfolding handle
  handle_all [] s = s
  handle_all (e ∷ es) s = handle_all es (handle e s)
