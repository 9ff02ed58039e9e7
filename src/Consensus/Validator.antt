-- ===== src/Consensus/Validator.antt =====
-- consensus/validator.go, with the blocks of state.go: what a node does with a proposal, a vote and a
-- certificate that it receives. The handlers of proposals hold mtxProposal, so they do not overlap.
use hs_blockchain.Prelude.{
  ℕ, suc, Bool, true, false, not, ◌&&◌, Option, none, some, List, [], ◌∷◌, Bytes, bytes_eq,
  if◌then◌else◌, ◌==◌, ltb, Map, lookup, insert,
}
use hs_blockchain.Core.Crypto.{Crypto, Checked, ok, err, panic}
use hs_blockchain.Core.Certs.{QuorumCert, Vote}
use hs_blockchain.Core.Blocks.{PbBlock, Block, PbTransaction, validate_block}
use hs_blockchain.Core.Validators.{ValidatorStore}

-- What the handlers use of the other parts, over the state of all of them: the storage, the pool, the
-- leader, the network and the engine's two calls with a block.
pub record Resources (W : Type 0) : Type 0 where
  pub crypto : Crypto
  pub vld_store : ValidatorStore
  pub stored_block : Bytes → W → Option Block
  pub block_height : W → ℕ
  pub merkle_root : W → Bytes
  pub has_tx : Bytes → W → Bool
  pub get_tx : Bytes → W → Option PbTransaction
  pub sync_txs : Bytes → List Bytes → W → Bool × W
  pub request_block : Bytes → Bytes → W → Option Block × W
  pub request_block_by_height : Bytes → ℕ → W → Option Block × W
  pub is_leader : Bytes → W → Bool
  pub committed_height : W → ℕ
  pub update : Block → W → W
  pub receive_proposal : Block → W → W
  pub receive_vote : Vote → W → W
  pub update_qc_high : QuorumCert → W → W

-- The calls of the engine, the last one first; a proposal with the state of the other parts at the call.
pub data Call (W : Type 0) : Type 0 where
  update : Block → Call W
  receive_proposal : Block → W → Call W
  receive_vote : Vote → Call W
  update_qc_high : QuorumCert → Call W

pub record State (W : Type 0) : Type 0 where
  pub world : W
  pub blocks : Map Block
  pub calls : List (Call W)

-- How a call ends: with a value, an error, a run-time panic, or without fuel.
pub data Result {ℓ} (A : Type ℓ) : Type ℓ where
  returned : A → Result A
  failed panicked out_of_fuel : Result A

abbrev pub Action : Type 0 → Type 0 → Type 0
Action W A = State W → Result A × State W

-- The rest of a call, unless it has ended.
abbrev pub continue : {W A B : Type 0} → Result A → State W → (A → Action W B) → Result B × State W
continue (returned a) s f = f a s
continue failed s f = (failed, s)
continue panicked s f = (panicked, s)
continue out_of_fuel s f = (out_of_fuel, s)

infixl 5 ◌>>=◌ ◌>>◌
abbrev pub ◌>>=◌ : {W A B : Type 0} → Action W A → (A → Action W B) → Action W B
m >>= f = λ s. continue (m s).0 (m s).1 f

abbrev pub ◌>>◌ : {W B : Type 0} → Action W (Unit {0}) → Action W B → Action W B
m >> k = m >>= λ _. k

abbrev pub return : {W A : Type 0} → A → Action W A
return a s = (returned a, s)

abbrev pub fail : {W A : Type 0} → Action W A
fail s = (failed, s)

-- `if failed { return an error }`
abbrev pub check : {W : Type 0} → Bool → Action W (Unit {0})
check true s = (failed, s)
check false s = (returned tt, s)

abbrev pub from_checked : {W : Type 0} → Checked (Unit {0}) → Action W (Unit {0})
from_checked (ok a) s = (returned tt, s)
from_checked (err e) s = (failed, s)
from_checked panic s = (panicked, s)

-- The message of a block; a nil one is a nil pointer.
abbrev pub message_of : {W : Type 0} → Option PbBlock → Action W PbBlock
message_of none s = (panicked, s)
message_of (some pb) s = (returned pb, s)

abbrev pub message : {W : Type 0} → Block → Action W PbBlock
message blk = message_of blk.pb

abbrev pub block_hash : Block → Bytes
block_hash blk = elim (blk.pb) [ none ↦ [] | some pb ↦ pb.hash ]

abbrev pub height_of : Block → ℕ
height_of blk = elim (blk.pb) [ none ↦ 0 | some pb ↦ pb.height ]

-- A block that is there, or what another call gives.
unfoldable pub or_else : {W : Type 0} → Option Block → Action W Block → Action W Block
or_else (some blk) m = return blk
or_else none m = m

-- setBlock of state.go
unfoldable pub set_state_block : {W : Type 0} → Block → State W → State W
set_state_block blk s = record s { blocks = insert (block_hash blk) blk s.blocks }

-- What getBlock does with the block of the state and the block of the storage.
unfoldable pub get_or_keep : {W : Type 0} → Option Block → Option Block → Action W (Option Block)
unfolding set_state_block
get_or_keep (some blk) stored s = (returned (some blk), s)
get_or_keep none none s = (returned none, s)
get_or_keep none (some blk) s = (returned (some blk), set_state_block blk s)

module _ {W : Type 0} (r : Resources W) where
  -- getBlock of state.go: a block from the storage is kept.
  unfoldable pub get_state_block : Bytes → Action W (Option Block)
  unfolding get_or_keep
  get_state_block hash s = get_or_keep (lookup hash s.blocks) (r.stored_block hash s.world) s

  -- What requestBlock and requestBlockByHeight do with an answer.
  unfoldable pub accept_answer : Option Block × W → Action W Block
  unfolding validate_block
  accept_answer (none, w) s = (failed, record s { world = w })
  accept_answer (some blk, w) s =
      (from_checked (validate_block (r.crypto) (r.vld_store) blk) >>= λ _. return blk)
        (record s { world = w })

  -- requestBlock
  unfoldable pub request_block : Bytes → Bytes → Action W Block
  unfolding accept_answer
  request_block peer hash s = accept_answer (r.request_block peer hash s.world) s

  -- requestBlockByHeight
  unfoldable pub request_block_by_height : Bytes → ℕ → Action W Block
  unfolding accept_answer
  request_block_by_height peer height s =
      accept_answer (r.request_block_by_height peer height s.world) s

  -- The engine's Update and OnReceiveProposal
  unfoldable pub call_update : Block → State W → State W
  call_update blk s = record s { world = r.update blk s.world; calls = Call.update blk ∷ s.calls }

  unfoldable pub call_receive_proposal : Block → State W → State W
  call_receive_proposal blk s = record s {
    world = r.receive_proposal blk s.world;
    calls = Call.receive_proposal blk s.world ∷ s.calls;
  }

  -- verifyProposalTxs: each transaction is not committed, is in the pool, and is not expired.
  unfoldable pub verify_proposal_txs : ℕ → List Bytes → W → Bool
  verify_proposal_txs height [] w = true
  verify_proposal_txs height (hash ∷ hashes) w =
      let rest = verify_proposal_txs height hashes w in
      if r.has_tx hash w then false else elim (r.get_tx hash w) [
        | none ↦ false
        | some tx ↦ if not (tx.expiry == 0) && ltb tx.expiry height then false else rest
      ]

  -- verifyMerkleRoot
  unfoldable pub verify_merkle_root : PbBlock → W → Bool
  verify_merkle_root pb w =
      if not (r.block_height w == pb.exec_height)
      then false
      else bytes_eq (r.merkle_root w) pb.merkle_root

  -- verifyProposalToVote
  unfoldable pub verify_proposal_to_vote : PbBlock → W → Bool
  unfolding verify_merkle_root verify_proposal_txs
  verify_proposal_to_vote pb w =
      if not (r.is_leader pb.proposer w)
      then false
      else if not (r.committed_height w == 0) && not (verify_merkle_root pb w)
      then false
      else verify_proposal_txs pb.height pb.transactions w

  -- updateHotstuff: a block that may not be voted for goes to the engine without a vote.
  unfoldable pub update_hotstuff : Block → PbBlock → Bool → Action W (Unit {0})
  unfolding call_update call_receive_proposal verify_proposal_to_vote
  update_hotstuff blk pb voting s =
      if not voting
      then (returned tt, call_update blk s)
      else if not (verify_proposal_to_vote pb s.world)
      then (failed, call_update blk s)
      else (returned tt, call_receive_proposal blk s)

  -- SyncTxs of the pool
  unfoldable pub sync_txs : Bytes → List Bytes → Action W (Unit {0})
  sync_txs peer hashes s =
      let (synced, w) = r.sync_txs peer hashes s.world in
      ((if synced then returned tt else failed), record s { world = w })

  -- verifyWithParentAndUpdateHotstuff
  unfoldable pub verify_with_parent_and_update_hotstuff :
      Bytes → Block → Block → Bool → Action W (Unit {0})
  unfolding sync_txs set_state_block update_hotstuff
  verify_with_parent_and_update_hotstuff peer blk parent voting = do
    pb ← message blk
    parent_pb ← message parent
    check (not (pb.height == suc parent_pb.height))
    sync_txs peer pb.transactions
    (λ s. update_hotstuff blk pb voting (set_state_block blk s))
