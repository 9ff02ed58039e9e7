-- ===== src/Consensus/Models.antt =====
-- consensus/hs_models.go: the blocks, the certificates and the votes as the engine sees them, over a block
-- store. `store` is what getBlock of state.go answers during a run. A block stands for its message, and a
-- certificate for its message, out of which setData reads its signatures; `none` is nil.
use hs_blockchain.Prelude.{ℕ, Bool, false, Option, none, some, [], Bytes, bytes_eq, if◌then◌else◌}
use hs_blockchain.Core.Certs.{PbQuorumCert, PbVote, Vote, bytes_or_empty}
use hs_blockchain.Core.Blocks.{PbBlock, is_genesis}

-- hsVote.Voter
unfoldable pub hs_voter : Vote → Bytes
hs_voter vote = elim (vote.voter) [ none ↦ [] | some key ↦ key.key_str ]

-- hsBlock.Height
unfoldable pub hs_height : PbBlock → ℕ
hs_height b = b.height

-- hsBlock.Equal
unfoldable pub hs_equal : PbBlock → Option PbBlock → Bool
hs_equal b none = false
hs_equal b (some b2) = bytes_eq b.hash b2.hash

-- hsBlock.Justify
unfoldable pub hs_justify : PbBlock → Option PbQuorumCert
hs_justify b = if is_genesis b then none else b.quorum_cert

module _ (store : Bytes → Option PbBlock) where
  -- hsVote.Block
  unfoldable pub hs_vote_block : PbVote → Option PbBlock
  hs_vote_block vote = store (bytes_or_empty vote.block_hash)

  -- hsQC.Block
  unfoldable pub hs_qc_block : Option PbQuorumCert → Option PbBlock
  hs_qc_block none = none
  hs_qc_block (some qc) = store (bytes_or_empty qc.block_hash)

  -- hsBlock.Parent
  unfoldable pub hs_parent : PbBlock → Option PbBlock
  hs_parent b = store b.parent_hash

  -- qcRefHeight
  unfoldable pub qc_ref_height : Option PbQuorumCert → ℕ
  unfolding hs_qc_block hs_height
  qc_ref_height qc = elim (hs_qc_block qc) [ none ↦ 0 | some ref ↦ hs_height ref ]
