-- ===== src/Core/Blocks.antt =====
-- core/block.go and core/transaction.go: sums, signing and validation.
use hs_blockchain.Prelude.{
  ℕ, Bool, not, Option, none, some, List, [], ◌++◌, Bytes, bytes_eq, if◌then◌else◌, ◌==◌,
}
use mathlib.Core.List.{flatten}
use hs_blockchain.Core.Crypto.{
  Crypto, CoreError, Checked, ok, err, panic, ◌>>=◌, ◌>>◌, check, PublicKey, Signature,
  new_public_key, new_signature, verify_signature, be64,
}
use hs_blockchain.Core.Validators.{ValidatorStore, is_validator}
use hs_blockchain.Core.Certs.{
  PbQuorumCert, QuorumCert, PbVote, Vote, bytes_or_empty, validate_qc, set_qc_data, set_vote_data,
}

-- Signer: a private key, or any other holder of one.
pub record Signer : Type 0 where
  pub sign : Bytes → Signature
  pub public_key : PublicKey

-- core_pb.Block. Nil and empty byte strings are not told apart in these fields; the code does not
-- either. The timestamp is the bit pattern of an int64.
pub record PbBlock : Type 0 where
  pub hash : Bytes
  pub height : ℕ
  pub parent_hash : Bytes
  pub proposer : Bytes
  pub quorum_cert : Option PbQuorumCert
  pub exec_height : ℕ
  pub merkle_root : Bytes
  pub timestamp : ℕ
  pub transactions : List Bytes
  pub signature : Bytes

pub record Block : Type 0 where
  pub pb : Option PbBlock
  pub proposer : Option PublicKey
  pub quorum_cert : Option QuorumCert

-- core_pb.Transaction; the nonce is the bit pattern of an int64.
pub record PbTransaction : Type 0 where
  pub hash : Bytes
  pub nonce : ℕ
  pub sender : Bytes
  pub code_addr : Bytes
  pub input : Bytes
  pub expiry : ℕ
  pub signature : Bytes

pub record Transaction : Type 0 where
  pub pb : Option PbTransaction
  pub sender : Option PublicKey

-- The hash of the certificate, where the block has one.
abbrev pub qc_hash : Option PbQuorumCert → Bytes
qc_hash none = []
qc_hash (some qc) = bytes_or_empty qc.block_hash

abbrev pub is_genesis : PbBlock → Bool
is_genesis pb = pb.height == 0

module _ (c : Crypto) where
  -- Block.Sum
  unfoldable pub block_sum : PbBlock → Bytes
  unfolding be64
  block_sum pb = c.sha3 (
      be64 pb.height
      ++ (pb.parent_hash
          ++ (pb.proposer
              ++ (qc_hash pb.quorum_cert
                  ++ (be64 pb.exec_height
                      ++ (pb.merkle_root ++ (be64 pb.timestamp ++ flatten pb.transactions)))))))

  -- The certificate is validated on every block but the genesis block.
  unfoldable pub validate_block_qc :
      ValidatorStore → PbBlock → Option QuorumCert → Checked (Unit {0})
  unfolding validate_qc
  validate_block_qc vs pb none = if is_genesis pb then ok tt else panic
  validate_block_qc vs pb (some qc) = if is_genesis pb then ok tt else validate_qc c vs qc

  -- Block.Validate. The error of newSignature is looked at after the signature is used, so a proposer
  -- key of a wrong size is a nil pointer.
  unfoldable pub validate_block : ValidatorStore → Block → Checked (Unit {0})
  unfolding validate_block_qc block_sum new_signature is_validator verify_signature
  validate_block vs blk = elim (blk.pb) [
    | none ↦ err CoreError.nil_block
    | some pb ↦ do
      validate_block_qc vs pb blk.quorum_cert
      check (not (bytes_eq (block_sum pb) pb.hash)) CoreError.invalid_block_hash
      elim (new_signature c (some (record { pub_key = pb.proposer; value = pb.signature }))) [
        | panic ↦ panic
        | err e ↦ panic
        | ok sig ↦ do
          check (not (is_validator vs (some sig.pub_key))) CoreError.invalid_validator
          check (not (verify_signature c sig pb.hash)) CoreError.invalid_sig
          ok tt
      ]
  ]

  -- Block.Sign
  unfoldable pub sign_block : Signer → PbBlock → Option QuorumCert → Block
  unfolding block_sum
  sign_block signer pb qc =
      let named = record pb { proposer = signer.public_key.key } in
      let hash = block_sum named in
      record {
        pb = some (record named { hash = hash; signature = (signer.sign hash).pb.value });
        proposer = some signer.public_key;
        quorum_cert = qc;
      }

  -- Block.setData
  unfoldable pub set_block_data : PbBlock → Checked Block
  unfolding set_qc_data new_public_key
  set_block_data pb = do
    qc ← if is_genesis pb then ok none else (set_qc_data c pb.quorum_cert >>= λ q. ok (some q))
    key ← new_public_key c pb.proposer
    ok (record { pb = some pb; proposer = some key; quorum_cert = qc })

  -- Block.Vote and Block.ProposerVote; setData's error is dropped by both, and leaves no voter.
  unfoldable pub vote_of : Option PbVote → Checked Vote
  unfolding set_vote_data
  vote_of pb = elim (set_vote_data c pb) [
    | ok vote ↦ ok vote
    | err e ↦ ok (record { pb = pb; voter = none })
    | panic ↦ panic
  ]

  unfoldable pub block_vote : Signer → PbBlock → Checked Vote
  unfolding vote_of
  block_vote signer pb =
      vote_of
        (some (record { block_hash = some pb.hash; signature = some (signer.sign pb.hash).pb }))

  unfoldable pub proposer_vote : PbBlock → Checked Vote
  unfolding vote_of
  proposer_vote pb = vote_of (
      some (record {
        block_hash = some pb.hash;
        signature = some (record { pub_key = pb.proposer; value = pb.signature });
      }))

  -- Transaction.Sum
  unfoldable pub tx_sum : PbTransaction → Bytes
  unfolding be64
  tx_sum pb =
      c.sha3 (be64 pb.nonce ++ (pb.sender ++ (pb.code_addr ++ (pb.input ++ be64 pb.expiry))))

  -- Transaction.Validate
  unfoldable pub validate_tx : Transaction → Checked (Unit {0})
  unfolding tx_sum new_signature verify_signature
  validate_tx tx = elim (tx.pb) [
    | none ↦ err CoreError.nil_tx
    | some pb ↦ do
      check (not (bytes_eq (tx_sum pb) pb.hash)) CoreError.invalid_tx_hash
      sig ← new_signature c (some (record { pub_key = pb.sender; value = pb.signature }))
      check (not (verify_signature c sig pb.hash)) CoreError.invalid_sig
      ok tt
  ]

  -- Transaction.Sign
  unfoldable pub sign_tx : Signer → PbTransaction → Transaction
  unfolding tx_sum
  sign_tx signer pb =
      let named = record pb { sender = signer.public_key.key } in
      let hash = tx_sum named in
      record {
        pb = some (record named { hash = hash; signature = (signer.sign hash).pb.value });
        sender = some signer.public_key;
      }
