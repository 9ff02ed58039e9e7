-- ===== src/Core/Signing.antt =====
-- What core/block.go, core/transaction.go and core/vote.go sign, they accept.
use hs_blockchain.Prelude.{
  ◌≡◌, refl, sym, ap, Bool, true, false, not, Option, none, some, Bytes, bytes_eq_refl, length,
}
use hs_blockchain.Core.Crypto.{
  Crypto, CoreError, check, ◌>>◌, ◌>>=◌, ok, PbSignature, new_public_key, new_signature,
  verify_signature,
}
use hs_blockchain.Core.Validators.{ValidatorStore, is_validator}
use hs_blockchain.Core.Certs.{
  QuorumCert, Vote, vote_hash, validate_vote, set_vote_data, set_qc_data,
}
use hs_blockchain.Core.Blocks.{
  Signer, PbBlock, PbTransaction, block_sum, validate_block_qc, validate_block, sign_block, vote_of,
  block_vote, proposer_vote, is_genesis, set_block_data, tx_sum, validate_tx, sign_tx,
}

-- A signer with a key of the right size, as NewPublicKey makes it, whose signatures verify and name
-- that key: what ed25519 documents of a key pair.
pub record IsKeyPair (c : Crypto) (signer : Signer) : Type 0 where
  pub key_size : length signer.public_key.key ≡ 32
  pub key_text : signer.public_key.key_str ≡ c.base64 signer.public_key.key
  pub names_key : (msg : Bytes) → (signer.sign msg).pb.pub_key ≡ signer.public_key.key
  pub verifies :
      (msg : Bytes) → c.verify signer.public_key.key msg (signer.sign msg).pb.value ≡ true

check_ok : (b : Bool) (e : CoreError) → (check b e >>= λ _. ok tt) ≡ check b e
check_ok true e = refl
check_ok false e = refl

-- The certificate of a block is looked at with its height only.
validate_block_qc-signed :
    (c : Crypto) (vs : ValidatorStore) (pb : PbBlock) (qc : Option QuorumCert)
    (hash key value : Bytes)
    → validate_block_qc c vs (record pb { hash = hash; proposer = key; signature = value }) qc
      ≡ validate_block_qc c vs pb qc
unfolding validate_block_qc
validate_block_qc-signed c vs pb none hash key value = refl
validate_block_qc-signed c vs pb (some qc) hash key value = refl

module _ (c : Crypto) (signer : Signer) (pair : IsKeyPair c signer) where
  new_public_key-signer : new_public_key c signer.public_key.key ≡ ok signer.public_key
  unfolding new_public_key
  new_public_key-signer =
      rw pair.key_size
        (ap (λ t. ok (record { key = signer.public_key.key; key_str = t })) (sym pair.key_text))

  new_signature-signer :
      (pb : PbSignature)
      → pb.pub_key ≡ signer.public_key.key
      → new_signature c (some pb) ≡ ok (record { pb = pb; pub_key = signer.public_key })
  unfolding new_signature
  new_signature-signer pb e = rw (e, new_public_key-signer) refl

  -- Whatever the fields of a transaction are, Validate accepts it once Sign has signed it.
  pub validate_tx-sign_tx : (pb : PbTransaction) → validate_tx c (sign_tx c signer pb) ≡ ok tt
  unfolding validate_tx sign_tx new_signature verify_signature
  validate_tx-sign_tx pb =
      let named = record pb { sender = signer.public_key.key } in
      rw (bytes_eq_refl (tx_sum c named), new_public_key-signer, pair.verifies (tx_sum c named))
        refl

  -- Validate of a block that Sign has signed asks for the certificate and for the signer to be a
  -- validator, and for nothing else: the certificate's error is its error, and the hash and the
  -- signature are always right.
  pub validate_block-sign_block :
      (vs : ValidatorStore) (pb : PbBlock) (qc : Option QuorumCert)
      → validate_block c vs (sign_block c signer pb qc) ≡ (
          validate_block_qc c vs pb qc
          >> check (not (is_validator vs (some signer.public_key))) CoreError.invalid_validator)
  unfolding validate_block sign_block verify_signature validate_block_qc
  validate_block-sign_block vs pb qc =
      let named = record pb { proposer = signer.public_key.key } in
      let hash = block_sum c named in
      let value = (signer.sign hash).pb.value in
      let signed =
        new_signature-signer (record { pub_key = signer.public_key.key; value = value }) refl in
      rw (bytes_eq_refl hash, signed)
        (rw (pair.verifies hash, check_ok, validate_block_qc-signed) refl)

  -- The vote that a validator signs for a block is accepted: Block.Vote gives a vote of the signer for
  -- the block's hash, and Vote.Validate accepts it exactly when the signer is a validator.
  pub validate_vote-block_vote :
      (vs : ValidatorStore) (pb : PbBlock)
      → (vote : Vote) × (block_vote c signer pb ≡ ok vote)
        × (vote_hash vote ≡ some pb.hash)
        × (vote.voter ≡ some signer.public_key)
        × (validate_vote c vs vote
            ≡ check (not (is_validator vs (some signer.public_key))) CoreError.invalid_validator)
  unfolding validate_vote block_vote vote_of set_vote_data
  validate_vote-block_vote vs pb =
      let signed = new_signature-signer (signer.sign pb.hash).pb (pair.names_key pb.hash) in
      (
        record {
          pb =
              some
                (record { block_hash = some pb.hash; signature = some (signer.sign pb.hash).pb });
          voter = some signer.public_key;
        },
        rw (signed, block_vote, vote_of, set_vote_data) refl,
        refl,
        refl,
        rw signed (rw (pair.verifies pb.hash, check_ok) refl),
      )

  -- The message of a signed block.
  unfoldable pub signed_message : PbBlock → PbBlock
  unfolding block_sum
  signed_message pb =
      let hash = block_sum c (record pb { proposer = signer.public_key.key }) in
      record pb {
        proposer = signer.public_key.key;
        hash = hash;
        signature = (signer.sign hash).pb.value;
      }

  -- A node that reads the message of a signed block has the block, where it reads the certificate.
  pub set_block_data-sign_block :
      (pb : PbBlock) (qc : QuorumCert)
      → is_genesis pb ≡ false
      → set_qc_data c pb.quorum_cert ≡ ok qc
      → set_block_data c (signed_message pb) ≡ ok (sign_block c signer pb (some qc))
  unfolding set_block_data sign_block signed_message
  set_block_data-sign_block pb qc h e = rw (h, e, new_public_key-signer) refl

  -- The signature of a block is a vote of its proposer.
  pub proposer_vote-sign_block :
      (vs : ValidatorStore) (pb : PbBlock)
      → is_validator vs (some signer.public_key) ≡ true
      → (vote : Vote) × (proposer_vote c (signed_message pb) ≡ ok vote)
        × (vote.voter ≡ some signer.public_key)
        × (validate_vote c vs vote ≡ ok tt)
  unfolding validate_vote proposer_vote vote_of set_vote_data signed_message
  proposer_vote-sign_block vs pb m =
      let read = signed_message pb in
      let sig : PbSignature = record { pub_key = read.proposer; value = read.signature } in
      let signed = new_signature-signer sig refl in
      (
        record {
          pb = some (record { block_hash = some read.hash; signature = some sig });
          voter = some signer.public_key;
        },
        rw (signed, proposer_vote, vote_of, set_vote_data) refl,
        refl,
        rw signed (rw (m, pair.verifies read.hash) refl),
      )
