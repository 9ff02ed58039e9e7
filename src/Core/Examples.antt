-- ===== src/Core/Examples.antt =====
-- Four validators under a toy signature scheme: a signature's value is the message after the key.
use hs_blockchain.Prelude.{
  ℕ, ◌≡◌, refl, ◌+◌, ◌-◌, ◌*◌, ◌/◌, ◌≤◌, ◌<◌, ◌↔◌, not, some, List, [], ◌∷◌, ◌++◌, Bytes, bytes_eq,
  bytes_eq_refl, replicate, length, has, All, Distinct, true, arith, insert, contains, map, shared,
}
use hs_blockchain.Core.Crypto.{
  Crypto, CoreError, check, ok, new_signature, new_public_key, ◌>>◌, PublicKey,
}
use hs_blockchain.Core.Validators.{new_validator_store, is_validator, majority_count}
use hs_blockchain.Core.Certs.{
  vote_hash, QuorumCert, Vote, new_quorum_cert, validate_qc, set_qc_data, build_qc, validate_vote,
  set_vote_data,
}
use hs_blockchain.Core.Blocks.{
  Signer, qc_hash, PbBlock, PbTransaction, validate_block, validate_block_qc, sign_block,
  block_vote, validate_tx, sign_tx,
}
use hs_blockchain.Core.Building.{IsCast, voters, build_qc-accepted}
use hs_blockchain.Core.Quorum.{
  IsCertificate, signers, validate_qc_iff, quorum_overlap, majority_count_bounds,
}
use hs_blockchain.Core.Signing.{
  IsKeyPair, validate_tx-sign_tx, validate_block-sign_block, validate_vote-block_vote,
}

abbrev toy : Crypto
toy = record {
  verify = λ key msg value. bytes_eq value (key ++ msg);
  sha3 = λ b. b;
  base64 = λ b. b;
}

abbrev key_of : ℕ → Bytes
key_of n = n ∷ replicate 31 0

abbrev public_key_of : ℕ → PublicKey
public_key_of n = record { key = key_of n; key_str = key_of n }

abbrev signer_of : ℕ → Signer
signer_of n = record {
  sign = λ msg. record {
    pb = record { pub_key = key_of n; value = key_of n ++ msg };
    pub_key = public_key_of n;
  };
  public_key = public_key_of n;
}

signer-IsKeyPair : (n : ℕ) → IsKeyPair toy (signer_of n)
signer-IsKeyPair n = record {
  key_size = refl;
  key_text = refl;
  names_key = λ msg. refl;
  verifies = λ msg. bytes_eq_refl (key_of n ++ msg);
}

abbrev four : List PublicKey
four = map public_key_of (0 ∷ 1 ∷ 2 ∷ 3 ∷ [])

abbrev cert_by : List ℕ → QuorumCert
cert_by ns = record {
  pb = some (record { block_hash = some (7 ∷ []); signatures = [] });
  sigs = map (λ n. (signer_of n).sign (7 ∷ [])) ns;
}

validate_qc_iff_example :
    (validate_qc toy (new_validator_store four) (cert_by (0 ∷ 1 ∷ 2 ∷ [])) ≡ ok tt)
    ↔ IsCertificate toy (new_validator_store four) (cert_by (0 ∷ 1 ∷ 2 ∷ []))
validate_qc_iff_example = validate_qc_iff toy (new_validator_store four) (cert_by (0 ∷ 1 ∷ 2 ∷ []))

accepted_first : validate_qc toy (new_validator_store four) (cert_by (0 ∷ 1 ∷ 2 ∷ [])) ≡ ok tt
unfolding validate_qc new_validator_store has insert bytes_eq
accepted_first = refl

accepted_last : validate_qc toy (new_validator_store four) (cert_by (3 ∷ 2 ∷ 1 ∷ [])) ≡ ok tt
unfolding validate_qc new_validator_store has insert bytes_eq
accepted_last = refl

quorum_overlap_example :
    (length four - 1) / 3
    < length
        (shared (signers (cert_by (0 ∷ 1 ∷ 2 ∷ [])).sigs) (signers (cert_by (3 ∷ 2 ∷ 1 ∷ [])).sigs))
quorum_overlap_example =
    quorum_overlap toy four (cert_by (0 ∷ 1 ∷ 2 ∷ [])) (cert_by (3 ∷ 2 ∷ 1 ∷ [])) accepted_first
      accepted_last

majority_count_bounds_example :
    (majority_count (3 * 33 + 1) ≡ 2 * 33 + 1)
    × (majority_count 34 ≤ 34)
    × (33 + (33 - 1) / 3 < 2 * majority_count 33)
majority_count_bounds_example = majority_count_bounds 33

abbrev a_tx : PbTransaction
a_tx = record {
  hash = [];
  nonce = 5;
  sender = [];
  code_addr = 9 ∷ [];
  input = 1 ∷ 2 ∷ [];
  expiry = 100;
  signature = [];
}

validate_tx-sign_tx_example : validate_tx toy (sign_tx toy (signer_of 1) a_tx) ≡ ok tt
validate_tx-sign_tx_example = validate_tx-sign_tx toy (signer_of 1) (signer-IsKeyPair 1) a_tx

abbrev a_block : PbBlock
a_block = record {
  hash = 4 ∷ [];
  height = 1;
  parent_hash = 7 ∷ [];
  proposer = [];
  quorum_cert = (cert_by (0 ∷ 1 ∷ 2 ∷ [])).pb;
  exec_height = 0;
  merkle_root = [];
  timestamp = 1;
  transactions = [];
  signature = [];
}

validate_block-sign_block_example :
    validate_block toy
      (new_validator_store four)
      (sign_block toy (signer_of 1) a_block (some (cert_by (0 ∷ 1 ∷ 2 ∷ []))))
    ≡ (validate_block_qc toy (new_validator_store four) a_block (some (cert_by (0 ∷ 1 ∷ 2 ∷ [])))
        >> check
            (not (is_validator (new_validator_store four) (some (public_key_of 1))))
            CoreError.invalid_validator)
validate_block-sign_block_example =
    validate_block-sign_block toy (signer_of 1) (signer-IsKeyPair 1) (new_validator_store four)
      a_block (some (cert_by (0 ∷ 1 ∷ 2 ∷ [])))

validate_vote-block_vote_example :
    (vote : Vote) × (block_vote toy (signer_of 2) a_block ≡ ok vote)
    × (vote_hash vote ≡ some a_block.hash)
    × (vote.voter ≡ some (public_key_of 2))
    × (validate_vote toy (new_validator_store four) vote
        ≡ check
            (not (is_validator (new_validator_store four) (some (public_key_of 2))))
            CoreError.invalid_validator)
validate_vote-block_vote_example =
    validate_vote-block_vote toy (signer_of 2) (signer-IsKeyPair 2) (new_validator_store four)
      a_block

abbrev vote_by : ℕ → Vote
vote_by n = record {
  pb =
      some
        (record { block_hash = some (7 ∷ []); signature = some ((signer_of n).sign (7 ∷ [])).pb });
  voter = some (public_key_of n);
}

abbrev three_votes : List Vote
three_votes = map vote_by (0 ∷ 2 ∷ 3 ∷ [])

vote_by-IsCast :
    (n : ℕ)
    → is_validator (new_validator_store four) (some (public_key_of n)) ≡ true
    → IsCast toy (new_validator_store four) (7 ∷ []) (vote_by n)
unfolding set_vote_data validate_vote new_signature new_public_key
vote_by-IsCast n h = record {
  read = refl;
  about = refl;
  valid = rw (h, bytes_eq_refl (key_of n ++ (7 ∷ []))) refl;
}

three_votes-IsCast : All (IsCast toy (new_validator_store four) (7 ∷ [])) three_votes
unfolding is_validator new_validator_store has insert bytes_eq
three_votes-IsCast = (vote_by-IsCast 0 refl, (vote_by-IsCast 2 refl, (vote_by-IsCast 3 refl, tt)))

three_votes_apart : Distinct (voters three_votes)
unfolding contains bytes_eq
three_votes_apart = (refl, (refl, (refl, tt)))

three_enough : (new_validator_store four).majority ≤ length three_votes
unfolding new_validator_store majority_count
three_enough = omega arith

build_qc-accepted_example :
    (qc : QuorumCert) × (build_qc new_quorum_cert three_votes ≡ ok qc)
    × (qc_hash qc.pb ≡ 7 ∷ [])
    × (validate_qc toy (new_validator_store four) qc ≡ ok tt)
    × (set_qc_data toy qc.pb ≡ ok qc)
build_qc-accepted_example =
    build_qc-accepted toy (new_validator_store four) (7 ∷ []) three_votes three_votes-IsCast
      three_votes_apart three_enough (omega arith)
