-- ===== src/Consensus/ValidatorExamples.antt =====
-- A node of one validator that gets a proposal, whose parent it asks the proposer for, and a certificate.
use hs_blockchain.Prelude.{
  ℕ, suc, ◌≡◌, refl, true, false, none, some, List, [], ◌∷◌, bytes_eq, if◌then◌else◌, ◌==◌,
  replicate, ◌↔◌, All, has, insert, lookup,
}
use hs_blockchain.Core.Crypto.{Crypto, PublicKey, Signature}
use hs_blockchain.Core.Certs.{QuorumCert, validate_qc}
use hs_blockchain.Core.Blocks.{PbBlock, Block, PbTransaction, validate_block}
use hs_blockchain.Core.Validators.{new_validator_store}
use hs_blockchain.Consensus.Validator.{Resources, Call, State, verify_proposal_to_vote}
use hs_blockchain.Consensus.Handlers.{Event, handle_all, handle}
use hs_blockchain.Consensus.Admission.{Reached, IsSound}
use hs_blockchain.Consensus.Received.{handle_all-IsSound}
use hs_blockchain.Consensus.Voting.{IsFresh, SameState, verify_proposal_to_vote_iff}

abbrev trusting : Crypto
trusting = record { verify = λ key msg value. true; sha3 = λ b. []; base64 = λ b. b }

abbrev one_key : PublicKey
one_key = record { key = replicate 32 7; key_str = replicate 32 7 }

abbrev one_sig : Signature
one_sig = record { pb = record { pub_key = replicate 32 7; value = [] }; pub_key = one_key }

abbrev a_cert : QuorumCert
a_cert = record {
  pb = some (record { block_hash = some (9 ∷ []); signatures = [] });
  sigs = one_sig ∷ [];
}

abbrev parent_message : PbBlock
parent_message = record {
  hash = [];
  height = 0;
  parent_hash = 8 ∷ [];
  proposer = replicate 32 7;
  quorum_cert = none;
  exec_height = 0;
  merkle_root = [];
  timestamp = 0;
  transactions = [];
  signature = [];
}

abbrev a_parent : Block
a_parent = record { pb = some parent_message; proposer = some one_key; quorum_cert = none }

abbrev a_message : PbBlock
a_message = record parent_message {
  height = 1;
  parent_hash = 9 ∷ [];
  quorum_cert = a_cert.pb;
  transactions = (3 ∷ []) ∷ [];
}

abbrev a_proposal : Block
a_proposal = record { pb = some a_message; proposer = some one_key; quorum_cert = some a_cert }

abbrev pooled : PbTransaction
pooled = record {
  hash = 3 ∷ [];
  nonce = 0;
  sender = [];
  code_addr = [];
  input = [];
  expiry = 5;
  signature = [];
}

-- The number counts the calls of the other parts; the storage has the parent under its hash.
abbrev parts : Resources ℕ
parts = record {
  crypto = trusting;
  vld_store = new_validator_store (one_key ∷ []);
  stored_block = λ h w. if bytes_eq h (9 ∷ []) then some a_parent else none;
  block_height = λ w. 0;
  merkle_root = λ w. [];
  has_tx = λ h w. false;
  get_tx = λ h w. some pooled;
  sync_txs = λ peer hs w. (true, suc w);
  request_block = λ peer h w. (none, suc w);
  request_block_by_height = λ peer h w. (none, suc w);
  is_leader = λ key w. true;
  committed_height = λ w. w;
  update = λ b w. suc w;
  receive_proposal = λ b w. suc w;
  receive_vote = λ v w. suc w;
  update_qc_high = λ qc w. suc w;
}

abbrev fresh : State ℕ
fresh = record { world = 0; blocks = []; calls = [] }

abbrev messages : List Event
messages = Event.proposal a_parent ∷ Event.proposal a_proposal ∷ Event.new_view a_cert ∷ []

handle_all-IsSound_example : IsSound parts 0 (handle_all parts 9 messages fresh)
handle_all-IsSound_example =
    handle_all-IsSound parts 0 9 messages fresh
      (record { world = Reached.first; blocks = tt; calls = tt })

handled :
    (handle_all parts 9 messages fresh).calls
    ≡ Call.update_qc_high a_cert ∷ Call.receive_proposal a_proposal 2 ∷ []
unfolding handle_all handle new_validator_store validate_block validate_qc has insert lookup
    bytes_eq
handled = refl

verify_proposal_to_vote_iff_example : (verify_proposal_to_vote parts a_message 2 ≡ true) ↔ (
    (true ≡ true)
    × ((2 == 0) ≡ false → SameState parts a_message 2)
    × All (IsFresh parts 1 2) ((3 ∷ []) ∷ []))
verify_proposal_to_vote_iff_example = verify_proposal_to_vote_iff parts a_message 2
