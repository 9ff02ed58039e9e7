-- ===== src/Consensus/GenesisExamples.antt =====
-- Four validators create a genesis block, of which one is followed to the end, under a toy signature
-- scheme: a signature's value is the message after the key.
use hs_blockchain.Prelude.{
  ℕ, ◌≡◌, refl, ◌++◌, true, false, none, some, List, [], ◌∷◌, Bytes, bytes_eq, has, insert, map,
  replicate,
}
use hs_blockchain.Core.Crypto.{Crypto, PublicKey}
use hs_blockchain.Core.Validators.{new_validator_store, get_validator_index}
use hs_blockchain.Core.Certs.{
  QuorumCert, Vote, validate_qc, validate_vote, build_qc, new_quorum_cert,
}
use hs_blockchain.Core.Blocks.{Signer, sign_block, validate_block, block_vote, proposer_vote}
use hs_blockchain.Consensus.Creation.{Setting, State}
use hs_blockchain.Consensus.Genesis.{
  Event, received_proposal, received_new_view, handle_event, create_genesis_block,
}
use hs_blockchain.Consensus.Created.{IsFine, running}
use hs_blockchain.Consensus.Finished.{handle_event-IsFine}

abbrev toy : Crypto
toy = record {
  verify = λ key msg value. bytes_eq value (key ++ msg);
  sha3 = λ b. 7 ∷ [];
  base64 = λ b. b;
}

abbrev key_of : ℕ → Bytes
key_of n = n ∷ replicate 31 0

abbrev public_key_of : ℕ → PublicKey
public_key_of n = record { key = key_of n; key_str = key_of n }

abbrev signer_of : ℕ → Signer
signer_of n = record {
  sign = λ msg. record {
    pb = record { pub_key = key_of n; value = key_of n ++ msg };
    pub_key = public_key_of n;
  };
  public_key = public_key_of n;
}

abbrev four : List PublicKey
four = map public_key_of (0 ∷ 1 ∷ 2 ∷ 3 ∷ [])

abbrev node : ℕ → Setting (Unit {0})
node n = record {
  crypto = toy;
  vld_store = new_validator_store four;
  signer = signer_of n;
  chain_id = 5;
  now = 9;
  answer = λ peer height w. (none, w);
  arrange = λ votes. votes;
}

abbrev vote_by : ℕ → Vote
vote_by n = record {
  pb =
      some
        (record { block_hash = some (7 ∷ []); signature = some ((signer_of n).sign (7 ∷ [])).pb });
  voter = some (public_key_of n);
}

abbrev the_qc : QuorumCert
the_qc = record {
  pb = some (record { block_hash = some (7 ∷ []); signatures = [] });
  sigs = map (λ n. (signer_of n).sign (7 ∷ [])) (0 ∷ 1 ∷ 2 ∷ []);
}

abbrev fresh : State (Unit {0})
fresh = record {
  world = tt;
  b0 = none;
  q0 = none;
  votes = none;
  done = false;
  busy = false;
  sent = [];
}

-- A follower that has the leader's block, and then gets a certificate.
abbrev the_proposal : Event
the_proposal = received_proposal (create_genesis_block (node 0))

abbrev holding : State (Unit {0})
holding = (handle_event (node 1) the_proposal fresh).1

holding_open : holding.done ≡ false
unfolding handle_event validate_vote validate_qc new_validator_store sign_block block_vote
    proposer_vote build_qc validate_block create_genesis_block has insert bytes_eq
    get_validator_index new_quorum_cert
holding_open = refl

holding-IsFine : IsFine (node 1) holding
holding-IsFine =
    handle_event-IsFine (node 1) the_proposal fresh refl
      (running (node 1) fresh refl (λ b h pb h'. cc))

follower_done : (handle_event (node 1) (received_new_view the_qc) holding).1.done ≡ true
unfolding handle_event validate_vote validate_qc new_validator_store sign_block block_vote
    proposer_vote build_qc validate_block create_genesis_block has insert bytes_eq
    get_validator_index new_quorum_cert
follower_done = refl

handle_event-IsFine_example :
    IsFine (node 1) (handle_event (node 1) (received_new_view the_qc) holding).1
handle_event-IsFine_example =
    handle_event-IsFine (node 1) (received_new_view the_qc) holding holding_open holding-IsFine
