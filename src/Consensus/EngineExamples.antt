-- ===== src/Consensus/EngineExamples.antt =====
-- The only validator of a chain proposes a block above the genesis block and votes for it.
use hs_blockchain.Prelude.{
  ◌≡◌, refl, suc, sym, Bool-cases, inl, inr, ◌⊎◌, bytes_eq_iff, some-injective, if◌then◌else◌,
  Option, none, some, List, [], ◌∷◌, Bytes, All, map, bytes_eq, arith, has, insert, length,
}
use hs_blockchain.Core.Crypto.{ok}
use hs_blockchain.Core.Validators.{new_validator_store, majority_count}
use hs_blockchain.Core.Certs.{
  PbQuorumCert, Vote, build_qc, new_quorum_cert, set_vote_data, validate_vote,
}
use hs_blockchain.Core.Blocks.{PbBlock}
use hs_blockchain.Storage.Toys.{plain, genesis}
use hs_blockchain.Hotstuff.Types.{Safely, ok as ok_run, ◌>>=◌}
use hs_blockchain.Hotstuff.State.{new_state}
use hs_blockchain.Hotstuff.Engine.{Event, propose, vote, certify, block_update, run}
use hs_blockchain.Hotstuff.Safety.{commits}
use hs_blockchain.Consensus.DriverExamples.{alone, signer}
use hs_blockchain.Consensus.Stored.{IsStore, Stored, stored_blocks}
use hs_blockchain.Consensus.Certified.{
  HashChain, NodeVote, node_driver, CertifiedCall, run-HashChain, run-certifies,
}

abbrev second : PbBlock
second = record genesis { hash = 3 ∷ []; height = 1; parent_hash = 1 ∷ []; transactions = [] }

abbrev two_blocks : Bytes → Option PbBlock
two_blocks h =
    if bytes_eq (1 ∷ []) h then some genesis else if bytes_eq (3 ∷ []) h then some second else none

two_blocks-cases :
    (h : Bytes) (b : PbBlock)
    → two_blocks h ≡ some b
    → ((h ≡ 1 ∷ []) × (b ≡ genesis)) ⊎ ((h ≡ 3 ∷ []) × (b ≡ second))
two_blocks-cases h b e = elim (Bool-cases (bytes_eq (1 ∷ []) h)) [
  | inl f ↦ inl (sym ((bytes_eq_iff _ h).0 f), sym (some-injective _ _ (rw f at e)))
  | inr f ↦ elim (Bool-cases (bytes_eq (3 ∷ []) h)) [
    | inl g ↦ inr (sym ((bytes_eq_iff _ h).0 g), sym (some-injective _ _ (rw (f, g) at e)))
    | inr g ↦ absurd (ground (arith, rw (f, g) at e))
  ]
]

two_blocks-above :
    (h : Bytes) (b parent : PbBlock)
    → two_blocks h ≡ some b
    → two_blocks b.parent_hash ≡ some parent
    → b.height ≡ suc parent.height
unfolding bytes_eq
two_blocks-above h b parent e f = elim (two_blocks-cases h b e) [
  | inl (_, g) ↦ absurd (ground (arith, rw g at f))
  | inr (_, g) ↦ rw (g, ← some-injective genesis parent (rw g at f)) refl
]

two_blocks-IsStore : IsStore two_blocks
two_blocks-IsStore = record {
  own_hash = λ h b e. elim (two_blocks-cases h b e) [
    | inl (g, f) ↦ rw (g, f) refl
    | inr (g, f) ↦ rw (g, f) refl
  ];
  has_bytes = λ h b e. elim (two_blocks-cases h b e) [
    | inl (g, f) ↦ rw g (omega arith)
    | inr (g, f) ↦ rw g (omega arith)
  ];
  above = two_blocks-above;
}

first_held : two_blocks (1 ∷ []) ≡ some genesis
unfolding bytes_eq
first_held = refl

second_held : two_blocks (3 ∷ []) ≡ some second
unfolding bytes_eq
second_held = refl

abbrev own_vote : Vote
own_vote = record {
  pb = some (record { block_hash = some (3 ∷ []); signature = some (signer.sign (3 ∷ [])).pb });
  voter = some signer.public_key;
}

own_vote_read : set_vote_data plain own_vote.pb ≡ ok own_vote
unfolding set_vote_data
own_vote_read = refl

own_vote_valid : validate_vote plain alone.vld_store own_vote ≡ ok tt
unfolding validate_vote new_validator_store has insert bytes_eq
own_vote_valid = refl

abbrev ballot : NodeVote alone two_blocks two_blocks-IsStore
ballot = record {
  vote = own_vote;
  pb = record { block_hash = some (3 ∷ []); signature = some (signer.sign (3 ∷ [])).pb };
  present = refl;
  read = own_vote_read;
  valid = own_vote_valid;
}

abbrev events :
    List (
      Event
        (Stored two_blocks)
        (Option PbQuorumCert)
        (NodeVote alone two_blocks two_blocks-IsStore))
events =
    propose (λ leaf qc height. some (second, second_held))
    ∷ vote ballot
    ∷ certify
    ∷ block_update (second, second_held)
    ∷ []

run-HashChain_example :
    Safely
      (λ s. HashChain genesis (map (λ b. b.0) (commits s.calls)))
      (run
        (stored_blocks two_blocks two_blocks-IsStore plain alone.vld_store)
        (node_driver alone two_blocks two_blocks-IsStore)
        events
        (new_state (genesis, first_held) none))
run-HashChain_example =
    run-HashChain alone two_blocks two_blocks-IsStore (genesis, first_held) none events

run-certifies_example :
    Safely
      (λ s. All (CertifiedCall alone two_blocks two_blocks-IsStore) s.calls)
      (run
        (stored_blocks two_blocks two_blocks-IsStore plain alone.vld_store)
        (node_driver alone two_blocks two_blocks-IsStore)
        events
        (new_state (genesis, first_held) none))
run-certifies_example =
    run-certifies alone two_blocks two_blocks-IsStore (genesis, first_held) none events

-- The node broadcasts its proposal and makes two certificates, the second one without votes.
two_calls :
    (run
        (stored_blocks two_blocks two_blocks-IsStore plain alone.vld_store)
        (node_driver alone two_blocks two_blocks-IsStore)
        events
        (new_state (genesis, first_held) none)
      >>= λ s. ok_run (length s.calls))
    ≡ ok_run 3
unfolding run stored_blocks node_driver new_state new_validator_store has insert bytes_eq
    majority_count build_qc new_quorum_cert
two_calls = refl
