-- ===== src/Storage/VerifiedExamples.antt =====
-- The state of one key, for the code of a counter, whose leaf is the whole tree.
use hs_blockchain.Prelude.{
  ℕ, zero, suc, ◌≡◌, ◌↔◌, refl, none, some, ◌⊎◌, [], ◌∷◌, ◌++◌, Bytes, bytes_eq, lookup, ◌<◌, ◌≤◌,
  ◌^◌, arith,
}
use hs_blockchain.Core.Wire.{found}
use hs_blockchain.Merkle.TreeCalc.{height}
use hs_blockchain.Merkle.Position.{new_position, set_int_bytes}
use hs_blockchain.Merkle.Spec.{rows, digest}
use hs_blockchain.Merkle.Updates.{IsTree}
use hs_blockchain.Storage.StateStore.{get_state_value, get_merkle_index}
use hs_blockchain.Storage.MerkleStore.{merkle_store}
use hs_blockchain.Storage.Storage.{verify_state}
use hs_blockchain.Storage.Toys.{Memory, memory, config, config-shuffles}
use hs_blockchain.Execution.Chaincode.{ok, err}
use hs_blockchain.Execution.TxExecuter.{code_registry_addr}
use hs_blockchain.Execution.Query.{query, stored}
use hs_blockchain.Execution.Toys.{registry}
use hs_blockchain.Storage.Queries.{storage_verifier, query_stored}
use hs_blockchain.Storage.Verified.{IsVerified, verify_state-own_leaf, verify_state_iff}

-- The key of the code at the address 4.
abbrev code_key : Bytes
code_key = code_registry_addr ++ (4 ∷ [])

abbrev one_key : Memory
one_key =
    (12 ∷ [], 1 ∷ [])
    ∷ (11 ∷ [], 1 ∷ [])
    ∷ (13 ∷ (new_position 0 0).bytes, 7 ∷ 5 ∷ [])
    ∷ (9 ∷ code_key, 5 ∷ [])
    ∷ (10 ∷ code_key, 0 ∷ [])
    ∷ []

abbrev the_leaf : ℕ → Bytes
the_leaf i = 7 ∷ 5 ∷ []

one_count : (merkle_store memory one_key).leaf_count ≡ 1
unfolding merkle_store lookup bytes_eq set_int_bytes new_position
one_count = refl

one_high : (merkle_store memory one_key).height ≡ 1
unfolding merkle_store lookup bytes_eq set_int_bytes new_position
one_high = refl

one_node : (merkle_store memory one_key).get_node (new_position 0 0) ≡ some (7 ∷ 5 ∷ [])
unfolding merkle_store lookup bytes_eq new_position
one_node = refl

one_key-values :
    (level index : ℕ)
    → level < (merkle_store memory one_key).height
    → index < rows (config memory).tc (merkle_store memory one_key).leaf_count level
    → (merkle_store memory one_key).get_node (new_position level index)
      ≡ some (
          digest
            (config memory).hash
            (config memory).tc
            the_leaf
            (merkle_store memory one_key).leaf_count
            level
            index)
unfolding rows digest
one_key-values (suc level) index below within = absurd (omega (arith, below, one_high))
one_key-values zero (suc index) below within = absurd (omega (arith, within, one_count))
one_key-values zero zero below within = one_node

one_level : height (config memory).tc 1 ≡ some 1
unfolding height
one_level = refl

one_key-top :
    (level : ℕ)
    → suc level ≡ (merkle_store memory one_key).height
    → rows (config memory).tc (merkle_store memory one_key).leaf_count level ≤ 1
unfolding rows
one_key-top zero e = omega (arith, one_count)
one_key-top (suc level) e = absurd (omega (arith, e, one_high))

one_key-IsTree :
    IsTree (config memory).hash (config memory).tc (merkle_store memory one_key) the_leaf
one_key-IsTree = record {
  values = one_key-values;
  sized = λ s. rw (one_count, one_high) one_level;
  rooted = λ s. rw one_high (omega arith);
  top = one_key-top;
}

one_value : get_state_value memory one_key code_key ≡ some (5 ∷ [])
unfolding get_state_value lookup bytes_eq new_position
one_value = refl

one_index : get_merkle_index memory one_key code_key ≡ some (0 ∷ [])
unfolding get_merkle_index lookup bytes_eq new_position
one_index = refl

one_fits : (merkle_store memory one_key).leaf_count ≤ 8 ^ 0
one_fits = omega (arith, one_count)

verify_state_iff_example :
    (verify_state (config memory) code_key one_key ≡ found (some (5 ∷ [])))
    ↔ IsVerified
        (config memory)
        one_key
        (omega arith)
        the_leaf
        one_key-IsTree
        config-shuffles
        0
        one_fits
        (omega arith)
        code_key
        (5 ∷ [])
verify_state_iff_example =
    verify_state_iff (config memory) one_key (omega arith) the_leaf one_key-IsTree config-shuffles 0
      one_fits (omega arith) code_key (5 ∷ [])

-- VerifyState returns the value.
five : verify_state (config memory) code_key one_key ≡ found (some (5 ∷ []))
unfolding set_int_bytes
five =
    verify_state-own_leaf (config memory) one_key (omega arith) the_leaf one_key-IsTree
      config-shuffles 0 one_fits (omega arith) code_key (5 ∷ []) (0 ∷ []) one_value one_index
      (omega (arith, one_count)) refl

query_stored_example :
    ((query registry (1 ∷ []) (storage_verifier (config memory) one_key) (4 ∷ []) [] ≡ err (1 ∷ []))
      × ((key : Bytes) × (storage_verifier (config memory) one_key key ≡ none)))
    ⊎ (query registry (1 ∷ []) (storage_verifier (config memory) one_key) (4 ∷ []) []
        ≡ query registry (1 ∷ []) (stored (get_state_value memory one_key)) (4 ∷ []) [])
query_stored_example = query_stored (config memory) one_key registry (1 ∷ []) (4 ∷ []) []

-- The counter has no value yet, which its query answers.
no_count : query registry (1 ∷ []) (stored (get_state_value memory one_key)) (4 ∷ []) [] ≡ ok none
unfolding query get_state_value lookup bytes_eq new_position
no_count = refl
