-- ===== src/Storage/Queries.antt =====
-- Query of execution/execution.go over the storage as its state store.
use hs_blockchain.Prelude.{
  ◌≡◌, sym, Option, none, some, some-injective, Bytes, ◌⊎◌, Bool, true, false, Option-cases, inl,
  inr, if◌then◌else◌, arith,
}
use hs_blockchain.Core.Wire.{Read, found, failed, panicked}
use hs_blockchain.Execution.Tracker.{Value}
use hs_blockchain.Execution.Chaincode.{err}
use hs_blockchain.Execution.TxExecuter.{Registry}
use hs_blockchain.Execution.Query.{Verifier, Verifies, query, query-Verifies, stored}
use hs_blockchain.Storage.StateStore.{get_state_value, get_merkle_index}
use hs_blockchain.Storage.Storage.{Config, verify_state}

abbrev pub value_or_panic : Read (Option Bytes) → Option Value
value_or_panic (found v) = some v
value_or_panic failed = none
value_or_panic panicked = none

-- The end of VerifyState: the value, or a panic.
checked_value :
    (m : Option Bool) (v : Bytes) (value : Value)
    → value_or_panic
        (elim m [ none ↦ panicked | some ok ↦ if ok then found (some v) else panicked ])
      ≡ some value
    → value ≡ some v
checked_value none v value e = absurd (ground (arith, e))
checked_value (some false) v value e = absurd (ground (arith, e))
checked_value (some true) v value e = sym (some-injective _ _ e)

module _ {D : Type 0} (cfg : Config D) (d : D) where
  -- VerifyState, for the execution.
  unfoldable pub storage_verifier : Verifier
  unfolding verify_state
  storage_verifier key = value_or_panic (verify_state cfg key d)

  storage_verifier-Verifies : Verifies storage_verifier (get_state_value cfg.db d)
  unfolding storage_verifier verify_state get_state_value get_merkle_index
  storage_verifier-Verifies key value e = elim (Option-cases (get_state_value cfg.db d key)) [
    | inl f ↦ rw f (sym (some-injective _ _ (rw (storage_verifier, verify_state, f) at e)))
    | inr (v, f) ↦ elim (Option-cases (get_merkle_index cfg.db d key)) [
      | inl g ↦ absurd (ground (arith, rw (storage_verifier, verify_state, f, g) at e))
      | inr (idx, g) ↦
          rw f (checked_value _ v value (rw (storage_verifier, verify_state, f, g) at e))
    ]
  ]

-- A query over the storage of a node is answered as a query that reads the stored values and verifies none
-- of them would be, or with the error of a recovered panic, and then there is a key for which VerifyState
-- panics.
pub query_stored :
    {D : Type 0} (cfg : Config D) (d : D) (reg : Registry) (panic_text code_addr input : Bytes)
    → ((query reg panic_text (storage_verifier cfg d) code_addr input ≡ err panic_text)
        × ((key : Bytes) × (storage_verifier cfg d key ≡ none)))
      ⊎ (query reg panic_text (storage_verifier cfg d) code_addr input
          ≡ query reg panic_text (stored (get_state_value cfg.db d)) code_addr input)
query_stored cfg d reg panic_text code_addr input =
    query-Verifies reg panic_text (storage_verifier cfg d) (get_state_value cfg.db d)
      (storage_verifier-Verifies cfg d) code_addr input
