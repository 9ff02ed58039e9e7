-- ===== src/JuriaCoin/Examples.antt =====
-- An account with a hundred coins.
use hs_blockchain.Prelude.{
  ◌≡◌, refl, none, some, [], ◌∷◌, Bytes, bytes_eq, if◌then◌else◌, ◌⊎◌, arith, true, false, lookup,
}
use hs_blockchain.Execution.Tracker.{Value, Getter, base, track, new_state_tracker}
use hs_blockchain.Execution.Chaincode.{CallContext}
use hs_blockchain.Execution.TxExecuter.{err}
use hs_blockchain.JuriaCoin.Coin.{
  Input, Host, add64, sub64, less64, decode_balance, method_transfer,
}
use hs_blockchain.JuriaCoin.Values.{value_at}
use hs_blockchain.JuriaCoin.Transfers.{transferred, transfer-cases, transfer_self}

abbrev texts : Host
texts = record {
  parse_input = λ b. err [];
  not_minter = 1 ∷ [];
  not_enough = 2 ∷ [];
  no_method = 3 ∷ [];
  out_of_range = 4 ∷ [];
  number = λ n. n ∷ [];
}

abbrev alice : Bytes
alice = 65 ∷ []

abbrev bob : Bytes
bob = 66 ∷ []

abbrev balances : Bytes → Value
balances key = if bytes_eq key alice then some (0 ∷ 0 ∷ 0 ∷ 0 ∷ 0 ∷ 0 ∷ 0 ∷ 100 ∷ []) else none

abbrev by_alice : CallContext
by_alice = record { sender = some alice; block_hash = []; block_height = 1; input = [] }

abbrev thirty_to : Bytes → Input
thirty_to dest = record { method = method_transfer; dest = dest; value = 30 }

abbrev before : Getter
before = track (new_state_tracker []) (base (λ _. balances) 0)

has_hundred : decode_balance (value_at alice before) ≡ some 100
unfolding decode_balance value_at lookup new_state_tracker bytes_eq
has_hundred = refl

has_none : decode_balance (value_at bob before) ≡ some 0
unfolding decode_balance value_at lookup new_state_tracker bytes_eq
has_none = refl

not_bob : bytes_eq bob alice ≡ false
unfolding bytes_eq
not_bob = refl

covered : less64 100 30 ≡ false
unfolding less64
covered = refl

transfer-cases_example :
    ((less64 100 30 ≡ true)
      × ((transferred texts by_alice (thirty_to bob) before).0 ≡ some texts.not_enough)
      × ((j : Bytes)
          → value_at j (transferred texts by_alice (thirty_to bob) before).1 ≡ value_at j before))
    ⊎ ((less64 100 30 ≡ false)
        × ((transferred texts by_alice (thirty_to bob) before).0 ≡ none)
        × (decode_balance (value_at alice (transferred texts by_alice (thirty_to bob) before).1)
            ≡ some (sub64 100 30))
        × (decode_balance (value_at bob (transferred texts by_alice (thirty_to bob) before).1)
            ≡ some (add64 0 30))
        × (add64 (sub64 100 30) (add64 0 30) ≡ add64 100 0)
        × ((j : Bytes)
            → bytes_eq bob j ≡ false
            → bytes_eq alice j ≡ false
            → value_at j (transferred texts by_alice (thirty_to bob) before).1 ≡ value_at j before))
transfer-cases_example =
    transfer-cases texts by_alice (thirty_to bob) before 100 0 (λ i j key. refl)
      (new_state_tracker [], base (λ _. balances) 0, refl) has_hundred has_none (omega arith)
      (omega arith) (omega arith) not_bob

transfer_self_example :
    ((transferred texts by_alice (thirty_to alice) before).0 ≡ none)
    × (decode_balance (value_at alice (transferred texts by_alice (thirty_to alice) before).1)
        ≡ some (add64 100 30))
transfer_self_example =
    transfer_self texts by_alice (thirty_to alice) before 100 (λ i j key. refl)
      (new_state_tracker [], base (λ _. balances) 0, refl) has_hundred covered refl
